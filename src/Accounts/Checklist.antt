-- ===== src/Accounts/Checklist.antt =====
-- services/phase4.py: the checklist of documents that a citizen keeps for a scheme.
pub mod Repeat
use adhikar_ai.Prelude.{
  ℕ, String, Bool, true, false, not, ◌&&◌, ◌||◌, Option, none, some, List, [], ◌∷◌, ◌++◌, map, ◌==◌,
  nat_eq, string_eq, contains, find, filter, all, is_some, if◌then◌else◌,
}
use adhikar_ai.Prelude.Result.{ApiError, api_error}
use adhikar_ai.Prelude.Exec.{
  Exec, pure, raise, gets, lift, or_raise, modify, commit, raise_if, ◌>>=◌, ◌>>◌,
}
use adhikar_ai.Prelude.Text.{str_nat}
use adhikar_ai.Value.{Value, Items, Fields, text, boolean, array, object, nil, cons, end, field}
use adhikar_ai.Schema.{RequiredDocument}
use adhikar_ai.Db.Rows.{EligibilityRule}
use adhikar_ai.Db.Tables.{Tables, update_rows}
use adhikar_ai.Schemes.Update.{latest_of}
use adhikar_ai.Accounts.{User, Profile}
use adhikar_ai.Accounts.Sync.{OfflineSyncEvent, applied, existing_event, assert_no_aadhaar_payload}

-- The columns that the checklist uses, with the two entries of the metadata.
pub record DocumentChecklistItem : Type 0 where
  pub organisation_id : ℕ
  pub user_id : ℕ
  pub profile_id : ℕ
  pub scheme_id : String
  pub document_name : String
  pub status : String
  pub is_mandatory : Bool
  pub accepted_substitutes : Items

pub record ChecklistTables : Type 0 where
  pub schemes : Tables
  pub profiles : List Profile
  pub checklist_items : List DocumentChecklistItem
  pub sync_events : List OfflineSyncEvent

abbrev pub ChecklistDb : Type 0 → Type 0
ChecklistDb A = Exec ChecklistTables A

pub record UpdateChecklistRequest : Type 0 where
  pub profile_id : ℕ
  pub scheme_id : String
  pub document_name : String
  pub status : String
  pub idempotency_key : String
  pub accepted_substitutes : Items
  pub is_mandatory : Bool

-- `request.model_dump(mode="json")`
abbrev pub request_dump : UpdateChecklistRequest → Value
request_dump r = object (
    field "profile_id" (text (str_nat r.profile_id)) (
      field "scheme_id" (text r.scheme_id) (
        field "document_name" (text r.document_name) (
          field "status" (text r.status) (
            field "idempotency_key" (text r.idempotency_key) (
              field "accepted_substitutes" (array r.accepted_substitutes)
                (field "is_mandatory" (boolean r.is_mandatory) end)))))))

pub record ChecklistItemView : Type 0 where
  pub document_name : String
  pub is_mandatory : Bool
  pub status : String
  pub accepted_substitutes : Items

pub record ChecklistResponse : Type 0 where
  pub items : List ChecklistItemView
  pub ready_to_apply : Bool
  pub substitute_guidance : List (String × Items)

abbrev pub is_listed : ℕ → ℕ → String → DocumentChecklistItem → Bool
is_listed org profile_id scheme_id item =
    item.organisation_id == org && (item.profile_id == profile_id && item.scheme_id == scheme_id)

abbrev pub view_of : DocumentChecklistItem → ChecklistItemView
view_of item = record {
  document_name = item.document_name;
  is_mandatory = item.is_mandatory;
  status = item.status;
  accepted_substitutes = item.accepted_substitutes;
}

abbrev pub is_ready : ChecklistItemView → Bool
is_ready item = not item.is_mandatory || contains item.status ("gathered" ∷ "verified" ∷ [])

abbrev has_items : Items → Bool
has_items nil = false
has_items (cons _ _) = true

abbrev pub needs_guidance : ChecklistItemView → Bool
needs_guidance item =
    item.is_mandatory
    && (contains item.status ("not_gathered" ∷ "rejected" ∷ [])
        && has_items item.accepted_substitutes)

abbrev pub checklist_of : List ChecklistItemView → ChecklistResponse
checklist_of items = record {
  items = items;
  ready_to_apply = all is_ready items;
  substitute_guidance =
      map (λ (i : ChecklistItemView). (i.document_name, i.accepted_substitutes))
        (filter needs_guidance items);
}

abbrev pub attribute_error : ApiError
attribute_error = record { status_code = 500; code = "INTERNAL_SERVER_ERROR"; field = none }

-- The items made from the rule: each document is a dictionary there, on which `doc.name` raises.
abbrev pub items_of_rule : List RequiredDocument → ChecklistDb (List ChecklistItemView)
items_of_rule [] = pure []
items_of_rule (_ ∷ _) = raise attribute_error

abbrev pub or_from_rule :
    ℕ → String → List DocumentChecklistItem → ChecklistDb (List ChecklistItemView)
or_from_rule org scheme_id (item ∷ items) = pure (map view_of (item ∷ items))
or_from_rule org scheme_id [] = do
  found ← gets λ (t : ChecklistTables). latest_of org scheme_id true t.schemes
  rule ← or_raise found (api_error 404 "RULE_NOT_FOUND" "eligibility_rule")
  items_of_rule rule.criteria.required_documents

unfoldable pub checklist_response : ℕ → ℕ → String → ChecklistDb ChecklistResponse
checklist_response org profile_id scheme_id = do
  stored ←
      gets λ (t : ChecklistTables). filter (is_listed org profile_id scheme_id) t.checklist_items
  items ← or_from_rule org scheme_id stored
  pure (checklist_of items)

abbrev pub is_foreign_profile : User → Option Profile → Bool
is_foreign_profile user none = true
is_foreign_profile user (some profile) = not (profile.organisation_id == user.organisation_id)

abbrev pub is_item_of : User → UpdateChecklistRequest → DocumentChecklistItem → Bool
is_item_of user r item =
    is_listed user.organisation_id r.profile_id r.scheme_id item
    && item.document_name == r.document_name

abbrev pub new_item : User → UpdateChecklistRequest → DocumentChecklistItem
new_item user r = record {
  organisation_id = user.organisation_id;
  user_id = user.id;
  profile_id = r.profile_id;
  scheme_id = r.scheme_id;
  document_name = r.document_name;
  status = r.status;
  is_mandatory = r.is_mandatory;
  accepted_substitutes = r.accepted_substitutes;
}

abbrev pub changed_item : UpdateChecklistRequest → DocumentChecklistItem → DocumentChecklistItem
changed_item r item = record item {
  status = r.status;
  is_mandatory = r.is_mandatory;
  accepted_substitutes = r.accepted_substitutes;
}

abbrev pub put_item :
    User → UpdateChecklistRequest → List DocumentChecklistItem → List DocumentChecklistItem
put_item user r rows = elim (find (is_item_of user r) rows) [
  | none ↦ rows ++ new_item user r ∷ []
  | some _ ↦ update_rows (is_item_of user r) (changed_item r) rows
]

abbrev pub checklist_event : User → UpdateChecklistRequest → OfflineSyncEvent
checklist_event user r = record {
  organisation_id = user.organisation_id;
  user_id = user.id;
  idempotency_key = r.idempotency_key;
  action_type = "checklist.update";
  payload = request_dump r;
  retry_count = 0;
  status = applied;
  error_code = none;
}

-- The assignments of the request that is not a repetition.
abbrev pub apply_checklist : User → UpdateChecklistRequest → ChecklistTables → ChecklistTables
apply_checklist user r t = record t {
  checklist_items = put_item user r t.checklist_items;
  sync_events = t.sync_events ++ checklist_event user r ∷ [];
}

unfoldable pub update_checklist : User → UpdateChecklistRequest → ChecklistDb ChecklistResponse
unfolding checklist_response
update_checklist user r = do
  lift (assert_no_aadhaar_payload (request_dump r))
  profile ← gets λ (t : ChecklistTables). find (λ (p : Profile). p.id == r.profile_id) t.profiles
  raise_if (is_foreign_profile user profile) (api_error 404 "PROFILE_NOT_FOUND" "profile_id")
  existing ←
      gets
        λ (t : ChecklistTables). existing_event user.organisation_id r.idempotency_key t.sync_events
  elim existing [
    | some _ ↦ checklist_response user.organisation_id r.profile_id r.scheme_id
    | none ↦ do
      modify (apply_checklist user r)
      commit
      checklist_response user.organisation_id r.profile_id r.scheme_id
  ]
