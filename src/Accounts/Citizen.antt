-- ===== src/Accounts/Citizen.antt =====
-- services/phase4.py: the other services for a citizen who is logged in. Push notifications, plans of
-- action, DigiLocker in its sandbox, the consent to a prefill, and the deletion of the account.
pub mod Subscriptions
pub mod Deletion
pub mod Tests
use adhikar_ai.Prelude.{
  ℕ, String, Bool, true, false, not, ◌&&◌, Option, none, some, List, [], ◌∷◌, ◌++◌, ◌==◌, nat_eq,
  string_eq, find, if◌then◌else◌,
}
use adhikar_ai.Prelude.Result.{api_error}
use adhikar_ai.Prelude.Exec.{Exec, pure, gets, modify, commit, or_raise, raise_if, ◌>>=◌, ◌>>◌}
use adhikar_ai.Prelude.Text.{prepend, take_text}
use adhikar_ai.Schema.{RequiredDocument}
use adhikar_ai.Db.Rows.{Scheme, EligibilityRule}
use adhikar_ai.Db.Tables.{Tables, update_rows}
use adhikar_ai.Schemes.Update.{is_foreign, latest_of}
use adhikar_ai.Accounts.{User, Profile}
use adhikar_ai.Accounts.Saved.{profile_is_foreign}

pub record NotificationSubscription : Type 0 where
  pub organisation_id : ℕ
  pub user_id : ℕ
  pub endpoint : String
  pub p256dh : String
  pub auth : String
  pub user_agent : Option String
  pub is_active : Bool

pub record DigiLockerConnection : Type 0 where
  pub organisation_id : ℕ
  pub user_id : ℕ
  pub profile_id : ℕ
  pub digilocker_user_id : String
  pub status : String

-- The metadata says that no document is kept.
pub record VerifiedDocument : Type 0 where
  pub organisation_id : ℕ
  pub user_id : ℕ
  pub profile_id : ℕ
  pub source : String
  pub document_type : String
  pub issuer : String
  pub masked_identifier : String
  pub verification_status : String
  pub verified_at : ℕ

-- A scheme of a plan; the three steps are the same for all.
pub record PlannedScheme : Type 0 where
  pub scheme_id : String
  pub name : String
  pub benefit_amount : String
  pub documents : List RequiredDocument
  pub application_url : Option String

pub record ActionPlan : Type 0 where
  pub id : ℕ
  pub organisation_id : ℕ
  pub user_id : ℕ
  pub profile_id : ℕ
  pub conversation_session_id : Option ℕ
  pub format : String
  pub storage_url : String
  pub schemes : List PlannedScheme
  pub share_text : String

pub record CitizenTables : Type 0 where
  pub users : List User
  pub profiles : List Profile
  pub schemes : Tables
  pub notification_subscriptions : List NotificationSubscription
  pub action_plans : List ActionPlan
  pub digilocker_connections : List DigiLockerConnection
  pub verified_documents : List VerifiedDocument

abbrev pub CitizenDb : Type 0 → Type 0
CitizenDb A = Exec CitizenTables A

-- The clock, fresh ids and texts of `uuid4`, and the texts of an id.
pub record CitizenEnv : Type 0 where
  pub now : ℕ
  pub fresh_id : ℕ
  pub fresh_hex : String
  pub str_uuid : ℕ → String
  pub hex : ℕ → String

-- `_require_profile`
abbrev pub own_profile : User → ℕ → CitizenDb (Unit {0})
own_profile user profile_id = do
  profile ← gets λ (t : CitizenTables). find (λ (p : Profile). p.id == profile_id) t.profiles
  raise_if (profile_is_foreign user profile) (api_error 404 "PROFILE_NOT_FOUND" "profile_id")

-- An assignment to the attributes of the user's row.
abbrev pub set_user : ℕ → (User → User) → CitizenTables → CitizenTables
set_user id f t = record t { users = update_rows (λ (u : User). u.id == id) f t.users }

pub record PushSubscriptionRequest : Type 0 where
  pub endpoint : String
  pub p256dh : String
  pub auth : String
  pub user_agent : Option String

-- The condition of the query for a subscription.
abbrev pub is_subscription : ℕ → String → NotificationSubscription → Bool
is_subscription organisation_id endpoint row =
    row.organisation_id == organisation_id && row.endpoint == endpoint

abbrev pub renewed : PushSubscriptionRequest → NotificationSubscription → NotificationSubscription
renewed request row = record row { p256dh = request.p256dh; auth = request.auth; is_active = true }

abbrev pub new_subscription : User → PushSubscriptionRequest → NotificationSubscription
new_subscription user request = record {
  organisation_id = user.organisation_id;
  user_id = user.id;
  endpoint = request.endpoint;
  p256dh = request.p256dh;
  auth = request.auth;
  user_agent = request.user_agent;
  is_active = true;
}

-- The row that exists is changed in place.
abbrev pub put_subscription :
    User
    → PushSubscriptionRequest
    → Option NotificationSubscription
    → List NotificationSubscription
    → List NotificationSubscription
put_subscription user request (some _) rows =
    update_rows (is_subscription user.organisation_id request.endpoint) (renewed request) rows
put_subscription user request none rows = rows ++ new_subscription user request ∷ []

unfoldable pub subscribe_notifications : User → PushSubscriptionRequest → CitizenDb Bool
subscribe_notifications user request = do
  existing ← gets λ (t : CitizenTables).
      find (is_subscription user.organisation_id request.endpoint) t.notification_subscriptions
  modify λ (t : CitizenTables). record t {
    notification_subscriptions =
        put_subscription user request existing t.notification_subscriptions;
  }
  modify (set_user user.id λ u. record u { notification_opt_in = true })
  commit
  pure true

pub record ActionPlanRequest : Type 0 where
  pub profile_id : ℕ
  pub conversation_session_id : Option ℕ
  pub scheme_ids : List String
  pub format : String

abbrev pub planned : Scheme → EligibilityRule → PlannedScheme
planned scheme rule = record {
  scheme_id = scheme.id;
  name = scheme.name;
  benefit_amount = scheme.benefit_amount;
  documents = rule.criteria.required_documents;
  application_url = scheme.application_url;
}

-- One round of the loop: a scheme of another organisation is left out, and one without a rule raises.
abbrev pub plan_scheme : User → Option Scheme → CitizenDb (List PlannedScheme)
plan_scheme user none = pure []
plan_scheme user (some scheme) =
    if scheme.organisation_id == user.organisation_id
    then (do
      found ← gets λ (t : CitizenTables). latest_of user.organisation_id scheme.id true t.schemes
      rule ← or_raise found (api_error 404 "RULE_NOT_FOUND" "eligibility_rule")
      pure (planned scheme rule ∷ []))
    else pure []

unfoldable pub plan_schemes : User → List String → CitizenDb (List PlannedScheme)
plan_schemes user [] = pure []
plan_schemes user (scheme_id ∷ ids) = do
  scheme ← gets λ (t : CitizenTables). find (λ (s : Scheme). s.id == scheme_id) t.schemes.schemes
  first ← plan_scheme user scheme
  rest ← plan_schemes user ids
  pure (first ++ rest)

-- `"\n".join(f"{name}: {benefit_amount}")`
abbrev pub share_line : PlannedScheme → String
share_line item = prepend item.name (prepend ": " item.benefit_amount)

unfoldable pub share_text_of : List PlannedScheme → String
unfolding prepend
share_text_of [] = ""
share_text_of (item ∷ []) = share_line item
share_text_of (item ∷ more ∷ items) =
    prepend (share_line item) (prepend "\n" (share_text_of (more ∷ items)))

abbrev pub new_plan : CitizenEnv → User → ActionPlanRequest → List PlannedScheme → ActionPlan
new_plan env user request schemes = record {
  id = env.fresh_id;
  organisation_id = user.organisation_id;
  user_id = user.id;
  profile_id = request.profile_id;
  conversation_session_id = request.conversation_session_id;
  format = request.format;
  storage_url = prepend "/action-plans/" env.fresh_hex;
  schemes = schemes;
  share_text = share_text_of schemes;
}

-- The reply is the row.
unfoldable pub create_action_plan : CitizenEnv → User → ActionPlanRequest → CitizenDb ActionPlan
unfolding plan_schemes share_text_of prepend
create_action_plan env user request = do
  own_profile user request.profile_id
  schemes ← plan_schemes user request.scheme_ids
  modify λ (t : CitizenTables). record t {
    action_plans = t.action_plans ++ new_plan env user request schemes ∷ [];
  }
  commit
  pure (new_plan env user request schemes)

-- The address to go to, and the state that it carries.
unfoldable pub start_digilocker : CitizenEnv → User → ℕ → String → CitizenDb (String × String)
unfolding prepend
start_digilocker env user profile_id redirect_uri = do
  own_profile user profile_id
  pure (prepend redirect_uri (prepend "?sandbox=digilocker&state=" env.fresh_hex), env.fresh_hex)

abbrev pub connection_of : CitizenEnv → User → ℕ → DigiLockerConnection
connection_of env user profile_id = record {
  organisation_id = user.organisation_id;
  user_id = user.id;
  profile_id = profile_id;
  digilocker_user_id = prepend "dg_" (take_text 8 (env.hex user.id));
  status = "connected";
}

abbrev pub identity_of : CitizenEnv → User → ℕ → VerifiedDocument
identity_of env user profile_id = record {
  organisation_id = user.organisation_id;
  user_id = user.id;
  profile_id = profile_id;
  source = "digilocker";
  document_type = "identity";
  issuer = "DigiLocker Sandbox";
  masked_identifier = "verified";
  verification_status = "verified";
  verified_at = env.now;
}

-- The reply is the same for all.
unfoldable pub finish_digilocker : CitizenEnv → User → ℕ → CitizenDb String
unfolding prepend take_text
finish_digilocker env user profile_id = do
  own_profile user profile_id
  modify λ (t : CitizenTables). record t {
    digilocker_connections = t.digilocker_connections ++ connection_of env user profile_id ∷ [];
    verified_documents = t.verified_documents ++ identity_of env user profile_id ∷ [];
  }
  commit
  pure "connected"

-- The status and the fields that may be filled in.
unfoldable pub start_aadhaar_prefill : User → ℕ → Bool → CitizenDb (String × List String)
start_aadhaar_prefill user profile_id false = pure ("blocked", [])
start_aadhaar_prefill user profile_id true = do
  own_profile user profile_id
  pure ("ready", "name" ∷ "date_of_birth" ∷ "gender" ∷ "address" ∷ "state_code" ∷ [])

abbrev pub deleted : CitizenEnv → User → User
deleted env user = record user {
  phone_e164 = prepend "deleted:" (env.str_uuid user.id);
  deleted_at = some env.now;
}

unfoldable pub delete_account : CitizenEnv → User → CitizenDb Bool
unfolding prepend
delete_account env user = do modify (set_user user.id (deleted env)); commit; pure true
