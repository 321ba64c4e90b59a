-- ===== src/Accounts/Checklist/Repeat.antt =====
-- What a repeated request and an empty checklist do, by `update_checklist` and `checklist_response` of
-- services/phase4.py.
use mathlib.Core.Path.{subst}
use adhikar_ai.Prelude.{
  ℕ, String, true, ◌≡◌, ◌++◌, sym, ap, ◌⊎◌, ◌≢◌, inl, inr, none, some, List, [], ◌∷◌, nat_eq,
  string_eq, is_some, Option-cases, arith, filter,
}
use adhikar_ai.Prelude.Result.{err}
use adhikar_ai.Prelude.Exec.{run, begin, Session}
use adhikar_ai.Db.Rows.{EligibilityRule}
use adhikar_ai.Schemes.Update.{latest_of}
use adhikar_ai.Accounts.{User}
use adhikar_ai.Accounts.Sync.{OfflineSyncEvent, existing_event}
use adhikar_ai.Accounts.Checklist.{
  ChecklistTables, UpdateChecklistRequest, checklist_event, apply_checklist, checklist_response,
  update_checklist, is_listed, attribute_error,
}

existing_event-recorded :
    (user : User) (r : UpdateChecklistRequest) (rows : List OfflineSyncEvent)
    → is_some (
        existing_event user.organisation_id r.idempotency_key (rows ++ checklist_event user r ∷ []))
      ≡ true
existing_event-recorded user r [] = ground (
  arith,
  nat_eq.test_iff user.organisation_id user.organisation_id,
  string_eq.test_iff r.idempotency_key r.idempotency_key,
)
existing_event-recorded user r (row ∷ rows) = ground (arith, existing_event-recorded user r rows)

-- Reading a checklist changes nothing.
checklist_response-reads :
    (org profile_id : ℕ) (scheme_id : String) (s : Session ChecklistTables)
    → (checklist_response org profile_id scheme_id s).1 ≡ s
unfolding checklist_response
checklist_response-reads org profile_id scheme_id s = ground arith

update_checklist-known :
    (user : User) (r : UpdateChecklistRequest) (t : ChecklistTables)
    → is_some (existing_event user.organisation_id r.idempotency_key t.sync_events) ≡ true
    → (run (update_checklist user r) t).1 ≡ t
unfolding update_checklist
update_checklist-known user r t h =
    ground
      (arith, h, checklist_response-reads user.organisation_id r.profile_id r.scheme_id (begin t))

update_checklist-new :
    (user : User) (r : UpdateChecklistRequest) (t : ChecklistTables)
    → existing_event user.organisation_id r.idempotency_key t.sync_events ≡ none
    → ((run (update_checklist user r) t).1 ≡ t)
      ⊎ ((run (update_checklist user r) t).1 ≡ apply_checklist user r t)
unfolding update_checklist
update_checklist-new user r t h = ground (
  arith,
  h,
  checklist_response-reads user.organisation_id r.profile_id r.scheme_id
      (begin (apply_checklist user r t)),
)

-- Sending the same checklist update again leaves the database as the first time left it, whether or not
-- that was accepted.
pub update_checklist_again :
    (user : User) (r : UpdateChecklistRequest) (t : ChecklistTables)
    → let after = (run (update_checklist user r) t).1 in
      (run (update_checklist user r) after).1 ≡ after
update_checklist_again user r t =
    elim (Option-cases (existing_event user.organisation_id r.idempotency_key t.sync_events)) [
      | inr (e, h) ↦ let same = update_checklist-known user r t (ap is_some h) in same_again same
      | inl h ↦ elim (update_checklist-new user r t h) [
        | inl same ↦ same_again same
        | inr new ↦
            let recorded = existing_event-recorded user r t.sync_events in
            subst (λ after. (run (update_checklist user r) after).1 ≡ after) (sym new)
              (update_checklist-known user r (apply_checklist user r t) recorded)
      ]
    ]
  where
    same_again :
        (run (update_checklist user r) t).1 ≡ t
        → let after = (run (update_checklist user r) t).1 in
          (run (update_checklist user r) after).1 ≡ after
    same_again same = ap (λ after. (run (update_checklist user r) after).1) same

-- A citizen who has not kept a checklist for a scheme whose rule requires a document gets an internal
-- error in place of the rule's list.
pub checklist_of_rule_raises :
    (org profile_id : ℕ) (scheme_id : String) (t : ChecklistTables) (rule : EligibilityRule)
    → filter (is_listed org profile_id scheme_id) t.checklist_items ≡ []
    → latest_of org scheme_id true t.schemes ≡ some rule
    → rule.criteria.required_documents ≢ []
    → (run (checklist_response org profile_id scheme_id) t).0 ≡ err attribute_error
unfolding checklist_response
checklist_of_rule_raises org profile_id scheme_id t rule none_kept found required = ground arith
