-- ===== src/Accounts/Tests.antt =====
-- Logins and recorded actions of a concrete citizen.
use adhikar_ai.Prelude.{
  find, ◌++◌, String, ◌-◌, ◌≤◌, ◌≡◌, ◌↔◌, ◌+◌, refl, true, false, some, none, map, List, [], ◌∷◌,
}
use adhikar_ai.Prelude.Result.{ok, is_ok, done}
use adhikar_ai.Prelude.Exec.{run}
use adhikar_ai.Value.{Value, object, field, number, end, nil}
use adhikar_ai.Prelude.Int.{pos}
use adhikar_ai.Prelude.Text.{lower}
use adhikar_ai.Schemes.Tests.{one_scheme}
use adhikar_ai.Accounts.Saved.{
  SavedTables, week, save_scheme, ApplicationStatus, UpdateApplicationStatusRequest, is_application,
  status_event, update_application_status,
}
use adhikar_ai.Accounts.Saved.Status.{status_of, update_application_status_recorded}
use adhikar_ai.Accounts.Saved.Again.{save_scheme_again}
use adhikar_ai.Accounts.Checklist.{ChecklistTables, UpdateChecklistRequest, update_checklist}
use adhikar_ai.Accounts.Checklist.Repeat.{update_checklist_again}
use adhikar_ai.Accounts.{User, Profile, sent, OtpChallenge, AccountTables}
use adhikar_ai.Accounts.Otp.{Env, VerifyOtpRequest, get_challenge, accepted}
use adhikar_ai.Accounts.Login.{log_in}
use adhikar_ai.Accounts.Verify.{check_code, verify_otp}
use adhikar_ai.Accounts.Verify.Attempts.{attempts_of, tries, tries_bounded}
use adhikar_ai.Accounts.Verify.Accepted.{IsAcceptable, verify_otp_sound, verify_otp_once}
use adhikar_ai.Accounts.Sync.{
  OfflineSyncItem, OfflineSyncEvent, applied, duplicate, sync_result, assert_no_aadhaar_payload,
  assert_no_aadhaar_fields, sync_item, sync_items, process_offline_sync,
}
use adhikar_ai.Accounts.Sync.Guard.{IsClean, assert_no_aadhaar_payload_iff}
use adhikar_ai.Accounts.Sync.Resend.{process_offline_sync_again}

-- A hash that shows its code.
abbrev env : Env
env = record {
  otp_provider = "mock";
  otp_retry_after_seconds = 30;
  otp_expiry_seconds = 300;
  otp_max_attempts = 5;
  now = 1000;
  challenge_id = 9;
  profile_id = 10;
  user_id = 11;
  otp = "123456";
  provider_request_id = "mock_0000";
  hash_otp = λ otp id. otp;
}

abbrev challenge : OtpChallenge
challenge = record {
  id = 3;
  organisation_id = 1;
  phone_e164 = "+919876543210";
  provider = "mock";
  provider_request_id = "mock_3210";
  otp_hash = "424242";
  status = sent;
  attempts = 2;
  expires_at = 1100;
  created_at = 900;
}

abbrev accounts : AccountTables
accounts = record {
  organisations = 1 ∷ [];
  otp_challenges = challenge ∷ [];
  users = [];
  profiles = [];
}

abbrev request_with : String → VerifyOtpRequest
request_with otp = record {
  organisation_id = 1;
  challenge_id = 3;
  otp = otp;
  guest_profile_id = none;
  language_code = "hi";
}

tries_bounded_example :
    tries 3 ((env, request_with "000000") ∷ (env, request_with "424242") ∷ []) accounts
    ≤ 5 - attempts_of 3 accounts
tries_bounded_example =
    tries_bounded 5 3 ((env, request_with "000000") ∷ (env, request_with "424242") ∷ []) accounts
      (refl, (refl, tt))

abbrev logged_in : AccountTables
logged_in = (run (verify_otp env (request_with "424242")) accounts).1

login_succeeds : run (verify_otp env (request_with "424242")) accounts ≡ (ok (11, false), logged_in)
unfolding verify_otp check_code log_in
login_succeeds = refl

verify_otp_sound_example :
    (c : OtpChallenge) × (get_challenge 3 accounts ≡ some c)
    × IsAcceptable env (request_with "424242") c
    × (get_challenge 3 logged_in ≡ some (accepted c))
verify_otp_sound_example =
    verify_otp_sound env (request_with "424242") accounts logged_in (11, false) login_succeeds

verify_otp_once_example : is_ok (run (verify_otp env (request_with "424242")) logged_in).0 ≡ false
verify_otp_once_example =
    verify_otp_once env env (request_with "424242") (request_with "424242") accounts logged_in
      (11, false) login_succeeds refl

abbrev payload : Value
payload = object (field "age" (number (pos 3000)) end)

abbrev item : OfflineSyncItem
item = record {
  idempotency_key = "key-0001";
  action_type = "profile.update";
  payload = payload;
  retry_count = 0;
}

assert_no_aadhaar_payload_iff_example : (assert_no_aadhaar_payload payload ≡ done) ↔ IsClean payload
assert_no_aadhaar_payload_iff_example = assert_no_aadhaar_payload_iff payload

abbrev synced : List OfflineSyncEvent
synced = (run (process_offline_sync 1 11 (item ∷ [])) []).1

sync_succeeds :
    run (process_offline_sync 1 11 (item ∷ [])) []
    ≡ (ok (sync_result item applied none ∷ []), synced)
unfolding process_offline_sync sync_items sync_item assert_no_aadhaar_payload
    assert_no_aadhaar_fields lower
sync_succeeds = refl

process_offline_sync_again_example :
    run (process_offline_sync 1 11 (item ∷ [])) synced
    ≡ (ok (map (λ i. sync_result i duplicate none) (item ∷ [])), synced)
process_offline_sync_again_example =
    process_offline_sync_again 1 11 (item ∷ []) [] synced (sync_result item applied none ∷ [])
      sync_succeeds

abbrev citizen : User
citizen = record {
  id = 11;
  organisation_id = 1;
  phone_e164 = "+919876543210";
  phone_verified_at = none;
  primary_profile_id = some 10;
  language_code = "hi";
  notification_opt_in = false;
  deleted_at = none;
}

abbrev citizen_profile : Profile
citizen_profile = record { id = 10; organisation_id = 1; custom_attributes = [] }

abbrev nothing_saved : SavedTables
nothing_saved = record {
  profiles = citizen_profile ∷ [];
  schemes = ("women", 1) ∷ [];
  saved_schemes = [];
  notification_jobs = [];
  application_statuses = [];
  application_status_events = [];
}

abbrev saved : SavedTables
saved = (run (save_scheme 1000 citizen 10 "women") nothing_saved).1

saving_succeeds : run (save_scheme 1000 citizen 10 "women") nothing_saved ≡ (ok 605800, saved)
unfolding save_scheme
saving_succeeds = refl

save_scheme_again_example :
    run (save_scheme 2000 citizen 10 "women") saved ≡ (ok (2000 + week), saved)
save_scheme_again_example =
    save_scheme_again citizen 10 "women" 1000 2000 605800 nothing_saved saved saving_succeeds

abbrev nothing_kept : ChecklistTables
nothing_kept = record {
  schemes = one_scheme;
  profiles = citizen_profile ∷ [];
  checklist_items = [];
  sync_events = [];
}

abbrev gathered : UpdateChecklistRequest
gathered = record {
  profile_id = 10;
  scheme_id = "women";
  document_name = "Ration card";
  status = "gathered";
  idempotency_key = "key-0002";
  accepted_substitutes = nil;
  is_mandatory = true;
}

update_checklist_again_example :
    (run
      (update_checklist citizen gathered)
      (run (update_checklist citizen gathered) nothing_kept).1).1
    ≡ (run (update_checklist citizen gathered) nothing_kept).1
update_checklist_again_example = update_checklist_again citizen gathered nothing_kept

abbrev submission : UpdateApplicationStatusRequest
submission = record { profile_id = 10; scheme_id = "women"; status = "submitted"; notes = none }

abbrev submitted : SavedTables
submitted = (run (update_application_status 1000 77 citizen submission) saved).1

submission_succeeds :
    run (update_application_status 1000 77 citizen submission) saved
    ≡ (ok (some 1210600), submitted)
unfolding save_scheme update_application_status
submission_succeeds = refl

update_application_status_recorded_example :
    (row : ApplicationStatus) × (find
        (is_application citizen submission)
        submitted.application_statuses
      ≡ some row)
    × (row.status ≡ "submitted")
    × (row.notes ≡ none)
    × (submitted.application_status_events
        ≡ saved.application_status_events
          ++ status_event citizen submission row.id
              (status_of (find (is_application citizen submission) saved.application_statuses))
            ∷ [])
update_application_status_recorded_example =
    update_application_status_recorded citizen submission 1000 77 saved submitted (some 1210600)
      submission_succeeds
