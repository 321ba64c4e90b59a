-- ===== src/Accounts/Citizen/Tests.antt =====
-- A citizen subscribes to notifications, makes a plan and deletes the account.
use adhikar_ai.Prelude.{◌≡◌, ◌≢◌, ◌↔◌, refl, false, some, none, [], ◌∷◌, filter, arith}
use adhikar_ai.Prelude.Result.{ok, err, api_error}
use adhikar_ai.Prelude.Exec.{run}
use adhikar_ai.Accounts.Citizen.{
  NotificationSubscription, CitizenTables, CitizenEnv, PushSubscriptionRequest, is_subscription,
  subscribe_notifications, start_aadhaar_prefill, finish_digilocker, delete_account,
}
use adhikar_ai.Accounts.Citizen.Subscriptions.{
  IsSingle, IsSubscribed, subscribe_notifications-IsSingle,
}
use adhikar_ai.Accounts.Citizen.Deletion.{delete_account_ends_sessions}
use adhikar_ai.Core.Security.{create_session_jwt, require_user}
use adhikar_ai.Core.Security.Tests.{citizen, citizen_env}
use adhikar_ai.Schemes.Tests.{one_scheme}

abbrev env : CitizenEnv
env = record {
  now = 1200;
  fresh_id = 50;
  fresh_hex = "f0";
  str_uuid = λ _. "u11";
  hex = λ _. "0123456789ab";
}

abbrev tables : CitizenTables
tables = record {
  users = citizen ∷ [];
  profiles = record { id = 10; organisation_id = 1; custom_attributes = [] } ∷ [];
  schemes = one_scheme;
  notification_subscriptions = [];
  action_plans = [];
  digilocker_connections = [];
  verified_documents = [];
}

abbrev browser : PushSubscriptionRequest
browser = record { endpoint = "https://push/1"; p256dh = "key"; auth = "a"; user_agent = none }

abbrev subscribed : CitizenTables
subscribed = (run (subscribe_notifications citizen browser) tables).1

no_consent : (run (start_aadhaar_prefill citizen 10 false) tables).0 ≡ ok ("blocked", [])
unfolding start_aadhaar_prefill
no_consent = refl

foreign_profile :
    (run (finish_digilocker env citizen 12) tables).0
    ≡ err (api_error 404 "PROFILE_NOT_FOUND" "profile_id")
unfolding finish_digilocker
foreign_profile = refl

subscribe_notifications-IsSingle_example :
    let after =
      (run (subscribe_notifications citizen browser) tables).1.notification_subscriptions in
    IsSingle after
    × ((row : NotificationSubscription) × (filter (is_subscription 1 "https://push/1") after
          ≡ row ∷ [])
        × IsSubscribed citizen browser [] row)
subscribe_notifications-IsSingle_example =
    subscribe_notifications-IsSingle citizen browser tables (λ org endpoint. omega arith)

delete_account_ends_sessions_example :
    let cookie = some (create_session_jwt citizen_env 1000 citizen) in
    (require_user citizen_env 1300 cookie (run (delete_account env citizen) tables).1.users
      ≡ ok citizen)
    ↔ ((require_user citizen_env 1300 cookie tables.users ≡ ok citizen) × (citizen.id ≢ citizen.id))
delete_account_ends_sessions_example =
    delete_account_ends_sessions citizen_env env citizen citizen tables 1300
      (some (create_session_jwt citizen_env 1000 citizen))
