-- ===== src/Dashboard/Login/Tests.antt =====
-- A login of the dashboard in development.
use mathlib.Core.Path.{subst}
use adhikar_ai.Prelude.{◌≡◌, refl, sym, ◌∙◌, true, some, Member, here, next, [], ◌∷◌}
use adhikar_ai.Prelude.Result.{ok, err, api_error}
use adhikar_ai.Prelude.Text.{lower, strip, all_chars}
use adhikar_ai.Dashboard.Rbac.{DashboardActor}
use adhikar_ai.Core.Security.{
  OrganisationMember, actor_of, create_dashboard_session_jwt, dashboard_payload,
  require_dashboard_actor,
}
use adhikar_ai.Core.Security.Tokens.{IsReadable}
use adhikar_ai.Core.Security.Tests.{asha, member_env, member-IsReadable}
use adhikar_ai.Dashboard.Login.{LoginSettings, DashboardLoginRequest, dashboard_me, dashboard_login}
use adhikar_ai.Dashboard.Login.Opens.{IsRoster, dashboard_login_opens}

abbrev development : LoginSettings
development = record {
  app_env = "Local";
  dashboard_auth_provider = "dev";
  dashboard_dev_login_enabled = true;
  dashboard_dev_login_code = "letmein";
}

abbrev by_asha : DashboardLoginRequest
by_asha = record { email = " Asha@ngo.in "; login_code = "letmein" }

logged_in :
    dashboard_login member_env development 1000 by_asha (asha ∷ [])
    ≡ ok (dashboard_me (actor_of asha), create_dashboard_session_jwt member_env 1000 asha)
unfolding dashboard_login lower all_chars strip
logged_in = refl

wrong_code :
    dashboard_login member_env development 1000 (record by_asha { login_code = "x" }) (asha ∷ [])
    ≡ err (api_error 401 "DASHBOARD_INVALID_CREDENTIALS" "login_code")
unfolding dashboard_login lower all_chars strip
wrong_code = refl

only-asha : (m : OrganisationMember) → Member m (asha ∷ []) → m ≡ asha
only-asha m (here e) = e
only-asha m (next k) = elim k [ ]

asha-IsRoster : IsRoster member_env (asha ∷ [])
asha-IsRoster = record {
  keys = λ a b m k _. only-asha a m ∙ sym (only-asha b k);
  uuid = λ m k. rw (only-asha m k) refl;
  nonempty = λ m k. rw (only-asha m k) refl;
}

dashboard_login_opens_example :
    (actor : DashboardActor) × (dashboard_me (actor_of asha) ≡ dashboard_me actor)
    × (require_dashboard_actor member_env 2000
          (some (create_dashboard_session_jwt member_env 1000 asha))
          (asha ∷ [])
        ≡ ok actor)
dashboard_login_opens_example =
    dashboard_login_opens member_env development 1000 2000 by_asha (asha ∷ [])
      (dashboard_me (actor_of asha)) (create_dashboard_session_jwt member_env 1000 asha)
      (λ m k.
        subst (λ x. IsReadable member_env (dashboard_payload member_env 1000 x))
          (sym (only-asha m k)) member-IsReadable)
      asha-IsRoster logged_in
