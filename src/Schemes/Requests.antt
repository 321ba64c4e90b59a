-- ===== src/Schemes/Requests.antt =====
-- The requests that change schemes, one after another, and the states of the database that they reach.
pub mod Atomic
pub mod Lifecycle
pub mod Versions
use adhikar_ai.Prelude.{ℕ, String, Bool, ◌≡◌}
use adhikar_ai.Prelude.Result.{is_ok}
use adhikar_ai.Prelude.Exec.{run}
use adhikar_ai.Db.Tables.{Tables}
use adhikar_ai.Schemes.{CreateSchemeRequest, create_scheme}
use adhikar_ai.Schemes.Update.{UpdateSchemeRequest, update_scheme, publish_scheme, archive_scheme}
use adhikar_ai.Schemes.Expiry.{expire_schemes}

-- The handlers of the admin routes, and the daily run for a day.
pub data AdminRequest : Type 0 where
  create : CreateSchemeRequest → AdminRequest
  update : String → UpdateSchemeRequest → AdminRequest
  publish : ℕ → String → AdminRequest
  archive : ℕ → String → String → AdminRequest
  expire : ℕ → AdminRequest

-- Whether the request succeeds, and what is committed after it.
abbrev pub handle : AdminRequest → Tables → Bool × Tables
handle (create request) t = let (r, after) = run (create_scheme request) t in (is_ok r, after)
handle (update id request) t = let (r, after) = run (update_scheme id request) t in (is_ok r, after)
handle (publish org id) t = let (r, after) = run (publish_scheme org id) t in (is_ok r, after)
handle (archive org id reason) t =
    let (r, after) = run (archive_scheme org id reason) t in (is_ok r, after)
handle (expire today) t = let (r, after) = run (expire_schemes today) t in (is_ok r, after)

-- What requests make of `start`, each run to its end.
pub data Reachable (start : Tables) : Tables → Type 0 where
  initial : Reachable start start
  then_request :
      {t after : Tables}
      → Reachable start t
      → (request : AdminRequest) → after ≡ (handle request t).1
      → Reachable start after
