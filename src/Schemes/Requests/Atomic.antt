-- ===== src/Schemes/Requests/Atomic.antt =====
-- The transactions of services/schemes.py: what a refused request leaves in the database.
use adhikar_ai.Prelude.{false, ◌≡◌, arith}
use adhikar_ai.Db.Tables.{Tables}
use adhikar_ai.Schemes.{create_scheme}
use adhikar_ai.Schemes.Update.{update_scheme, publish_scheme, archive_scheme}
use adhikar_ai.Schemes.Expiry.{expire_schemes}
use adhikar_ai.Schemes.Requests.{AdminRequest, create, update, publish, archive, expire, handle}

-- A request that raises has committed nothing, also when it has already assigned to the scheme.
pub refused_request_unchanged :
    (request : AdminRequest) (t : Tables) → (handle request t).0 ≡ false → (handle request t).1 ≡ t
unfolding create_scheme update_scheme publish_scheme archive_scheme expire_schemes
refused_request_unchanged (create request) t h = ground arith
refused_request_unchanged (update id request) t h = ground arith
refused_request_unchanged (publish org id) t h = ground arith
refused_request_unchanged (archive org id reason) t h = ground arith
refused_request_unchanged (expire today) t h = ground arith
