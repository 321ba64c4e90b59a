-- ===== src/Schemes/Expiry.antt =====
-- services/jobs/expiry_checker.py: the daily run that expires schemes and warns of those that expire soon.
use adhikar_ai.Prelude.{
  ℕ, Bool, false, not, ◌+◌, ◌&&◌, Option, none, some, List, ◌++◌, map, filter, length, nat_beq, ltb,
}
use adhikar_ai.Prelude.Exec.{pure, gets, modify, commit, ◌>>=◌, ◌>>◌}
use adhikar_ai.Prelude.Text.{prepend, str_nat}
use adhikar_ai.Db.Rows.{Lifecycle, is_active_status, is_expired_status, Scheme}
use adhikar_ai.Db.Tables.{SchemeStatusEvent, AdminNotification, Tables, update_rows}
use adhikar_ai.Schemes.{Db}

pub record ExpiryRunResult : Type 0 where
  pub expired_count : ℕ
  pub warning_count : ℕ

abbrev pub is_past : ℕ → Option ℕ → Bool
is_past today none = false
is_past today (some last_day) = ltb last_day today

-- The condition of the query for the schemes to expire.
abbrev pub has_expired : ℕ → Scheme → Bool
has_expired today scheme =
    is_past today scheme.valid_until && (not (is_expired_status scheme.status) && scheme.is_active)

abbrev pub is_last_day : ℕ → Option ℕ → Bool
is_last_day target none = false
is_last_day target (some last_day) = nat_beq last_day target

abbrev pub expires_on : ℕ → Scheme → Bool
expires_on target scheme =
    is_last_day target scheme.valid_until && (is_active_status scheme.status && scheme.is_active)

abbrev pub expired : Scheme → Scheme
expired scheme = record scheme { status = Lifecycle.expired; is_active = false }

abbrev pub expiry_event : Scheme → SchemeStatusEvent
expiry_event scheme = record {
  organisation_id = scheme.organisation_id;
  scheme_id = scheme.id;
  old_status = scheme.status;
  new_status = Lifecycle.expired;
  reason = "Scheme validity date has passed.";
}

abbrev pub expiry_notice : Scheme → AdminNotification
expiry_notice scheme = record {
  organisation_id = scheme.organisation_id;
  notification_type = "scheme_expired";
  title = prepend scheme.name " expired";
  related_scheme_id = scheme.id;
  severity = "critical";
}

abbrev pub warning_notice : ℕ → Scheme → AdminNotification
warning_notice days scheme = record {
  organisation_id = scheme.organisation_id;
  notification_type = prepend "scheme_expiring_" (prepend (str_nat days) "_days");
  title = prepend scheme.name (prepend " expires in " (prepend (str_nat days) " days"));
  related_scheme_id = scheme.id;
  severity = "warning";
}

-- The loop over the schemes that have expired.
abbrev pub expire_rows : ℕ → Tables → Tables
expire_rows today t =
    let rows = filter (has_expired today) t.schemes in
    record t {
      schemes = update_rows (has_expired today) expired t.schemes;
      scheme_status_events = t.scheme_status_events ++ map expiry_event rows;
      admin_notifications = t.admin_notifications ++ map expiry_notice rows;
    }

-- One turn of the loop over 30 and 7 days.
abbrev pub warn : ℕ → List Scheme → Tables → Tables
warn days rows t = record t {
  admin_notifications = t.admin_notifications ++ map (warning_notice days) rows;
}

unfoldable pub expire_schemes : ℕ → Db ExpiryRunResult
expire_schemes today = do
  rows ← gets λ (t : Tables). filter (has_expired today) t.schemes
  modify (expire_rows today)
  month ← gets λ (t : Tables). filter (expires_on (today + 30)) t.schemes
  modify (warn 30 month)
  week ← gets λ (t : Tables). filter (expires_on (today + 7)) t.schemes
  modify (warn 7 week)
  commit
  pure (record { expired_count = length rows; warning_count = length month + length week })
