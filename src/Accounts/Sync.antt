-- ===== src/Accounts/Sync.antt =====
-- services/phase4.py: the actions that a phone recorded without a network, `process_offline_sync`, and
-- the guard that keeps Aadhaar numbers out of payloads.
pub mod Guard
pub mod Resend
use adhikar_ai.Prelude.{
  ℕ, String, Bool, true, false, ◌&&◌, Option, none, some, List, [], ◌∷◌, ◌++◌, ◌==◌, nat_eq,
  string_eq, contains, find, if◌then◌else◌, leb,
}
use adhikar_ai.Prelude.Result.{Result, err, api_error, done}
use adhikar_ai.Prelude.Result.{◌>>◌ as ◌then_check◌}
use adhikar_ai.Prelude.Exec.{Exec, pure, gets, lift, modify, commit, ◌>>=◌, ◌>>◌}
use adhikar_ai.Prelude.Text.{lower}
use adhikar_ai.Value.{
  Value, Items, Fields, null, boolean, number, text, array, object, nil, cons, end, field,
}

-- `SENSITIVE_KEYS`
abbrev pub sensitive_keys : List String
sensitive_keys = "aadhaar" ∷ "aadhaar_number" ∷ "uid" ∷ "uidai_number" ∷ []

abbrev pub refuse_key : String → Result (Unit {0})
refuse_key key = err (api_error 422 "AADHAAR_NOT_ALLOWED" key)

-- Stops at the first sensitive key of an object, in the objects and arrays inside it too.
unfoldable mutual
  pub assert_no_aadhaar_payload : Value → Result (Unit {0})
  assert_no_aadhaar_payload (object fields) = assert_no_aadhaar_fields fields
  assert_no_aadhaar_payload (array items) = assert_no_aadhaar_items items
  assert_no_aadhaar_payload null = done
  assert_no_aadhaar_payload (boolean b) = done
  assert_no_aadhaar_payload (number n) = done
  assert_no_aadhaar_payload (text s) = done

  pub assert_no_aadhaar_fields : Fields → Result (Unit {0})
  assert_no_aadhaar_fields end = done
  assert_no_aadhaar_fields (field key value fields) =
      let rest = assert_no_aadhaar_fields fields in
      let inside = assert_no_aadhaar_payload value in
      if contains (lower key) sensitive_keys then refuse_key key else inside then_check rest

  pub assert_no_aadhaar_items : Items → Result (Unit {0})
  assert_no_aadhaar_items nil = done
  assert_no_aadhaar_items (cons item items) =
      assert_no_aadhaar_payload item then_check assert_no_aadhaar_items items

pub data SyncStatus : Type 0 where
  applied duplicate failed : SyncStatus

pub record OfflineSyncItem : Type 0 where
  pub idempotency_key : String
  pub action_type : String
  pub payload : Value
  pub retry_count : ℕ

pub record OfflineSyncEvent : Type 0 where
  pub organisation_id : ℕ
  pub user_id : ℕ
  pub idempotency_key : String
  pub action_type : String
  pub payload : Value
  pub retry_count : ℕ
  pub status : SyncStatus
  pub error_code : Option String

pub record OfflineSyncResult : Type 0 where
  pub idempotency_key : String
  pub status : SyncStatus
  pub error_code : Option String

abbrev pub SyncDb : Type 0 → Type 0
SyncDb A = Exec (List OfflineSyncEvent) A

-- The row that already carries the key in the organisation.
abbrev pub existing_event : ℕ → String → List OfflineSyncEvent → Option OfflineSyncEvent
existing_event org key rows =
    find (λ (e : OfflineSyncEvent). e.organisation_id == org && e.idempotency_key == key) rows

abbrev pub sync_status : OfflineSyncItem → SyncStatus
sync_status item = if leb item.retry_count 5 then applied else failed

abbrev pub sync_error : OfflineSyncItem → Option String
sync_error item = if leb item.retry_count 5 then none else some "RETRY_LIMIT_EXCEEDED"

abbrev pub recorded : ℕ → ℕ → OfflineSyncItem → OfflineSyncEvent
recorded org user_id item = record {
  organisation_id = org;
  user_id = user_id;
  idempotency_key = item.idempotency_key;
  action_type = item.action_type;
  payload = item.payload;
  retry_count = item.retry_count;
  status = sync_status item;
  error_code = sync_error item;
}

abbrev pub sync_result : OfflineSyncItem → SyncStatus → Option String → OfflineSyncResult
sync_result item status error_code = record {
  idempotency_key = item.idempotency_key;
  status = status;
  error_code = error_code;
}

-- One turn of the loop; a query sees the rows that the earlier turns added.
unfoldable pub sync_item : ℕ → ℕ → OfflineSyncItem → SyncDb OfflineSyncResult
sync_item org user_id item = do
  lift (assert_no_aadhaar_payload item.payload)
  existing ← gets (existing_event org item.idempotency_key)
  elim existing [
    | some _ ↦ pure (sync_result item duplicate none)
    | none ↦ do
      modify λ rows. rows ++ recorded org user_id item ∷ []
      pure (sync_result item (sync_status item) (sync_error item))
  ]

unfoldable pub sync_items : ℕ → ℕ → List OfflineSyncItem → SyncDb (List OfflineSyncResult)
unfolding sync_item
sync_items org user_id [] = pure []
sync_items org user_id (item ∷ items) = do
  result ← sync_item org user_id item
  results ← sync_items org user_id items
  pure (result ∷ results)

unfoldable pub process_offline_sync : ℕ → ℕ → List OfflineSyncItem → SyncDb (List OfflineSyncResult)
unfolding sync_items
process_offline_sync org user_id items = do
  results ← sync_items org user_id items
  commit
  pure results
