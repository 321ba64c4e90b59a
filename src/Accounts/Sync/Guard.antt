-- ===== src/Accounts/Sync/Guard.antt =====
-- What `assert_no_aadhaar_payload` of services/phase4.py lets through.
use adhikar_ai.Prelude.{
  String, false, ◌≡◌, ◌↔◌, string_eq, contains, Member, Member-contains, contains-Member, inl, inr,
  arith, Bool-cases,
}
use adhikar_ai.Prelude.Result.{done}
use adhikar_ai.Prelude.Text.{lower}
use adhikar_ai.Value.{
  Value, Items, Fields, null, boolean, number, text, array, object, nil, cons, end, field,
}
use adhikar_ai.Accounts.Sync.{
  sensitive_keys, assert_no_aadhaar_payload, assert_no_aadhaar_fields, assert_no_aadhaar_items,
}

-- No object, at any depth, has a sensitive key in any letter case.
mutual
  pub IsClean : Value → Type 0
  IsClean (object fields) = AreCleanFields fields
  IsClean (array items) = AreCleanItems items
  IsClean null = Unit
  IsClean (boolean b) = Unit
  IsClean (number n) = Unit
  IsClean (text s) = Unit

  pub AreCleanFields : Fields → Type 0
  AreCleanFields end = Unit
  AreCleanFields (field key value fields) =
      (Member (lower key) sensitive_keys → ⊥) × IsClean value × AreCleanFields fields

  pub AreCleanItems : Items → Type 0
  AreCleanItems nil = Unit
  AreCleanItems (cons item items) = IsClean item × AreCleanItems items

not_sensitive :
    (key : String) → (contains key sensitive_keys ≡ false) ↔ (Member key sensitive_keys → ⊥)
not_sensitive key =
    (λ h m. let k = Member-contains key sensitive_keys m in absurd (ground arith), found)
  where
    found : (Member key sensitive_keys → ⊥) → contains key sensitive_keys ≡ false
    found none_found = elim (Bool-cases (contains key sensitive_keys)) [
      | inl h ↦ absurd (none_found (contains-Member key sensitive_keys h))
      | inr h ↦ h
    ]

mutual
  unfolding assert_no_aadhaar_payload assert_no_aadhaar_fields assert_no_aadhaar_items IsClean
      AreCleanFields AreCleanItems

  payload_iff : (payload : Value) → (assert_no_aadhaar_payload payload ≡ done) ↔ IsClean payload
  payload_iff (object fields) = fields_iff fields
  payload_iff (array items) = items_iff items
  payload_iff null = ground arith
  payload_iff (boolean b) = ground arith
  payload_iff (number n) = ground arith
  payload_iff (text s) = ground arith

  fields_iff : (fields : Fields) → (assert_no_aadhaar_fields fields ≡ done) ↔ AreCleanFields fields
  fields_iff end = ground arith
  fields_iff (field key value fields) =
      ground (arith, not_sensitive (lower key), payload_iff value, fields_iff fields)

  items_iff : (items : Items) → (assert_no_aadhaar_items items ≡ done) ↔ AreCleanItems items
  items_iff nil = ground arith
  items_iff (cons item items) = ground (arith, payload_iff item, items_iff items)

-- A payload passes exactly when it is clean: no object in it, at any depth, has a sensitive key.
pub assert_no_aadhaar_payload_iff :
    (payload : Value) → (assert_no_aadhaar_payload payload ≡ done) ↔ IsClean payload
assert_no_aadhaar_payload_iff payload = payload_iff payload
