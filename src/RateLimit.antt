-- ===== src/RateLimit.antt =====
-- rate_limit/service.py: the daily limits of guests and operators, counted in this process or in Redis.
pub mod Laws
pub mod Tests
use adhikar_ai.Prelude.{
  ℕ, zero, suc, String, Bool, true, false, ◌&&◌, Option, none, some, List, [], ◌∷◌, ◌==◌, ◌≡◌, ◌↔◌,
  Eq, nat_eq, string_eq, arith, if◌then◌else◌, ltb, nat_beq,
}
use adhikar_ai.Prelude.Dict.{lookup, insert, lookup-insert}
use adhikar_ai.Prelude.Result.{Result, ok, err, ApiError, raise_if}

-- The parts of the key `rate:{organisation_id}:{actor_type}:{actor_id}:{date}`. The type holds no colon
-- and the organisation and the date have a fixed length, so that the text determines the parts.
pub record RateKey : Type 0 where
  pub organisation_id : ℕ
  pub actor_type : String
  pub actor_id : String
  pub day : ℕ

abbrev pub rate_key : ℕ → String → String → ℕ → RateKey
rate_key organisation_id actor_type actor_id day = record {
  organisation_id = organisation_id;
  actor_type = actor_type;
  actor_id = actor_id;
  day = day;
}

abbrev pub key_beq : RateKey → RateKey → Bool
key_beq j k =
    j.organisation_id == k.organisation_id
    && j.actor_type == k.actor_type
    && j.actor_id == k.actor_id
    && j.day == k.day

pub key_beq_iff : (j k : RateKey) → (key_beq j k ≡ true) ↔ (j ≡ k)
key_beq_iff j k = ground (
  arith,
  nat_eq.test_iff j.organisation_id k.organisation_id,
  string_eq.test_iff j.actor_type k.actor_type,
  string_eq.test_iff j.actor_id k.actor_id,
  nat_eq.test_iff j.day k.day,
)

instance abbrev pub key_eq : Eq RateKey
key_eq = record { test = key_beq; test_iff = key_beq_iff }

-- The Redis client: a store of counts with INCR and EXPIRE. INCR adds one to the count of its key, which
-- is 0 when the key is missing, and returns the sum. EXPIRE changes no count now, unless the time is 0:
-- that deletes the key.
pub record RedisClient (R : Type 0) : Type 0 where
  pub count : RateKey → R → ℕ
  pub incr : RateKey → R → ℕ × R
  pub expire : RateKey → ℕ → R → R
  pub incr-returns : (k : RateKey) (r : R) → (incr k r).0 ≡ suc (count k r)
  pub count-incr :
      (k j : RateKey) (r : R)
      → count j (incr k r).1 ≡ (if k == j then suc (count j r) else count j r)
  pub count-expire : (k j : RateKey) (n : ℕ) (r : R) → count j (expire k (suc n) r) ≡ count j r
  pub count-expire_zero :
      (k j : RateKey) (r : R) → count j (expire k 0 r) ≡ (if k == j then 0 else count j r)

-- `_MEMORY_COUNTS`, and the store behind `_REDIS_CLIENT`.
pub record Counters (R : Type 0) : Type 0 where
  pub memory : List (RateKey × ℕ)
  pub redis : R

-- The settings and the clock that a request sees.
pub record Limits : Type 0 where
  pub redis_url_is_memory : Bool
  pub rate_limit_guest_per_day : ℕ
  pub rate_limit_operator_per_day : ℕ
  pub today : ℕ
  pub seconds_until_next_midnight : ℕ

-- The refusal of a request over the limit.
abbrev pub rate_limit_exceeded : ApiError
rate_limit_exceeded = record { status_code = 429; code = "RATE_LIMIT_EXCEEDED"; field = none }

-- A `defaultdict(int)` reads 0 for a missing key.
abbrev pub memory_count : RateKey → List (RateKey × ℕ) → ℕ
memory_count k d = elim (lookup k d) [ none ↦ 0 | some n ↦ n ]

module _ {R : Type 0} (client : RedisClient R) (limits : Limits) where
  unfoldable pub increment_counter : RateKey → Counters R → ℕ × Counters R
  increment_counter key s =
      let in_memory = suc (memory_count key s.memory) in
      let (count, r) = client.incr key s.redis in
      let r' =
        if nat_beq count 1 then client.expire key limits.seconds_until_next_midnight r else r in
      let counted = record s { memory = insert key in_memory s.memory } in
      if limits.redis_url_is_memory then (in_memory, counted) else (count, record s { redis = r' })

  unfoldable pub check_rate_limit :
      String → String → ℕ → ℕ → Counters R → Result (Unit {0}) × Counters R
  unfolding increment_counter
  check_rate_limit actor_type actor_id organisation_id limit s =
      let (count, s') =
        increment_counter (rate_key organisation_id actor_type actor_id limits.today) s in
      (raise_if (ltb limit count) rate_limit_exceeded, s')

  abbrev pub check_guest_limit : ℕ → String → Counters R → Result (Unit {0}) × Counters R
  check_guest_limit organisation_id session_id =
      check_rate_limit "guest" session_id organisation_id limits.rate_limit_guest_per_day

  unfoldable pub check_operator_limit : ℕ → String → ℕ → Counters R → Result (Unit {0}) × Counters R
  unfolding check_rate_limit
  check_operator_limit organisation_id member_id zero s = (ok tt, s)
  check_operator_limit organisation_id member_id (suc units) s =
      let (r, s') =
        check_rate_limit "operator" member_id organisation_id limits.rate_limit_operator_per_day
          s in
      elim r [
        | ok _ ↦ check_operator_limit organisation_id member_id units s'
        | err e ↦ (err e, s')
      ]
