-- ===== src/RateLimit/Laws.antt =====
-- The counts behind the limits of rate_limit/service.py: who is refused, and what a refusal changes.
use adhikar_ai.Prelude.{
  ℕ, zero, suc, String, true, inr, ◌<◌, ◌+◌, ◌≤◌, ◌≡◌, ◌≢◌, ◌↔◌, ◌⊎◌, inl, refl, List, ◌==◌,
  if◌then◌else◌, ltb, arith,
}
use adhikar_ai.Prelude.Dict.{insert, lookup-insert}
use adhikar_ai.Prelude.Result.{err, done}
use adhikar_ai.RateLimit.{
  RateKey, rate_key, key_eq, RedisClient, Counters, Limits, rate_limit_exceeded, memory_count,
  increment_counter, check_rate_limit, check_operator_limit,
}

pub memory_count-insert :
    (k j : RateKey) (n : ℕ) (d : List (RateKey × ℕ))
    → memory_count j (insert k n d) ≡ (if k == j then n else memory_count j d)
memory_count-insert k j n d = ground (arith, lookup-insert k j n d)

module _ {R : Type 0} (client : RedisClient R) (limits : Limits) where
  -- The count of a key in the store that the settings select.
  abbrev pub count : RateKey → Counters R → ℕ
  count k s = if limits.redis_url_is_memory then memory_count k s.memory else client.count k s.redis

  pub increment_counter-returns :
      (k : RateKey) (s : Counters R) → (increment_counter client limits k s).0 ≡ suc (count k s)
  unfolding increment_counter
  increment_counter-returns k s = ground (arith, client.incr-returns k s.redis)

  -- A key that is made gets a time to live: the counts are in this process, or midnight is a second away
  -- or more.
  abbrev pub IsTimely : Type 0
  IsTimely = (limits.redis_url_is_memory ≡ true) ⊎ (0 < limits.seconds_until_next_midnight)

  count-expire_timely :
      (k j : RateKey) (n : ℕ) (r : R)
      → 0 < n
      → client.count j (client.expire k n r) ≡ client.count j r
  count-expire_timely k j zero r h = absurd (omega (arith, h))
  count-expire_timely k j (suc n) r h = client.count-expire k j n r

  pub count-increment_counter :
      (k j : RateKey) (s : Counters R)
      → IsTimely
      → count j (increment_counter client limits k s).1
        ≡ (if k == j then suc (count j s) else count j s)
  unfolding increment_counter
  count-increment_counter k j s (inl local) = ground (
    arith,
    local,
    key_eq.test_iff k j,
    memory_count-insert k j (suc (memory_count k s.memory)) s.memory,
  )
  count-increment_counter k j s (inr later) = ground (
    arith,
    key_eq.test_iff k j,
    memory_count-insert k j (suc (memory_count k s.memory)) s.memory,
    client.count-incr k j s.redis,
    count-expire_timely k j limits.seconds_until_next_midnight (client.incr k s.redis).1 later,
  )

  -- Where the counts are in this process, or midnight is a second away or more: a request is refused with
  -- 429 RATE_LIMIT_EXCEEDED exactly when it is over the limit counting itself; refused or not, it is
  -- counted on its own key and on no other.
  pub check_rate_limit_lem :
      (actor_type actor_id : String) (organisation_id limit : ℕ) (s : Counters R)
      → IsTimely
      → let key = rate_key organisation_id actor_type actor_id limits.today in
        let (r, s') = check_rate_limit client limits actor_type actor_id organisation_id limit s in
        (r ≡ (if ltb limit (suc (count key s)) then err rate_limit_exceeded else done))
        × ((j : RateKey) → count j s' ≡ (if key == j then suc (count j s) else count j s))
  unfolding check_rate_limit
  check_rate_limit_lem actor_type actor_id organisation_id limit s timely =
      let key = rate_key organisation_id actor_type actor_id limits.today in
      (ground (arith, increment_counter-returns key s), λ j. count-increment_counter key j s timely)

  -- Where the counts are in this process, or midnight is a second away or more: a request of several units
  -- passes exactly when it has none or when the day's limit holds all of them on top of the operator's
  -- count; it changes the count of no other key.
  pub check_operator_limit_iff :
      (organisation_id : ℕ) (member_id : String) (units : ℕ) (s : Counters R)
      → IsTimely
      → let key = rate_key organisation_id "operator" member_id limits.today in
        let (r, s') = check_operator_limit client limits organisation_id member_id units s in
        ((r ≡ done) ↔ ((units ≡ 0) ⊎ (count key s + units ≤ limits.rate_limit_operator_per_day)))
        × ((j : RateKey) → j ≢ key → count j s' ≡ count j s)
  unfolding check_operator_limit
  check_operator_limit_iff organisation_id member_id zero s timely =
      ((λ h. inl refl, λ h. refl), λ j h. refl)
  check_operator_limit_iff organisation_id member_id (suc units) s timely =
      let key = rate_key organisation_id "operator" member_id limits.today in
      let limit = limits.rate_limit_operator_per_day in
      let once = check_rate_limit client limits "operator" member_id organisation_id limit s in
      let (reply, counted) =
        check_rate_limit_lem "operator" member_id organisation_id limit s timely in
      let (passes, others) =
        check_operator_limit_iff organisation_id member_id units once.1 timely in
      (
        ground (arith, reply, counted key, key_eq.test_iff key key, passes),
        λ j other. ground (arith, counted j, others j other, key_eq.test_iff key j),
      )
