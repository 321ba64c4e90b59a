-- ===== src/RateLimit/Tests.antt =====
-- The limits of concrete operators, counted in this process and by a store like Redis.
use adhikar_ai.Prelude.{
  ℕ, zero, suc, inr, List, [], false, ◌+◌, ◌≤◌, ◌≡◌, ◌≢◌, ◌↔◌, ◌⊎◌, ◌==◌, ltb, if◌then◌else◌, refl,
  arith,
}
use adhikar_ai.Prelude.Dict.{insert}
use adhikar_ai.Prelude.Result.{err, done}
use adhikar_ai.RateLimit.{
  RateKey, rate_key, key_eq, RedisClient, Counters, Limits, rate_limit_exceeded, memory_count,
  check_rate_limit, check_operator_limit,
}
use adhikar_ai.RateLimit.Laws.{
  count, memory_count-insert, check_rate_limit_lem, check_operator_limit_iff,
}

memory_count-incr :
    (k j : RateKey) (d : List (RateKey × ℕ))
    → memory_count j (insert k (suc (memory_count k d)) d)
      ≡ (if k == j then suc (memory_count j d) else memory_count j d)
memory_count-incr k j d =
    ground (arith, key_eq.test_iff k j, memory_count-insert k j (suc (memory_count k d)) d)

list_expire : RateKey → ℕ → List (RateKey × ℕ) → List (RateKey × ℕ)
list_expire k zero d = insert k 0 d
list_expire k (suc n) d = d

list_expire_zero :
    (k j : RateKey) (d : List (RateKey × ℕ))
    → memory_count j (list_expire k 0 d) ≡ (if k == j then 0 else memory_count j d)
unfolding list_expire
list_expire_zero k j d = memory_count-insert k j 0 d

list_expire_later :
    (k j : RateKey) (n : ℕ) (d : List (RateKey × ℕ))
    → memory_count j (list_expire k (suc n) d) ≡ memory_count j d
unfolding list_expire
list_expire_later k j n d = refl

-- A client over an association list.
abbrev list_client : RedisClient (List (RateKey × ℕ))
list_client = record {
  count = memory_count;
  incr = λ k d. (suc (memory_count k d), insert k (suc (memory_count k d)) d);
  expire = list_expire;
  incr-returns = λ k d. refl;
  count-incr = memory_count-incr;
  count-expire = list_expire_later;
  count-expire_zero = list_expire_zero;
}

abbrev three_a_day : Limits
three_a_day = record {
  redis_url_is_memory = false;
  rate_limit_guest_per_day = 3;
  rate_limit_operator_per_day = 3;
  today = 20000;
  seconds_until_next_midnight = 60;
}

abbrev fresh : Counters (List (RateKey × ℕ))
fresh = record { memory = []; redis = [] }

check_rate_limit_lem_example :
    let key = rate_key 1 "guest" "s" 20000 in
    let (r, s') = check_rate_limit list_client three_a_day "guest" "s" 1 3 fresh in
    (r ≡ (
      if ltb 3 (suc (count list_client three_a_day key fresh))
      then err rate_limit_exceeded
      else done))
    × ((j : RateKey)
        → count list_client three_a_day j s' ≡ (
            if key == j
            then suc (count list_client three_a_day j fresh)
            else count list_client three_a_day j fresh))
check_rate_limit_lem_example =
    check_rate_limit_lem list_client three_a_day "guest" "s" 1 3 fresh (inr (omega arith))

abbrev four : ℕ
four = 4

check_operator_limit_iff_example :
    let key = rate_key 1 "operator" "m" 20000 in
    let (r, s') = check_operator_limit list_client three_a_day 1 "m" 4 fresh in
    ((r ≡ done) ↔ ((four ≡ 0) ⊎ (count list_client three_a_day key fresh + 4 ≤ 3)))
    × ((j : RateKey)
        → j ≢ key
        → count list_client three_a_day j s' ≡ count list_client three_a_day j fresh)
check_operator_limit_iff_example =
    check_operator_limit_iff list_client three_a_day 1 "m" 4 fresh (inr (omega arith))
