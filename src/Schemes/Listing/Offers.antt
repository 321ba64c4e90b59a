-- ===== src/Schemes/Listing/Offers.antt =====
-- What citizens are offered by `active_scheme_rules` of services/schemes.py, also around the expiry run.
use adhikar_ai.Prelude.{
  ◌≤◌, Member-filter_of, ℕ, String, Bool, true, ◌≡◌, refl, sym, ap, inl, inr, some, List, [], ◌∷◌,
  Member, here, next, All, All-of_Member, All-Member, Member-filter, filter, Option-cases, arith,
  nat_eq, string_eq,
}
use adhikar_ai.Prelude.Result.{ok, err, Result-cases}
use adhikar_ai.Prelude.Exec.{run, begin, Session}
use adhikar_ai.Prelude.Sorting.{sort, Member-sort}
use adhikar_ai.Db.Rows.{Lifecycle, is_active_status, EligibilityRule, Scheme}
use adhikar_ai.Db.Greatest.{greatest-bounds, greatest-Member}
use adhikar_ai.Db.Tables.{Tables, update_rows, greatest}
use adhikar_ai.Eligibility.Engine.{SchemeWithRule}
use adhikar_ai.Schemes.Update.{latest_of, is_rule_of}
use adhikar_ai.Schemes.Expiry.{expire_schemes, has_expired, expired, ExpiryRunResult}
use adhikar_ai.Schemes.Listing.{is_offered, by_name, with_rules, active_scheme_rules}

-- The entry pairs the scheme with the rule in force for it.
abbrev pub InForce : ℕ → Tables → SchemeWithRule → Type 0
InForce org t entry =
    (rule : EligibilityRule) × (latest_of org entry.scheme.id true t ≡ some rule)
    × (entry.rule ≡ rule.criteria)

-- No active rule of the organisation for the scheme is newer.
pub record IsRuleInForce (org : ℕ) (t : Tables) (scheme_id : String) (rule : EligibilityRule)
    : Type 0 where
  pub stored : Member rule t.eligibility_rules
  pub own : rule.organisation_id ≡ org
  pub for_scheme : rule.scheme_id ≡ scheme_id
  pub active : rule.is_active ≡ true
  pub newest :
      (other : EligibilityRule)
      → Member other t.eligibility_rules
      → other.organisation_id ≡ org
      → other.scheme_id ≡ scheme_id
      → other.is_active ≡ true
      → other.version ≤ rule.version

-- What an organisation may offer on a day.
pub record IsOffer (today org : ℕ) (t : Tables) (entry : SchemeWithRule) : Type 0 where
  pub stored : Member entry.scheme t.schemes
  pub own : entry.scheme.organisation_id ≡ org
  pub flagged : entry.scheme.is_active ≡ true
  pub active : entry.scheme.status ≡ Lifecycle.active
  pub not_past : (last_day : ℕ) → entry.scheme.valid_until ≡ some last_day → today ≤ last_day
  pub rule : EligibilityRule
  pub in_force : IsRuleInForce org t entry.scheme.id rule
  pub criteria : entry.rule ≡ rule.criteria

offered-expired :
    (org today : ℕ) (schemes : List Scheme)
    → filter (is_offered org today) (update_rows (has_expired today) expired schemes)
      ≡ filter (is_offered org today) schemes
offered-expired org today [] = refl
offered-expired org today (s ∷ schemes) = ground (arith, offered-expired org today schemes)

gone :
    (today : ℕ) (schemes : List Scheme)
    → filter (has_expired today) (update_rows (has_expired today) expired schemes) ≡ []
gone today [] = refl
gone today (s ∷ schemes) = ground (arith, gone today schemes)

-- A second expiry run on the same day succeeds and expires nothing.
pub expire_schemes_twice :
    (today : ℕ) (t : Tables)
    → (reply : ExpiryRunResult) × ((run (expire_schemes today) (run (expire_schemes today) t).1).0
        ≡ ok reply)
      × (reply.expired_count ≡ 0)
unfolding expire_schemes
expire_schemes_twice today t =
    let again = (run (expire_schemes today) (run (expire_schemes today) t).1).0 in
    elim again
        as (λ r.
          r ≡ again → (reply : ExpiryRunResult) × (again ≡ ok reply) × (reply.expired_count ≡ 0)) [
            | ok reply ↦ λ h. (reply, sym h, ground (arith, gone today t.schemes))
            | err e ↦ λ h. absurd (ground arith)
          ]
      refl

with_rules-reads :
    (org : ℕ) (schemes : List Scheme) (s : Session Tables) → (with_rules org schemes s).1 ≡ s
unfolding with_rules
with_rules-reads org [] s = refl
with_rules-reads org (scheme ∷ schemes) s = ground (arith, with_rules-reads org schemes s)

with_rules-same :
    (org : ℕ) (schemes : List Scheme) (s s' : Session Tables)
    → s.view.eligibility_rules ≡ s'.view.eligibility_rules
    → (with_rules org schemes s).0 ≡ (with_rules org schemes s').0
unfolding with_rules
with_rules-same org [] s s' h = refl
with_rules-same org (scheme ∷ schemes) s s' h =
    let same : latest_of org scheme.id true s.view ≡ latest_of org scheme.id true s'.view =
      ap
        (λ rules.
          greatest (λ (r : EligibilityRule). r.version)
            (filter (is_rule_of org scheme.id true) rules))
        h in
    ground (arith, same, with_rules-same org schemes s s' h)

with_rules-InForce :
    (org : ℕ) (schemes : List Scheme) (s : Session Tables) (entries : List SchemeWithRule)
    → (with_rules org schemes s).0 ≡ ok entries
    → All
        (λ (entry : SchemeWithRule). Member entry.scheme schemes × InForce org s.view entry)
        entries
unfolding with_rules
with_rules-InForce org [] s entries h = let e : entries ≡ [] = ground arith in rw e tt
with_rules-InForce org (scheme ∷ schemes) s entries h =
    elim (Option-cases (latest_of org scheme.id true s.view)) [
      | inl e ↦ absurd (ground arith)
      | inr (rule, e) ↦ elim (Result-cases (with_rules org schemes s).0) [
        | inr (_, f) ↦ absurd (ground arith)
        | inl (rest, f) ↦
            let split : entries ≡ record { scheme = scheme; rule = rule.criteria } ∷ rest =
              ground arith in
            let later = with_rules-InForce org schemes s rest f in
            rw split (
              (here refl, (rule, e, refl)),
              All-of_Member _ rest
                  λ entry m. let (k, force) = All-Member _ rest later m in (next k, force),
            )
      ]
    ]

latest_of-IsRuleInForce :
    (org : ℕ) (t : Tables) (scheme_id : String) (rule : EligibilityRule)
    → latest_of org scheme_id true t ≡ some rule
    → IsRuleInForce org t scheme_id rule
latest_of-IsRuleInForce org t scheme_id rule h =
    let version = λ (r : EligibilityRule). r.version in
    let rules = filter (is_rule_of org scheme_id true) t.eligibility_rules in
    let (m, e) =
      Member-filter (is_rule_of org scheme_id true) rule t.eligibility_rules
        (greatest-Member version rule rules h) in
    record {
      stored = m;
      own = ground (arith, e, nat_eq.test_iff rule.organisation_id org);
      for_scheme = ground (arith, e, string_eq.test_iff rule.scheme_id scheme_id);
      active = ground (arith, e);
      newest = λ other k same_org same_scheme active.
          let passes : is_rule_of org scheme_id true other ≡ true = ground (
            arith,
            same_org,
            same_scheme,
            active,
            nat_eq.test_iff other.organisation_id org,
            string_eq.test_iff other.scheme_id scheme_id,
          ) in
          All-Member _ rules (greatest-bounds version rule rules h)
            (Member-filter_of (is_rule_of org scheme_id true) other t.eligibility_rules k passes);
    }

active_of_status : (status : Lifecycle) → is_active_status status ≡ true → status ≡ Lifecycle.active
active_of_status Lifecycle.active h = refl
active_of_status Lifecycle.draft h = absurd (ground (arith, h))
active_of_status Lifecycle.expired h = absurd (ground (arith, h))
active_of_status Lifecycle.archived h = absurd (ground (arith, h))
active_of_status Lifecycle.upcoming h = absurd (ground (arith, h))

is_offered-IsOffer :
    (today org : ℕ) (t : Tables) (entry : SchemeWithRule)
    → Member entry.scheme t.schemes
    → is_offered org today entry.scheme ≡ true
    → InForce org t entry
    → IsOffer today org t entry
is_offered-IsOffer today org t entry m o (rule, found, same) = record {
  stored = m;
  own = ground (arith, o, nat_eq.test_iff entry.scheme.organisation_id org);
  flagged = ground (arith, o);
  active = active_of_status entry.scheme.status (ground (arith, o));
  not_past = λ last_day e. ground (arith, o, e);
  rule = rule;
  in_force = latest_of-IsRuleInForce org t entry.scheme.id rule found;
  criteria = same;
}

module _ (name_le : String → String → Bool) where
  -- The expiry run of a day does not change what an organisation offers on that day.
  pub expiry_keeps_offers :
      (today org : ℕ) (t : Tables)
      → (run (active_scheme_rules name_le today org) (run (expire_schemes today) t).1).0
        ≡ (run (active_scheme_rules name_le today org) t).0
  unfolding active_scheme_rules expire_schemes
  expiry_keeps_offers today org t =
      let after = (run (expire_schemes today) t).1 in
      let offers = sort (by_name name_le) (filter (is_offered org today) t.schemes) in
      ground (
        arith,
        offered-expired org today t.schemes,
        with_rules-same org offers (begin after) (begin t) refl,
      )

  -- Every offer is a stored scheme of the organisation that is flagged active, has the status active and is
  -- not past a last day, with the criteria of the rule in force for it: an active rule of the organisation
  -- for the scheme, such that no other such rule has a greater version.
  pub active_scheme_rules_sound :
      (today org : ℕ) (t : Tables) (entries : List SchemeWithRule)
      → (run (active_scheme_rules name_le today org) t).0 ≡ ok entries
      → All (IsOffer today org t) entries
  unfolding active_scheme_rules
  active_scheme_rules_sound today org t entries h =
      let offered = filter (is_offered org today) t.schemes in
      let listed : (with_rules org (sort (by_name name_le) offered) (begin t)).0 ≡ ok entries =
        ground arith in
      All-of_Member _ entries λ entry m.
        let (k, force) =
          All-Member _ entries (with_rules-InForce org _ (begin t) entries listed) m in
        let (l, o) =
          Member-filter (is_offered org today) entry.scheme t.schemes
            (Member-sort (by_name name_le) entry.scheme offered k) in
        is_offered-IsOffer today org t entry l o force
