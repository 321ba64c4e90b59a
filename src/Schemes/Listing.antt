-- ===== src/Schemes/Listing.antt =====
-- services/schemes.py: the schemes that an organisation lists, and the rules that profiles are checked
-- against. `name_le` is the order of the database's collation.
pub mod Offers
use adhikar_ai.Prelude.{
  ℕ, String, Bool, true, ◌&&◌, Option, none, some, List, [], ◌∷◌, ◌==◌, nat_eq, string_eq, contains,
  filter, leb,
}
use adhikar_ai.Prelude.Exec.{pure, gets, ◌>>=◌}
use adhikar_ai.Prelude.Sorting.{sort}
use adhikar_ai.Db.Rows.{is_active_status, Scheme}
use adhikar_ai.Db.Tables.{Tables}
use adhikar_ai.Eligibility.Engine.{SchemeWithRule}
use adhikar_ai.Schemes.{Db, ensure_organisation}
use adhikar_ai.Schemes.Update.{latest_rule}

-- Still valid on the day: `valid_until.is_(None) | (valid_until >= today)`.
abbrev pub is_open : ℕ → Option ℕ → Bool
is_open today none = true
is_open today (some last_day) = leb today last_day

-- The condition of the query of `active_scheme_rules`.
abbrev pub is_offered : ℕ → ℕ → Scheme → Bool
is_offered org today scheme =
    scheme.organisation_id == org
    && (scheme.is_active && (is_active_status scheme.status && is_open today scheme.valid_until))

-- The loop that looks up the rule of each scheme, for the organisation.
unfoldable pub with_rules : ℕ → List Scheme → Db (List SchemeWithRule)
with_rules org [] = pure []
with_rules org (scheme ∷ schemes) = do
  rule ← latest_rule org scheme.id true
  rest ← with_rules org schemes
  pure (record { scheme = scheme; rule = rule.criteria } ∷ rest)

module _ (name_le : String → String → Bool) where
  abbrev pub by_name : Scheme → Scheme → Bool
  by_name a b = name_le a.name b.name

  unfoldable pub active_scheme_rules : ℕ → ℕ → Db (List SchemeWithRule)
  active_scheme_rules today organisation_id = do
    org ← ensure_organisation organisation_id
    schemes ← gets λ (t : Tables). sort by_name (filter (is_offered org today) t.schemes)
    with_rules org schemes

  unfoldable pub active_scheme_rules_for_ids : ℕ → ℕ → List String → Db (List SchemeWithRule)
  active_scheme_rules_for_ids today organisation_id [] = pure []
  active_scheme_rules_for_ids today organisation_id (id ∷ ids) = do
    org ← ensure_organisation organisation_id
    schemes ← gets λ (t : Tables).
        sort by_name
          (filter (λ (s : Scheme). is_offered org today s && contains s.id (id ∷ ids)) t.schemes)
    with_rules org schemes
