-- ===== src/Eligibility/Engine.antt =====
-- services/eligibility/engine.py and experta_engine.py: one evaluation for each scheme, in order. The
-- class of experta that the engine extends is never run: `run_evaluation` delegates.
use adhikar_ai.Prelude.{List, map}
use adhikar_ai.Schema.{EligibilityCriteria, UserProfileInput}
use adhikar_ai.Db.Rows.{Scheme}
use adhikar_ai.Eligibility.Criteria
use adhikar_ai.Eligibility.Criteria.{SchemeEvaluation}

pub record SchemeWithRule : Type 0 where
  pub scheme : Scheme
  pub rule : EligibilityCriteria

-- `EligibilityEngine.evaluate_scheme`
unfoldable pub evaluate_scheme : UserProfileInput → SchemeWithRule → SchemeEvaluation
evaluate_scheme profile item = Criteria.evaluate_scheme item.scheme.id item.rule profile

-- `EligibilityEngine.evaluate`
unfoldable pub evaluate : UserProfileInput → List SchemeWithRule → List SchemeEvaluation
evaluate profile = map (evaluate_scheme profile)

-- `SchemeEligibilityEngine.run_evaluation`
unfoldable pub run_evaluation : UserProfileInput → List SchemeWithRule → List SchemeEvaluation
unfolding evaluate
run_evaluation profile schemes = evaluate profile schemes
