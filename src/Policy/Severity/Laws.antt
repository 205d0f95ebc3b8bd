-- ===== src/Policy/Severity/Laws.antt =====
-- internal/core/policy/severity.go: what the severity policy guarantees.
use Prim.Native.Nat.{max}
use observai_api.Base.{
  ℕ, String, ◌≡◌, refl, ◌≤◌, ◌<◌, ◌↔◌, ◌⊎◌, inl, arith, List, [], ◌∷◌, count, All,
}
use observai_api.Domain.Severity.{
  Severity, severity_info, severity_medium, severity_high, severity_critical, severity_rank,
}
use observai_api.Domain.Severity.Laws.{severity_rank-normalize}
use observai_api.Domain.Analysis.{Evidence}
use observai_api.Base.Float.{Float, one_float}
use observai_api.Policy.Text.{mentions_error}
use observai_api.Policy.Severity.Raise.{raise-le, raise_either, raise-max}
use observai_api.Policy.Severity.{
  SeverityInput, SeverityRule, multi_service, evidence_volume, SeverityPolicy, evaluate,
  new_severity_policy, raise, classify_from, floor_or_info, classify, reconcile,
  severity_for_error_count, high_score_evaluate,
}

-- The candidates of the rules, in their order.
abbrev pub Fires : Severity → SeverityInput → List SeverityRule → Type 0
Fires s input [] = ⊥
Fires s input (rule ∷ rules) = (s ≡ evaluate rule input) ⊎ Fires s input rules

classify_from-le :
    (s : Severity) (rules : List SeverityRule) (input : SeverityInput)
    → severity_rank s ≤ severity_rank (classify_from s rules input)
unfolding classify_from
classify_from-le s [] input = omega arith
classify_from-le s (rule ∷ rules) input = omega (
  arith,
  raise-le s (evaluate rule input),
  classify_from-le (raise s (evaluate rule input)) rules input,
)

classify_from-dominates :
    (s : Severity) (rules : List SeverityRule) (input : SeverityInput)
    → All
        (λ rule. severity_rank (evaluate rule input) ≤ severity_rank (classify_from s rules input))
        rules
unfolding classify_from
classify_from-dominates s [] input = tt
classify_from-dominates s (rule ∷ rules) input = (
  omega (
    arith,
    raise-le s (evaluate rule input),
    classify_from-le (raise s (evaluate rule input)) rules input,
  ),
  classify_from-dominates (raise s (evaluate rule input)) rules input,
)

classify_from-attained :
    (s : Severity) (rules : List SeverityRule) (input : SeverityInput)
    → (classify_from s rules input ≡ s) ⊎ Fires (classify_from s rules input) input rules
unfolding classify_from
classify_from-attained s [] input = inl refl
classify_from-attained s (rule ∷ rules) input = ground (
  arith,
  classify_from-attained (raise s (evaluate rule input)) rules input,
  raise_either s (evaluate rule input),
)

-- The severity of an analysis ranks at least as high as the floor and as the candidate of every
-- rule, and it is the floor (info, if the policy has none) or the candidate of a rule.
pub classify-highest :
    (policy : SeverityPolicy) (input : SeverityInput)
    → let s = classify policy input in
      (severity_rank (floor_or_info policy.floor) ≤ severity_rank s)
      × All (λ rule. severity_rank (evaluate rule input) ≤ severity_rank s) policy.rules
      × ((s ≡ floor_or_info policy.floor) ⊎ Fires s input policy.rules)
unfolding classify
classify-highest policy input =
    let floor = floor_or_info policy.floor in
    (
      classify_from-le floor policy.rules input,
      classify_from-dominates floor policy.rules input,
      classify_from-attained floor policy.rules input,
    )

-- The reported severity ranks as the higher of the suggested and the derived one, so neither the
-- model nor the rules can lower the other; a suggestion outside the enum counts as info.
pub reconcile-max :
    (policy : SeverityPolicy) (suggested : Severity) (input : SeverityInput)
    → severity_rank (reconcile policy suggested input)
      ≡ max (severity_rank suggested) (severity_rank (classify policy input))
unfolding reconcile
reconcile-max policy suggested input = ground (arith, severity_rank-normalize suggested)

severity_rank_info : severity_rank severity_info ≡ 0
unfolding severity_rank
severity_rank_info = refl

severity_rank_medium : severity_rank severity_medium ≡ 2
unfolding severity_rank
severity_rank_medium = refl

severity_rank_high : severity_rank severity_high ≡ 3
unfolding severity_rank
severity_rank_high = refl

severity_rank_critical : severity_rank severity_critical ≡ 4
unfolding severity_rank
severity_rank_critical = refl

-- Every rule but the first of the default policy proposes `severity` or info.
high_score-le :
    (t : Float) (u : String) (s : Severity) (es : List Evidence)
    → severity_rank (high_score_evaluate t u s es) ≤ severity_rank s
unfolding high_score_evaluate
high_score-le t u s [] = omega (arith, severity_rank_info)
high_score-le t u s (e ∷ es) = ground (arith, high_score-le t u s es, severity_rank-normalize s)

multi_service-le :
    (n : ℕ) (s : Severity) (input : SeverityInput)
    → severity_rank (evaluate (multi_service n s) input) ≤ severity_rank s
unfolding evaluate
multi_service-le n s input = ground (arith, severity_rank-normalize s, severity_rank_info)

evidence_volume-le :
    (n : ℕ) (s : Severity) (input : SeverityInput)
    → severity_rank (evaluate (evidence_volume n s) input) ≤ severity_rank s
unfolding evaluate
evidence_volume-le n s input = ground (arith, severity_rank-normalize s, severity_rank_info)

severity_for_error_count-rank :
    (n : ℕ)
    → ((severity_rank (severity_for_error_count n) ≡ 4) × (3 ≤ n))
      ⊎ ((severity_rank (severity_for_error_count n) ≤ 3) × (n < 3))
unfolding severity_for_error_count
severity_for_error_count-rank n =
    ground (arith, severity_rank_info, severity_rank_high, severity_rank_critical)

-- The default policy calls an analysis critical exactly when three evidence items mention an error.
pub classify_critical_iff :
    (input : SeverityInput)
    → (severity_rank (classify new_severity_policy input) ≡ 4)
      ↔ (3 ≤ count mentions_error input.evidence)
unfolding classify classify_from new_severity_policy evaluate
classify_critical_iff input = omega (
  arith,
  raise-max,
  severity_rank_info,
  severity_rank_medium,
  severity_rank_high,
  severity_for_error_count-rank (count mentions_error input.evidence),
  high_score-le one_float "errors" severity_high input.evidence,
  high_score-le one_float "ratio" severity_medium input.evidence,
  multi_service-le 2 severity_medium input,
  evidence_volume-le 5 severity_medium input,
)
