-- ===== src/Tests/Policy.antt =====
-- Runs of the theorems on the policies.
use mathlib.Core.List.{Nodup}
use observai_api.Base.{
  ◌≡◌, ◌≤◌, ◌↔◌, ◌⊎◌, arith, true, length, filter, count, All, Option, none, some,
}
use observai_api.Base.Int.{pos}
use observai_api.Base.Float.{one_float}
use observai_api.Base.Sorting.Order.{AreFirst}
use observai_api.Base.Sorting.{IsSorted}
use observai_api.Domain.Severity.{severity_info, severity_rank, is_valid_severity}
use observai_api.Policy.Text.{mentions_error}
use observai_api.Policy.Severity.{evaluate, new_severity_policy, floor_or_info, classify}
use observai_api.Policy.Severity.Laws.{Fires, classify-highest, classify_critical_iff}
use observai_api.Policy.EvidenceSeverity.{
  new_evidence_severity_policy, classify_evidence, apply_severity,
}
use observai_api.Policy.EvidenceSeverity.Laws.{apply_severity_idem, classify_evidence-bounds}
use observai_api.Policy.Evidence.{
  Specification, selects, filter_evidence, relevant_evidence_specification,
}
use observai_api.Policy.Evidence.Laws.{scores_higher, filter_evidence-cap, filter_evidence-AreFirst}
use observai_api.Policy.Recommendation.{
  evaluate as propose, new_recommendation_policy, apply_recommendations,
}
use observai_api.Policy.Recommendation.Invariant.{keys, IsGrounded}
use observai_api.Policy.Recommendation.Laws.{
  ranks_first, apply_recommendations-Nodup, apply_recommendations-IsGrounded,
}
use observai_api.Policy.Recommendation.Complete.{Present, apply_recommendations_complete}
use observai_api.Tests.Samples.{outage, failing, items, severity_input, recommendation_input}

abbrev spec : Option Specification
spec = some (relevant_evidence_specification outage)

classify-highest_example :
    (severity_rank (floor_or_info new_severity_policy.floor)
      ≤ severity_rank (classify new_severity_policy severity_input))
    × All
        (λ rule.
          severity_rank (evaluate rule severity_input)
          ≤ severity_rank (classify new_severity_policy severity_input))
        new_severity_policy.rules
    × ((classify new_severity_policy severity_input ≡ floor_or_info new_severity_policy.floor)
        ⊎ Fires
            (classify new_severity_policy severity_input)
            severity_input
            new_severity_policy.rules)
classify-highest_example = classify-highest new_severity_policy severity_input

classify_critical_iff_example :
    (severity_rank (classify new_severity_policy severity_input) ≡ 4)
    ↔ (3 ≤ count mentions_error items)
classify_critical_iff_example = classify_critical_iff severity_input

apply_severity_idem_example :
    apply_severity new_evidence_severity_policy (apply_severity new_evidence_severity_policy items)
    ≡ apply_severity new_evidence_severity_policy items
apply_severity_idem_example = apply_severity_idem items

classify_evidence-bounds_example :
    (is_valid_severity (classify_evidence new_evidence_severity_policy failing) ≡ true)
    × (severity_rank severity_info
        ≤ severity_rank (classify_evidence new_evidence_severity_policy failing))
    × (mentions_error failing ≡ true
        → 3 ≤ severity_rank (classify_evidence new_evidence_severity_policy failing))
classify_evidence-bounds_example = classify_evidence-bounds failing

filter_evidence-cap_example :
    (length (filter_evidence items spec (pos 1)) ≤ 1)
    × (length (filter (selects spec) items) ≤ 1
        → filter_evidence items spec (pos 1) ≡ filter (selects spec) items)
filter_evidence-cap_example = filter_evidence-cap items spec 1 (omega arith)

filter_evidence-AreFirst_example :
    (length (filter_evidence items none (pos 1)) ≡ 1)
    × AreFirst scores_higher (filter (selects none) items) (filter_evidence items none (pos 1))
unfolding selects one_float
filter_evidence-AreFirst_example =
    filter_evidence-AreFirst items none 1 (omega arith) (omega arith)
      ((λ h. absurd (ground arith)), ((λ h. absurd (ground arith)), tt))

apply_recommendations-Nodup_example :
    Nodup (keys (apply_recommendations new_recommendation_policy recommendation_input))
apply_recommendations-Nodup_example =
    apply_recommendations-Nodup new_recommendation_policy recommendation_input

apply_recommendations-IsGrounded_example :
    IsSorted ranks_first (apply_recommendations new_recommendation_policy recommendation_input)
    × All (IsGrounded items) (apply_recommendations new_recommendation_policy recommendation_input)
apply_recommendations-IsGrounded_example =
    apply_recommendations-IsGrounded new_recommendation_policy recommendation_input

apply_recommendations_complete_example :
    All
      (Present (keys (apply_recommendations new_recommendation_policy recommendation_input)))
      recommendation_input.result.recommended_actions
    × All
        (λ rule.
          All
            (Present (keys (apply_recommendations new_recommendation_policy recommendation_input)))
            (propose rule recommendation_input))
        new_recommendation_policy
apply_recommendations_complete_example =
    apply_recommendations_complete new_recommendation_policy recommendation_input
