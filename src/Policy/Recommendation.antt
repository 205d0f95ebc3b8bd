-- ===== src/Policy/Recommendation.antt =====
-- internal/core/policy/recommendation.go: the recommendations that an analysis ends with.
use Prim.Native.String.{◌++◌ as append}
use observai_api.Base.{
  ℕ, zero, suc, String, Bool, not, ◌||◌, List, [], ◌∷◌, any, length, ltb, if◌then◌else◌,
}
use observai_api.Base.Int.{ℤ, pos, negsuc, ltb_ℤ}
use observai_api.Base.Sorting.{sort_stable}
use observai_api.Base.Text.{trim_space, to_lower, is_empty, str_eq}
use observai_api.Domain.Analysis.{
  AnalysisRequest, AnalysisResult, Evidence, Recommendation, SignalType,
}
use observai_api.Policy.Text.{mentions_error, distinct_services}
pub mod Invariant
pub mod Laws
pub mod Complete

pub record RecommendationInput : Type 0 where
  pub request : AnalysisRequest
  pub evidence : List Evidence
  pub result : AnalysisResult

-- The interface RecommendationRule, with a constructor for each of its implementations.
pub data RecommendationRule : Type 0 where
  no_evidence error_evidence missing_signal : RecommendationRule
  multi_service : (threshold : ℤ) → RecommendationRule

-- recommendationKey
unfoldable pub recommendation_key : String → String
unfolding to_lower trim_space
recommendation_key action = to_lower (trim_space action)

abbrev is_blank : String → Bool
is_blank s = is_empty (trim_space s)

-- The loop of fallbackEvidenceIDs; `room` is 5 less the identifiers taken so far.
unfoldable pub first_ids : ℕ → List Evidence → List String
unfolding trim_space
first_ids zero es = []
first_ids (suc room) [] = []
first_ids (suc room) (e ∷ es) =
    let skipped = first_ids (suc room) es in
    let taken = e.id ∷ first_ids room es in if is_blank e.id then skipped else taken

-- fallbackEvidenceIDs
unfoldable pub fallback_evidence_ids : List String → List Evidence → List String
unfolding first_ids
fallback_evidence_ids [] evidence = first_ids 5 evidence
fallback_evidence_ids (id ∷ ids) evidence = id ∷ ids

-- errorEvidenceIDs
unfoldable pub error_evidence_ids : List Evidence → List String
error_evidence_ids [] = []
error_evidence_ids (e ∷ es) =
    let rest = error_evidence_ids es in
    if not (mentions_error e) || is_blank e.id then rest else e.id ∷ rest

abbrev recommendation : String → String → ℕ → List String → Recommendation
recommendation action rationale priority ids = record {
  action = action;
  rationale = rationale;
  priority = pos priority;
  evidence_ids = ids;
}

abbrev threshold_or_two : ℤ → ℕ
threshold_or_two (pos zero) = 2
threshold_or_two (pos (suc n)) = suc n
threshold_or_two (negsuc n) = 2

unfoldable pub missing_signals : List SignalType → List Evidence → List Recommendation
missing_signals [] evidence = []
missing_signals (signal ∷ signals) evidence =
    let rest = missing_signals signals evidence in
    if any (λ e. str_eq e.signal signal) evidence
    then rest
    else recommendation
        (append "Collect "
          (append signal " evidence for the affected services in the requested window"))
        (append "the requested "
          (append signal " signal returned no evidence, which leaves a blind spot in the analysis"))
        4 []
      ∷ rest

unfoldable pub evaluate_no_evidence : List Evidence → List Recommendation
evaluate_no_evidence [] =
    recommendation "Connect a read-only observability adapter and rerun the analysis"
      "the analysis collected no evidence, so the diagnosis cannot be grounded in real telemetry" 1
      []
    ∷ []
evaluate_no_evidence (_ ∷ _) = []

unfoldable pub evaluate_missing_signal : List SignalType → List Evidence → List Recommendation
unfolding missing_signals
evaluate_missing_signal signals [] = []
evaluate_missing_signal signals (e ∷ es) = missing_signals signals (e ∷ es)

-- Evaluate, of each rule
unfoldable pub evaluate : RecommendationRule → RecommendationInput → List Recommendation
unfolding evaluate_no_evidence evaluate_missing_signal
evaluate no_evidence input = evaluate_no_evidence input.evidence
evaluate error_evidence input =
    if any mentions_error input.evidence
    then recommendation
        "Inspect error logs and failing spans for the affected services in the requested window"
        "evidence contains error signals that likely point at the failing dependency" 2
        (error_evidence_ids input.evidence)
      ∷ []
    else []
evaluate (multi_service threshold) input =
    if ltb (length (distinct_services input.request input.evidence)) (threshold_or_two threshold)
    then []
    else recommendation
        "Map upstream/downstream dependencies and correlate spans across the affected services"
        "multiple services are involved, so the root cause is more likely in a shared dependency or call path"
        3 (fallback_evidence_ids [] input.evidence)
      ∷ []
evaluate missing_signal input = evaluate_missing_signal input.request.signals input.evidence

unfoldable pub new_recommendation_policy : List RecommendationRule
new_recommendation_policy =
    no_evidence ∷ error_evidence ∷ multi_service (pos 2) ∷ missing_signal ∷ []

-- The body of both loops of Apply: `seen` holds the keys of what is merged, newest first.
pub record Merging : Type 0 where
  pub seen : List String
  pub merged : List Recommendation

abbrev pub with_ids : List Evidence → Recommendation → Recommendation
with_ids evidence r = record r { evidence_ids = fallback_evidence_ids r.evidence_ids evidence }

unfoldable pub merge_one : List Evidence → Merging → Recommendation → Merging
merge_one evidence m r =
    let key = recommendation_key r.action in
    if is_empty key || any (str_eq key) m.seen
    then m
    else record { seen = key ∷ m.seen; merged = with_ids evidence r ∷ m.merged }

unfoldable pub merge_all : List Evidence → Merging → List Recommendation → Merging
merge_all evidence m [] = m
merge_all evidence m (r ∷ rs) = merge_all evidence (merge_one evidence m r) rs

unfoldable pub merge_rules : RecommendationInput → Merging → List RecommendationRule → Merging
merge_rules input m [] = m
merge_rules input m (rule ∷ rules) =
    merge_rules input (merge_all input.evidence m (evaluate rule input)) rules

abbrev pub before : Recommendation → Recommendation → Bool
before a b = ltb_ℤ a.priority b.priority

unfoldable pub merged_recommendations : List RecommendationRule → RecommendationInput → Merging
unfolding merge_all merge_rules
merged_recommendations rules input =
    merge_rules input
      (merge_all input.evidence (record { seen = []; merged = [] })
        input.result.recommended_actions)
      rules

abbrev backwards : List Recommendation → List Recommendation → List Recommendation
backwards [] done = done
backwards (r ∷ rs) done = backwards rs (r ∷ done)

-- (RecommendationPolicy).Apply; the accumulator is newest first, so it is turned round.
unfoldable pub apply_recommendations :
    List RecommendationRule → RecommendationInput → List Recommendation
apply_recommendations rules input =
    sort_stable before (backwards (merged_recommendations rules input).merged [])
