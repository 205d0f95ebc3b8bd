-- ===== src/Policy/Severity.antt =====
-- internal/core/policy/severity.go: the severity of an analysis.
use observai_api.Base.{ℕ, String, not, ◌&&◌, List, [], ◌∷◌, length, count, ltb, leb, if◌then◌else◌}
use observai_api.Base.Float.{Float, le_float, one_float}
use observai_api.Base.Text.{equal_fold, is_empty}
use observai_api.Domain.Severity.{
  Severity, severity_info, severity_medium, severity_high, severity_critical, normalize_severity,
  severity_rank,
}
use observai_api.Domain.Analysis.{AnalysisRequest, Evidence}
use observai_api.Policy.Text.{mentions_error, distinct_services}
pub mod Laws
pub mod Raise

pub record SeverityInput : Type 0 where
  pub request : AnalysisRequest
  pub evidence : List Evidence

-- The interface SeverityRule, with a constructor for each of its implementations.
pub data SeverityRule : Type 0 where
  error_signal : SeverityRule
  high_score : (threshold : Float) (unit : String) (severity : Severity) → SeverityRule
  multi_service : (threshold : ℕ) (severity : Severity) → SeverityRule
  evidence_volume : (threshold : ℕ) (severity : Severity) → SeverityRule

-- severityForErrorCount over errorSignalSeverityThresholds
unfoldable pub severity_for_error_count : ℕ → Severity
severity_for_error_count n =
    if leb 3 n then severity_critical else if leb 1 n then severity_high else severity_info

unfoldable pub high_score_evaluate : Float → String → Severity → List Evidence → Severity
high_score_evaluate threshold unit severity [] = severity_info
high_score_evaluate threshold unit severity (e ∷ rest) =
    let later = high_score_evaluate threshold unit severity rest in
    if not (is_empty unit) && not (equal_fold e.unit unit)
    then later
    else if le_float threshold e.score
    then normalize_severity severity
    else later

-- Evaluate, of each rule
unfoldable pub evaluate : SeverityRule → SeverityInput → Severity
unfolding high_score_evaluate severity_for_error_count
evaluate error_signal input = severity_for_error_count (count mentions_error input.evidence)
evaluate (high_score threshold unit severity) input =
    high_score_evaluate threshold unit severity input.evidence
evaluate (multi_service threshold severity) input =
    if leb threshold (length (distinct_services input.request input.evidence))
    then normalize_severity severity
    else severity_info
evaluate (evidence_volume threshold severity) input =
    if leb threshold (length input.evidence) then normalize_severity severity else severity_info

pub record SeverityPolicy : Type 0 where
  pub rules : List SeverityRule
  pub floor : Severity

unfoldable pub new_severity_policy : SeverityPolicy
new_severity_policy = record {
  floor = severity_info;
  rules =
      error_signal
      ∷ high_score one_float "errors" severity_high
      ∷ high_score one_float "ratio" severity_medium
      ∷ multi_service 2 severity_medium
      ∷ evidence_volume 5 severity_medium
      ∷ [];
}

-- `if rank(candidate) > rank(severity) { severity = candidate }`
unfoldable pub raise : Severity → Severity → Severity
raise severity candidate =
    if ltb (severity_rank severity) (severity_rank candidate) then candidate else severity

unfoldable pub classify_from : Severity → List SeverityRule → SeverityInput → Severity
classify_from severity [] input = severity
classify_from severity (rule ∷ rules) input =
    classify_from (raise severity (evaluate rule input)) rules input

abbrev pub floor_or_info : Severity → Severity
floor_or_info floor = if is_empty floor then severity_info else floor

-- (SeverityPolicy).Classify
unfoldable pub classify : SeverityPolicy → SeverityInput → Severity
unfolding classify_from
classify policy input = classify_from (floor_or_info policy.floor) policy.rules input

-- (SeverityPolicy).Reconcile
unfoldable pub reconcile : SeverityPolicy → Severity → SeverityInput → Severity
reconcile policy suggested input =
    let derived = classify policy input in
    if ltb (severity_rank derived) (severity_rank suggested)
    then normalize_severity suggested
    else derived
