-- ===== src/Policy/EvidenceSeverity.antt =====
-- internal/core/policy/evidence_severity.go: the severity of one evidence item.
use observai_api.Base.{List, [], ◌∷◌, if◌then◌else◌}
use observai_api.Base.Float.{Float, le_float, one_float}
use observai_api.Domain.Severity.{
  Severity, severity_info, severity_medium, severity_high, normalize_severity,
}
use observai_api.Domain.Analysis.{Evidence}
use observai_api.Policy.Text.{mentions_error}
use observai_api.Policy.Severity.{raise, floor_or_info}
pub mod Laws

-- The interface EvidenceSeverityRule, with a constructor for each of its implementations.
pub data EvidenceSeverityRule : Type 0 where
  explicit_severity error_evidence : EvidenceSeverityRule
  score_evidence : (threshold : Float) (severity : Severity) → EvidenceSeverityRule

-- Evaluate, of each rule
unfoldable pub evaluate_evidence : EvidenceSeverityRule → Evidence → Severity
evaluate_evidence explicit_severity e = normalize_severity e.severity
evaluate_evidence error_evidence e = if mentions_error e then severity_high else severity_info
evaluate_evidence (score_evidence threshold severity) e =
    if le_float threshold e.score then normalize_severity severity else severity_info

pub record EvidenceSeverityPolicy : Type 0 where
  pub rules : List EvidenceSeverityRule
  pub floor : Severity

unfoldable pub new_evidence_severity_policy : EvidenceSeverityPolicy
new_evidence_severity_policy = record {
  floor = severity_info;
  rules = explicit_severity ∷ error_evidence ∷ score_evidence one_float severity_medium ∷ [];
}

unfoldable pub classify_evidence_from : Severity → List EvidenceSeverityRule → Evidence → Severity
classify_evidence_from severity [] e = severity
classify_evidence_from severity (rule ∷ rules) e =
    classify_evidence_from (raise severity (evaluate_evidence rule e)) rules e

-- (EvidenceSeverityPolicy).Classify
unfoldable pub classify_evidence : EvidenceSeverityPolicy → Evidence → Severity
unfolding classify_evidence_from
classify_evidence policy e = classify_evidence_from (floor_or_info policy.floor) policy.rules e

-- (EvidenceSeverityPolicy).Apply, which writes to each item in place
unfoldable pub apply_severity : EvidenceSeverityPolicy → List Evidence → List Evidence
apply_severity policy [] = []
apply_severity policy (e ∷ rest) =
    record e { severity = classify_evidence policy e } ∷ apply_severity policy rest
