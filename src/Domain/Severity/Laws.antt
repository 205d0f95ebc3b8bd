-- ===== src/Domain/Severity/Laws.antt =====
-- internal/core/domain/analysis.go: normalising a severity.
use observai_api.Base.{◌≡◌, refl, ◌≤◌, true, false, ◌⊎◌, inl, inr, arith, Bool-cases, eq_iff}
use observai_api.Domain.Severity.{
  Severity, severity_info, is_valid_severity, normalize_severity, severity_rank,
}

pub normalize_severity_lem :
    (s : Severity)
    → ((is_valid_severity s ≡ true) × (normalize_severity s ≡ s))
      ⊎ ((is_valid_severity s ≡ false) × (normalize_severity s ≡ severity_info))
unfolding normalize_severity
normalize_severity_lem s = ground arith

pub is_valid-normalize : (s : Severity) → is_valid_severity (normalize_severity s) ≡ true
unfolding normalize_severity
is_valid-normalize s = elim (Bool-cases (is_valid_severity s)) [
  | inl h ↦ rw h h
  | inr h ↦ rw h refl
]

pub normalize_severity_idem :
    (s : Severity) → normalize_severity (normalize_severity s) ≡ normalize_severity s
normalize_severity_idem s = grind (arith, normalize_severity_lem, is_valid-normalize)

pub severity_rank-normalize :
    (s : Severity) → severity_rank (normalize_severity s) ≡ severity_rank s
unfolding severity_rank
severity_rank-normalize s = rw (normalize_severity_idem s)

pub severity_rank-le : (s : Severity) → severity_rank s ≤ 4
unfolding severity_rank
severity_rank-le s = ground arith

pub info_of_rank-zero :
    (s : Severity) → is_valid_severity s ≡ true → severity_rank s ≤ 0 → s ≡ severity_info
unfolding severity_rank is_valid_severity
info_of_rank-zero s v h = ground (arith, eq_iff "info" s)

pub normalize_of_valid : (s : Severity) → is_valid_severity s ≡ true → normalize_severity s ≡ s
unfolding normalize_severity
normalize_of_valid s v = rw v
