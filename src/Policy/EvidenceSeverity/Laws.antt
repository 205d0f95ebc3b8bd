-- ===== src/Policy/EvidenceSeverity/Laws.antt =====
-- internal/core/policy/evidence_severity.go: what the evidence severity policy guarantees.
use observai_api.Base.{
  ◌≡◌, refl, ap, ◌∙◌, ◌≤◌, inl, inr, true, arith, List, [], ◌∷◌, Bool-cases, if◌then◌else◌,
}
use observai_api.Base.Float.{one_float, le_float}
use observai_api.Domain.Severity.{
  Severity, severity_info, severity_medium, severity_high, is_valid_severity, normalize_severity,
  severity_rank,
}
use observai_api.Domain.Severity.Laws.{
  is_valid-normalize, severity_rank-normalize, normalize_of_valid,
}
use observai_api.Domain.Analysis.{Evidence}
use observai_api.Policy.Text.{mentions_error}
use observai_api.Policy.Severity.{raise}
use observai_api.Policy.Severity.Raise.{raise-max, raise_absorb, raise_valid, raise_info}
use observai_api.Policy.EvidenceSeverity.{
  evaluate_evidence, new_evidence_severity_policy, classify_evidence, apply_severity,
}

-- What the error rule and the score rule of the default policy propose.
error_candidate : Evidence → Severity
error_candidate e = if mentions_error e then severity_high else severity_info

score_candidate : Evidence → Severity
score_candidate e =
    if le_float one_float e.score then normalize_severity severity_medium else severity_info

promote : Severity → Evidence → Severity
promote s e = raise (raise s (error_candidate e)) (score_candidate e)

classify_evidence_lem :
    (e : Evidence)
    → classify_evidence new_evidence_severity_policy e
      ≡ promote (raise severity_info (normalize_severity e.severity)) e
unfolding classify_evidence new_evidence_severity_policy evaluate_evidence promote error_candidate
    score_candidate
classify_evidence_lem e = refl

info_valid : is_valid_severity severity_info ≡ true
unfolding is_valid_severity
info_valid = refl

high_valid : is_valid_severity severity_high ≡ true
unfolding is_valid_severity
high_valid = refl

error_candidate_valid : (e : Evidence) → is_valid_severity (error_candidate e) ≡ true
unfolding error_candidate
error_candidate_valid e = elim (Bool-cases (mentions_error e)) [
  | inl h ↦ rw h high_valid
  | inr h ↦ rw h info_valid
]

score_candidate_valid : (e : Evidence) → is_valid_severity (score_candidate e) ≡ true
unfolding score_candidate
score_candidate_valid e = elim (Bool-cases (le_float one_float e.score)) [
  | inl h ↦ rw h (is_valid-normalize severity_medium)
  | inr h ↦ rw h info_valid
]

promote_valid :
    (s : Severity) (e : Evidence)
    → is_valid_severity s ≡ true
    → is_valid_severity (promote s e) ≡ true
unfolding promote
promote_valid s e v =
    raise_valid _ _ (raise_valid s _ v (error_candidate_valid e)) (score_candidate_valid e)

promote_idem : (s : Severity) (e : Evidence) → promote (promote s e) e ≡ promote s e
unfolding promote
promote_idem s e =
    let p = raise (raise s (error_candidate e)) (score_candidate e) in
    ap (λ t. raise t (score_candidate e))
      (raise_absorb p (error_candidate e) (omega (arith, raise-max)))
    ∙ raise_absorb p (score_candidate e) (omega (arith, raise-max))

-- What an item that already has severity `s` is classified as, if `s` is in the enum.
classify_evidence_of_valid :
    (e : Evidence)
    → is_valid_severity e.severity ≡ true
    → classify_evidence new_evidence_severity_policy e ≡ promote e.severity e
classify_evidence_of_valid e v =
    classify_evidence_lem e
    ∙ ap (λ s. promote s e)
        (ap (raise severity_info) (normalize_of_valid e.severity v) ∙ raise_info e.severity v)

promote_other_severity :
    (s t : Severity) (e : Evidence) → promote s (record e { severity = t }) ≡ promote s e
unfolding promote error_candidate score_candidate mentions_error
promote_other_severity s t e = refl

classify_evidence_idem :
    (e : Evidence)
    → let s = classify_evidence new_evidence_severity_policy e in
      classify_evidence new_evidence_severity_policy (record e { severity = s }) ≡ s
classify_evidence_idem e =
    let t = raise severity_info (normalize_severity e.severity) in
    let s = classify_evidence new_evidence_severity_policy e in
    let valid = raise_valid severity_info _ info_valid (is_valid-normalize e.severity) in
    classify_evidence_of_valid (record e { severity = s })
      (rw (classify_evidence_lem e) (promote_valid t e valid))
    ∙ promote_other_severity s s e
    ∙ rw (classify_evidence_lem e) (promote_idem t e)

-- Classifying classified evidence again changes nothing, whatever severity it came with.
pub apply_severity_idem :
    (es : List Evidence)
    → apply_severity new_evidence_severity_policy (apply_severity new_evidence_severity_policy es)
      ≡ apply_severity new_evidence_severity_policy es
unfolding apply_severity
apply_severity_idem [] = refl
apply_severity_idem (e ∷ es) =
    λ i. record e { severity = classify_evidence_idem e i } ∷ apply_severity_idem es i

rank_high : 3 ≤ severity_rank severity_high
unfolding severity_rank
rank_high = omega arith

error_candidate-rank :
    (e : Evidence) → mentions_error e ≡ true → 3 ≤ severity_rank (error_candidate e)
unfolding error_candidate
error_candidate-rank e h = rw h rank_high

-- A classified item carries a severity of the enum that ranks no lower than what it came with,
-- and at least as high as `high` if the item mentions an error.
pub classify_evidence-bounds :
    (e : Evidence)
    → let s = classify_evidence new_evidence_severity_policy e in
      (is_valid_severity s ≡ true)
      × (severity_rank e.severity ≤ severity_rank s)
      × (mentions_error e ≡ true → 3 ≤ severity_rank s)
classify_evidence-bounds e =
    let t = raise severity_info (normalize_severity e.severity) in
    rw (classify_evidence_lem e) (
      promote_valid t e (raise_valid severity_info _ info_valid (is_valid-normalize e.severity)),
      unfold promote in omega (arith, raise-max, severity_rank-normalize e.severity),
      λ h. unfold promote in omega (arith, raise-max, error_candidate-rank e h),
    )
