-- ===== src/Policy/Severity/Raise.antt =====
-- internal/core/policy: keeping the higher of two severities.
use Prim.Native.Nat.{max}
use observai_api.Base.{◌≡◌, ◌≤◌, ◌⊎◌, inl, inr, true, arith, Bool-cases, ltb, sym}
use observai_api.Domain.Severity.{Severity, severity_info, is_valid_severity, severity_rank}
use observai_api.Domain.Severity.Laws.{info_of_rank-zero}
use observai_api.Policy.Severity.{raise}

pub raise-le :
    (s c : Severity)
    → (severity_rank s ≤ severity_rank (raise s c)) × (severity_rank c ≤ severity_rank (raise s c))
unfolding raise
raise-le s c = ground arith

pub raise_either : (s c : Severity) → (raise s c ≡ s) ⊎ (raise s c ≡ c)
unfolding raise
raise_either s c = ground arith

pub raise-max :
    (s c : Severity) → severity_rank (raise s c) ≡ max (severity_rank s) (severity_rank c)
unfolding raise
raise-max s c = ground arith

pub raise_absorb : (s c : Severity) → severity_rank c ≤ severity_rank s → raise s c ≡ s
unfolding raise
raise_absorb s c h = elim (Bool-cases (ltb (severity_rank s) (severity_rank c))) [
  | inl t ↦ absurd (ground arith)
  | inr f ↦ rw f
]

pub raise_valid :
    (s c : Severity)
    → is_valid_severity s ≡ true
    → is_valid_severity c ≡ true
    → is_valid_severity (raise s c) ≡ true
unfolding raise
raise_valid s c v w = elim (Bool-cases (ltb (severity_rank s) (severity_rank c))) [
  | inl t ↦ rw t w
  | inr f ↦ rw f v
]

severity_rank_info : severity_rank severity_info ≤ 0
unfolding severity_rank
severity_rank_info = omega arith

pub raise_info : (s : Severity) → is_valid_severity s ≡ true → raise severity_info s ≡ s
unfolding raise
raise_info s v = elim (Bool-cases (ltb (severity_rank severity_info) (severity_rank s))) [
  | inl t ↦ rw t
  | inr f ↦ rw f (sym (info_of_rank-zero s v (ground (arith, severity_rank_info))))
]
