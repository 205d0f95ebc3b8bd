-- ===== src/Policy/Evidence.antt =====
-- internal/core/policy/evidence.go: specifications, and the evidence that reaches the model.
use observai_api.Base.{
  String, Bool, true, false, not, ◌&&◌, ◌||◌, List, [], ◌∷◌, Option, none, some, any, filter,
  length, take, ltb, leb, if◌then◌else◌,
}
use observai_api.Base.Int.{ℤ, pos, negsuc}
use observai_api.Base.Float.{Float, lt_float, le_float}
use observai_api.Base.Sorting.{sort_stable}
use observai_api.Base.Text.{trim_space, equal_fold, is_empty}
use observai_api.Domain.Analysis.{is_zero_time, TimeWindow, AnalysisRequest, Evidence}
use observai_api.Policy.Text.{mentions_error}
pub mod Laws

-- The interface EvidenceSpecification with its implementations; a `skip` in a list of
-- specifications is a nil entry, and `not_nil` is a NotSpecification around nil.
mutual
  pub data Specification : Type 0 where
    func : (Evidence → Bool) → Specification
    all_of any_of : Specifications → Specification
    not_spec : Specification → Specification
    not_nil : Specification
    within_time_window : TimeWindow → Specification
    for_affected_services : List String → Specification
    high_score : Float → Specification
    errors_only : Specification

  pub data Specifications : Type 0 where
    end : Specifications
    skip : Specifications → Specifications
    and_then : Specification → Specifications → Specifications

unfoldable pub in_window : TimeWindow → Evidence → Bool
in_window w e =
    if is_zero_time w.start && is_zero_time w.finish
    then true
    else if is_zero_time e.observed
    then true
    else if not (is_zero_time w.start) && ltb e.observed w.start
    then false
    else if not (is_zero_time w.finish) && ltb w.finish e.observed
    then false
    else true

abbrev is_nil {ℓ} : {A : Type ℓ} → List A → Bool
is_nil [] = true
is_nil (_ ∷ _) = false

unfoldable pub for_services : List String → Evidence → Bool
unfolding trim_space equal_fold
for_services services e =
    if is_nil services
    then true
    else let service = trim_space e.service in
      if is_empty service
      then true
      else any (λ candidate. equal_fold (trim_space candidate) service) services

abbrev is_end : Specifications → Bool
is_end end = true
is_end (skip s) = false
is_end (and_then p s) = false

-- IsSatisfiedBy, of each specification
unfoldable mutual
  pub is_satisfied_by : Specification → Evidence → Bool
  is_satisfied_by (func f) e = f e
  is_satisfied_by (all_of specs) e = all_satisfied specs e
  is_satisfied_by (any_of specs) e = is_end specs || any_satisfied specs e
  is_satisfied_by (not_spec p) e = not (is_satisfied_by p e)
  is_satisfied_by not_nil e = false
  is_satisfied_by (within_time_window w) e = in_window w e
  is_satisfied_by (for_affected_services services) e = for_services services e
  is_satisfied_by (high_score threshold) e = le_float threshold e.score
  is_satisfied_by errors_only e = mentions_error e

  pub all_satisfied : Specifications → Evidence → Bool
  all_satisfied end e = true
  all_satisfied (skip specs) e = all_satisfied specs e
  all_satisfied (and_then p specs) e = is_satisfied_by p e && all_satisfied specs e

  pub any_satisfied : Specifications → Evidence → Bool
  any_satisfied end e = false
  any_satisfied (skip specs) e = any_satisfied specs e
  any_satisfied (and_then p specs) e = is_satisfied_by p e || any_satisfied specs e

-- `spec == nil || spec.IsSatisfiedBy(item)`
unfoldable pub selects : Option Specification → Evidence → Bool
selects none e = true
selects (some spec) e = is_satisfied_by spec e

abbrev pub outranks : Evidence → Evidence → Bool
outranks a b = lt_float b.score a.score

-- `maxItems <= 0 || len(filtered) <= maxItems`
abbrev pub cap_evidence : ℤ → List Evidence → List Evidence
cap_evidence (negsuc n) filtered = filtered
cap_evidence (pos n) filtered =
    if leb n 0 || leb (length filtered) n then filtered else take n (sort_stable outranks filtered)

-- FilterEvidence
unfoldable pub filter_evidence : List Evidence → Option Specification → ℤ → List Evidence
filter_evidence evidence spec max_items = cap_evidence max_items (filter (selects spec) evidence)

-- RelevantEvidenceSpecification
unfoldable pub relevant_evidence_specification : AnalysisRequest → Specification
relevant_evidence_specification request = all_of (
    and_then (within_time_window request.time_window)
      (and_then (for_affected_services request.affected_services) end))
