-- ===== src/Policy/Recommendation/Laws.antt =====
-- internal/core/policy/recommendation.go: the merged list has no duplicates and is grounded.
use mathlib.Core.List.{Nodup, Perm, perm_middle, append-nil}
use mathlib.Core.List.Perm
use observai_api.Base.Int.{ltb_ℤ}
use observai_api.Base.{Bool, subst, arith, List, [], ◌∷◌, ◌++◌, All}
use observai_api.Base.Sorting.{sort_stable-perm, IsSorted}
use observai_api.Base.Sorting.Order.{IsOrder, All-sort_stable, sort_stable-IsSorted}
use observai_api.Domain.Analysis.{Recommendation}
use observai_api.Policy.Recommendation.{
  RecommendationInput, RecommendationRule, before, merged_recommendations, backwards,
  apply_recommendations,
}
use observai_api.Policy.Recommendation.Invariant.{key_of, keys, IsGrounded, merged-Inv}

backwards-perm : (rs done : List Recommendation) → Perm (backwards rs done) (rs ++ done)
backwards-perm [] done = Perm.refl done
backwards-perm (r ∷ rs) done = Perm.trans (backwards-perm rs (r ∷ done)) (perm_middle rs done)

backwards-All :
    (Q : Recommendation → Type 0) (rs done : List Recommendation)
    → All Q rs
    → All Q done
    → All Q (backwards rs done)
backwards-All Q [] done h k = k
backwards-All Q (r ∷ rs) done h k = backwards-All Q rs (r ∷ done) h.1 (h.0, k)

before-IsOrder : IsOrder before (λ _. Unit {0})
before-IsOrder = record {
  asymm = λ x y _ _ h. ground arith;
  trans = λ x y z _ _ _ h k. ground arith;
}

All-trivial : (rs : List Recommendation) → All (λ _. Unit {0}) rs
All-trivial [] = tt
All-trivial (r ∷ rs) = (tt, All-trivial rs)

pub apply-perm :
    (rules : List RecommendationRule) (input : RecommendationInput)
    → Perm (apply_recommendations rules input) (merged_recommendations rules input).merged
unfolding apply_recommendations
apply-perm rules input =
    let merged = (merged_recommendations rules input).merged in
    Perm.trans (sort_stable-perm before (backwards merged []))
      (rw (append-nil merged) at (backwards-perm merged []))

-- No two recommendations of the result have the same action, up to letter case and outer space.
pub apply_recommendations-Nodup :
    (rules : List RecommendationRule) (input : RecommendationInput)
    → Nodup (keys (apply_recommendations rules input))
apply_recommendations-Nodup rules input =
    let v = merged-Inv rules input in
    Perm.nodup (Perm.symm (Perm.map key_of (apply-perm rules input)))
      (subst Nodup v.seen_keys v.distinct)

abbrev pub ranks_first : Recommendation → Recommendation → Bool
ranks_first a b = ltb_ℤ a.priority b.priority

-- The result is ordered by priority, no action in it is blank, and a recommendation without
-- evidence identifiers occurs only where the identifier of every evidence item is blank.
pub apply_recommendations-IsGrounded :
    (rules : List RecommendationRule) (input : RecommendationInput)
    → IsSorted ranks_first (apply_recommendations rules input)
      × All (IsGrounded input.evidence) (apply_recommendations rules input)
unfolding apply_recommendations
apply_recommendations-IsGrounded rules input =
    let merged = (merged_recommendations rules input).merged in
    let Q = IsGrounded input.evidence in
    (
      sort_stable-IsSorted before (λ _. Unit {0}) before-IsOrder (backwards merged [])
          (All-trivial (backwards merged [])),
      All-sort_stable before Q (backwards merged [])
          (backwards-All Q merged [] (merged-Inv rules input).grounded tt),
    )
