-- ===== src/Policy/Recommendation/Complete.antt =====
-- internal/core/policy/recommendation.go: the merged list leaves no action out.
use mathlib.Core.List.{Mem, mem-cons_self, mem-cons_of_mem}
use mathlib.Core.List.Perm
use observai_api.Base.{
  ◌≡◌, subst, false, ◌||◌, arith, List, [], ◌∷◌, any, All, Bool-cases, String, inl, inr,
}
use observai_api.Base.Text.{is_empty, str_eq}
use observai_api.Domain.Analysis.{Evidence, Recommendation}
use observai_api.Policy.Recommendation.{
  RecommendationInput, RecommendationRule, Merging, merge_one, merge_all, merge_rules, evaluate,
  merged_recommendations, apply_recommendations,
}
use observai_api.Policy.Recommendation.Laws.{apply-perm}
use observai_api.Policy.Recommendation.Invariant.{key_of, keys, any→mem, merged-Inv}

merge_one-keeps :
    (evidence : List Evidence) (m : Merging) (r : Recommendation) (k : String)
    → Mem k m.seen
    → Mem k (merge_one evidence m r).seen
unfolding merge_one
merge_one-keeps evidence m r k h =
    let key = key_of r in
    elim (Bool-cases (is_empty key || any (str_eq key) m.seen)) [
      | inl t ↦ rw t h
      | inr f ↦ rw f (mem-cons_of_mem key h)
    ]

merge_one-adds :
    (evidence : List Evidence) (m : Merging) (r : Recommendation)
    → is_empty (key_of r) ≡ false
    → Mem (key_of r) (merge_one evidence m r).seen
unfolding merge_one
merge_one-adds evidence m r e =
    let key = key_of r in
    elim (Bool-cases (is_empty key || any (str_eq key) m.seen)) [
      | inl t ↦ rw t (any→mem key m.seen (ground arith))
      | inr f ↦ rw f mem-cons_self
    ]

merge_all-keeps :
    (evidence : List Evidence) (m : Merging) (rs : List Recommendation) (k : String)
    → Mem k m.seen
    → Mem k (merge_all evidence m rs).seen
unfolding merge_all
merge_all-keeps evidence m [] k h = h
merge_all-keeps evidence m (r ∷ rs) k h =
    merge_all-keeps evidence (merge_one evidence m r) rs k (merge_one-keeps evidence m r k h)

merge_rules-keeps :
    (input : RecommendationInput) (m : Merging) (rules : List RecommendationRule) (k : String)
    → Mem k m.seen
    → Mem k (merge_rules input m rules).seen
unfolding merge_rules
merge_rules-keeps input m [] k h = h
merge_rules-keeps input m (rule ∷ rules) k h =
    merge_rules-keeps input (merge_all input.evidence m (evaluate rule input)) rules k
      (merge_all-keeps input.evidence m (evaluate rule input) k h)

abbrev pub Present : List String → Recommendation → Type 0
Present ks r = is_empty (key_of r) ≡ false → Mem (key_of r) ks

merge_all-adds :
    (evidence : List Evidence) (m : Merging) (rs : List Recommendation)
    → All (Present (merge_all evidence m rs).seen) rs
unfolding merge_all
merge_all-adds evidence m [] = tt
merge_all-adds evidence m (r ∷ rs) = (
  λ e.
      merge_all-keeps evidence (merge_one evidence m r) rs (key_of r)
        (merge_one-adds evidence m r e),
  merge_all-adds evidence (merge_one evidence m r) rs,
)

Present-weaken :
    (ks js : List String) (rs : List Recommendation)
    → ((k : String) → Mem k ks → Mem k js)
    → All (Present ks) rs
    → All (Present js) rs
Present-weaken ks js [] f h = tt
Present-weaken ks js (r ∷ rs) f h = (λ e. f (key_of r) (h.0 e), Present-weaken ks js rs f h.1)

merge_rules-adds :
    (input : RecommendationInput) (m : Merging) (rules : List RecommendationRule)
    → All (λ rule. All (Present (merge_rules input m rules).seen) (evaluate rule input)) rules
unfolding merge_rules
merge_rules-adds input m [] = tt
merge_rules-adds input m (rule ∷ rules) =
    let next = merge_all input.evidence m (evaluate rule input) in
    (
      Present-weaken next.seen _ (evaluate rule input) (merge_rules-keeps input next rules)
          (merge_all-adds input.evidence m (evaluate rule input)),
      merge_rules-adds input next rules,
    )

seen→result :
    (rules : List RecommendationRule) (input : RecommendationInput) (k : String)
    → Mem k (merged_recommendations rules input).seen
    → Mem k (keys (apply_recommendations rules input))
seen→result rules input k h =
    (Perm.mem_iff (Perm.symm (Perm.map key_of (apply-perm rules input)))).0
      (subst (Mem k) (merged-Inv rules input).seen_keys h)

All-Present-weaken :
    (ks js : List String) (input : RecommendationInput) (rules : List RecommendationRule)
    → ((k : String) → Mem k ks → Mem k js)
    → All (λ rule. All (Present ks) (evaluate rule input)) rules
    → All (λ rule. All (Present js) (evaluate rule input)) rules
All-Present-weaken ks js input [] f h = tt
All-Present-weaken ks js input (rule ∷ rules) f h =
    (Present-weaken ks js (evaluate rule input) f h.0, All-Present-weaken ks js input rules f h.1)

-- Every action that the model suggests and every action that a rule proposes is in the result, up to
-- letter case and outer space, unless it is blank.
pub apply_recommendations_complete :
    (rules : List RecommendationRule) (input : RecommendationInput)
    → let ks = keys (apply_recommendations rules input) in
      All (Present ks) input.result.recommended_actions
      × All (λ rule. All (Present ks) (evaluate rule input)) rules
unfolding merged_recommendations
apply_recommendations_complete rules input =
    let suggested = input.result.recommended_actions in
    let start : Merging = record { seen = []; merged = [] } in
    let m = merge_all input.evidence start suggested in
    (
      Present-weaken m.seen _ suggested
          (λ k h. seen→result rules input k (merge_rules-keeps input m rules k h))
          (merge_all-adds input.evidence start suggested),
      All-Present-weaken (merge_rules input m rules).seen _ input rules (seen→result rules input)
          (merge_rules-adds input m rules),
    )
