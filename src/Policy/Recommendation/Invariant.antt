-- ===== src/Policy/Recommendation/Invariant.antt =====
-- internal/core/policy/recommendation.go: what holds of the list while Apply merges it.
use mathlib.Core.List.{
  Mem, Nodup, Nodup-cons, Nodup-nil, not-mem-nil, mem-cons, mem-cons_self, mem-cons_of_mem,
}
use mathlib.Core.Logic.Or
use mathlib.Core.HLevel.{⊥_prop}
use observai_api.Base.{
  ℕ, suc, ◌≡◌, ◌≢◌, refl, ap, subst, true, false, ◌||◌, arith, List, [], ◌∷◌, map, any, All,
  Bool-cases, String, eq_iff, inl, inr,
}
use observai_api.Base.Text.{trim_space, to_lower, is_empty, str_eq}
use observai_api.Domain.Analysis.{Evidence, Recommendation}
use observai_api.Policy.Recommendation.{
  RecommendationInput, RecommendationRule, Merging, recommendation_key, first_ids, is_blank,
  fallback_evidence_ids, merge_one, merge_all, merge_rules, evaluate, merged_recommendations,
}

abbrev pub key_of : Recommendation → String
key_of r = recommendation_key r.action

abbrev pub keys : List Recommendation → List String
keys = map key_of

pub mem→any : (k : String) (ks : List String) → any (str_eq k) ks ≡ false → ¬ Mem k ks
mem→any k [] h = not-mem-nil
mem→any k (j ∷ ks) h = λ m.
    Or.elim ⊥_prop (mem-cons.0 m) (λ e. ground (arith, eq_iff k j, e)) (mem→any k ks (ground arith))

pub any→mem : (k : String) (ks : List String) → any (str_eq k) ks ≡ true → Mem k ks
any→mem k [] h = cc
any→mem k (j ∷ ks) h = elim (Bool-cases (str_eq k j)) [
  | inl t ↦ subst (λ x. Mem k (x ∷ ks)) ((eq_iff k j).0 t) mem-cons_self
  | inr f ↦ mem-cons_of_mem j (any→mem k ks (ground arith))
]

-- No item has an identifier that is more than white space.
abbrev pub NoIdentifier : List Evidence → Type 0
NoIdentifier evidence = All (λ e. trim_space e.id ≡ "") evidence

-- A merged recommendation has an action that is not blank, and names evidence if there is evidence to name.
abbrev pub IsGrounded : List Evidence → Recommendation → Type 0
IsGrounded evidence r = (trim_space r.action ≢ "") × (r.evidence_ids ≡ [] → NoIdentifier evidence)

pub record Inv (evidence : List Evidence) (m : Merging) : Type 0 where
  pub seen_keys : m.seen ≡ keys m.merged
  pub distinct : Nodup m.seen
  pub grounded : All (IsGrounded evidence) m.merged

key-nonblank : (r : Recommendation) → is_empty (key_of r) ≡ false → trim_space r.action ≢ ""
unfolding recommendation_key to_lower
key-nonblank r h = λ blank.
    let q : is_empty (to_lower (trim_space r.action)) ≡ true =
      ap (λ s. is_empty (to_lower s)) blank in
    absurd (cc (h, q))

empty_text : (s : String) → is_empty s ≡ true → s ≡ ""
empty_text String.[] h = refl
empty_text (String.◌∷◌ c s) h = absurd (ground arith)

first_ids_none :
    (room : ℕ) (evidence : List Evidence)
    → first_ids (suc room) evidence ≡ []
    → NoIdentifier evidence
unfolding first_ids is_blank
first_ids_none room [] h = tt
first_ids_none room (e ∷ evidence) h = elim (Bool-cases (is_empty (trim_space e.id))) [
  | inl blank ↦ (empty_text (trim_space e.id) blank, first_ids_none room evidence (rw blank at h))
  | inr named ↦ let q : e.id ∷ first_ids room evidence ≡ [] = rw named at h in cc
]

fallback_empty :
    (ids : List String) (evidence : List Evidence)
    → fallback_evidence_ids ids evidence ≡ []
    → NoIdentifier evidence
unfolding fallback_evidence_ids
fallback_empty [] evidence h = first_ids_none 4 evidence h
fallback_empty (id ∷ ids) evidence h = cc

merge_one-Inv :
    (evidence : List Evidence) (m : Merging) (r : Recommendation)
    → Inv evidence m
    → Inv evidence (merge_one evidence m r)
unfolding merge_one
merge_one-Inv evidence m r v =
    let key = key_of r in
    elim (Bool-cases (is_empty key || any (str_eq key) m.seen)) [
      | inl t ↦ rw t v
      | inr f ↦ rw f (record {
        seen_keys = ap (◌∷◌ key) v.seen_keys;
        distinct = Nodup-cons.1 (mem→any key m.seen (ground arith), v.distinct);
        grounded =
            ((key-nonblank r (ground arith), fallback_empty r.evidence_ids evidence), v.grounded);
      })
    ]

merge_all-Inv :
    (evidence : List Evidence) (m : Merging) (rs : List Recommendation)
    → Inv evidence m
    → Inv evidence (merge_all evidence m rs)
unfolding merge_all
merge_all-Inv evidence m [] v = v
merge_all-Inv evidence m (r ∷ rs) v =
    merge_all-Inv evidence (merge_one evidence m r) rs (merge_one-Inv evidence m r v)

merge_rules-Inv :
    (input : RecommendationInput) (m : Merging) (rules : List RecommendationRule)
    → Inv input.evidence m
    → Inv input.evidence (merge_rules input m rules)
unfolding merge_rules
merge_rules-Inv input m [] v = v
merge_rules-Inv input m (rule ∷ rules) v =
    merge_rules-Inv input (merge_all input.evidence m (evaluate rule input)) rules
      (merge_all-Inv input.evidence m (evaluate rule input) v)

pub merged-Inv :
    (rules : List RecommendationRule) (input : RecommendationInput)
    → Inv input.evidence (merged_recommendations rules input)
unfolding merged_recommendations
merged-Inv rules input = merge_rules-Inv input _ rules (
    merge_all-Inv input.evidence (record { seen = []; merged = [] })
      input.result.recommended_actions
      (record { seen_keys = refl; distinct = Nodup-nil; grounded = tt }))
