-- ===== src/Trace/Path.antt =====
-- internal/core/usecase/trace.go: the critical path, where it ends and where it does not.
use observai_api.Base.{
  ℕ, zero, suc, ◌<◌, ◌≡◌, refl, ◌⊎◌, inl, inr, Bool, true, false, String, List, [], ◌∷◌, Option,
  none, some, All, arith, Bool-cases, Option-cases, eq_iff, subst, ◌&&◌,
}
use mathlib.Core.Option.{some-injective}
use observai_api.Base.Float.{Float, lt_float}
use observai_api.Base.Text.{is_empty, str_eq}
use observai_api.Trace.{
  Span, children_of, longest_from, minus_one, has_id, pick_root, slowest_child, walk,
  path_from_root, critical_path,
}
use observai_api.Trace.Child.{slowest_child-All, IsSlowest, slowest_child-IsSlowest}

-- Along every edge of the trace, the identifier of the child ranks below that of the parent.
abbrev pub Descends : (String → ℕ) → List Span → Type 0
Descends height spans = All (λ s. height s.span_id < height s.parent_span_id) spans

children_descend :
    (height : String → ℕ) (spans : List Span) (id : String)
    → Descends height spans
    → All (λ s. height s.span_id < height id) (children_of spans id)
children_descend height [] id h = tt
children_descend height (s ∷ spans) id h = elim (Bool-cases (str_eq s.parent_span_id id)) [
  | inl t ↦ rw t (
    subst (λ p. height s.span_id < height p) ((eq_iff s.parent_span_id id).0 t) h.0,
    children_descend height spans id h.1,
  )
  | inr f ↦ rw f (children_descend height spans id h.1)
]

walk_total :
    (height : String → ℕ) (fuel : ℕ) (spans : List Span) (id : String)
    → Descends height spans
    → height id < fuel
    → (path : List String) × (walk fuel spans id ≡ some path)
unfolding walk
walk_total height zero spans id h below = absurd (omega arith)
walk_total height (suc fuel) spans id h below =
    elim (Option-cases (slowest_child (children_of spans id))) [
      | inl e ↦ ([], rw (e, walk))
      | inr (next, e) ↦
          let lower : height next.span_id < height id =
            slowest_child-All (λ s. height s.span_id < height id) _ next e
              (children_descend height spans id h) in
          let (path, w) = walk_total height fuel spans next.span_id h (omega arith) in
          (next.span_id ∷ path, rw (e, walk) (rw (w, walk)))
    ]

-- Each identifier of the path is that of the slowest child of the one before, and the last has no
-- child.
abbrev pub IsDescent : List Span → String → List String → Type 0
IsDescent spans id [] = children_of spans id ≡ []
IsDescent spans id (x ∷ path) =
    ((s : Span) × (s.span_id ≡ x) × IsSlowest s (children_of spans id)) × IsDescent spans x path

no_child : (spans : List Span) → slowest_child spans ≡ none → spans ≡ []
unfolding slowest_child
no_child [] e = refl
no_child (s ∷ spans) e = cc

walk-IsDescent :
    (fuel : ℕ) (spans : List Span) (id : String) (path : List String)
    → walk fuel spans id ≡ some path
    → IsDescent spans id path
unfolding walk
walk-IsDescent zero spans id path w = cc
walk-IsDescent (suc fuel) spans id path w =
    elim (Option-cases (slowest_child (children_of spans id))) [
      | inl e ↦ subst (IsDescent spans id) (some-injective _ _ (rw (e, walk) at w)) (no_child _ e)
      | inr (next, e) ↦ elim (Option-cases (walk fuel spans next.span_id)) [
        | inl stuck ↦ cc (rw (stuck, walk) at (rw (e, walk) at w))
        | inr (rest, v) ↦
            subst (IsDescent spans id) (some-injective _ _ (rw (v, walk) at (rw (e, walk) at w))) (
              (next, refl, slowest_child-IsSlowest _ next e),
              walk-IsDescent fuel spans next.span_id rest v,
            )
      ]
    ]

longest_from-All :
    (Q : Span → Type 0) (test : Span → Bool) (root : Option Span) (longest : Float)
    (spans : List Span) (r : Span)
    → All Q spans
    → (longest_from test root longest spans).0 ≡ some r
    → (root ≡ some r) ⊎ Q r
unfolding longest_from
longest_from-All Q test root longest [] r h e = inl e
longest_from-All Q test root longest (s ∷ spans) r h e =
    elim (Bool-cases (test s && lt_float longest s.duration_ms)) [
      | inl t ↦ elim (longest_from-All Q test (some s) s.duration_ms spans r h.1 (rw t at e)) [
        | inl same ↦ inr (subst Q (some-injective _ _ same) h.0)
        | inr q ↦ inr q
      ]
      | inr f ↦ longest_from-All Q test root longest spans r h.1 (rw f at e)
    ]

pick_root-All :
    (Q : Span → Type 0) (spans : List Span) (r : Span)
    → All Q spans
    → pick_root spans ≡ some r
    → Q r
unfolding pick_root
pick_root-All Q spans r h e =
    let first = longest_from (λ s. is_empty s.parent_span_id) none minus_one spans in
    let from_first : first.0 ≡ some r → Q r = λ p.
      elim (longest_from-All Q (λ s. is_empty s.parent_span_id) none minus_one spans r h p) [
        | inl no_root ↦ cc
        | inr q ↦ q
      ] in
    elim (Bool-cases (has_id first.0)) [
      | inl t ↦ from_first (rw t at e)
      | inr f ↦ elim (longest_from-All Q (λ s. true) first.0 first.1 spans r h (rw f at e)) [
        | inl p ↦ from_first p
        | inr q ↦ q
      ]
    ]

-- The path is empty where no span has an identifier to start from; it starts at the picked root.
abbrev pub IsCriticalPath : List Span → List String → Type 0
IsCriticalPath spans [] = (spans ≡ []) ⊎ (has_id (pick_root spans) ≡ false)
IsCriticalPath spans (x ∷ path) =
    ((root : Span) × (pick_root spans ≡ some root) × (root.span_id ≡ x)) × IsDescent spans x path

path_from_root-IsCriticalPath :
    (height : String → ℕ) (fuel : ℕ) (spans : List Span) (root : Option Span)
    → pick_root spans ≡ root
    → Descends height spans
    → All (λ s. height s.span_id < fuel) spans
    → (path : List String) × (path_from_root fuel spans root ≡ some path)
      × IsCriticalPath spans path
path_from_root-IsCriticalPath height fuel spans none p h f = ([], refl, inr (rw p))
path_from_root-IsCriticalPath height fuel spans (some root) p h f =
    elim (Bool-cases (is_empty root.span_id)) [
      | inl t ↦ ([], rw t, inr (rw p (rw t)))
      | inr named ↦
          let (path, w) =
            walk_total height fuel spans root.span_id h
              (pick_root-All (λ s. height s.span_id < fuel) spans root f p) in
          (
            root.span_id ∷ path,
            rw named (rw w),
            ((root, p, refl), walk-IsDescent fuel spans root.span_id path w),
          )
    ]

-- On a trace without cycles (some height falls along every edge), the walk ends: with fuel above
-- every height it gives a path, which starts at the picked root, goes on at each span with a child
-- that no sibling outlasts, and ends at a span without children.
pub critical_path_total :
    (height : String → ℕ) (fuel : ℕ) (spans : List Span)
    → Descends height spans
    → All (λ s. height s.span_id < fuel) spans
    → (path : List String) × (critical_path fuel spans ≡ some path) × IsCriticalPath spans path
unfolding critical_path
critical_path_total height fuel [] h f = ([], refl, inl refl)
critical_path_total height fuel (s ∷ spans) h f =
    path_from_root-IsCriticalPath height fuel (s ∷ spans) (pick_root (s ∷ spans)) refl h f
