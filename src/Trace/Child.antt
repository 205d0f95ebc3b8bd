-- ===== src/Trace/Child.antt =====
-- internal/core/usecase/trace.go: the child that the critical path goes on with.
use observai_api.Base.{
  ◌≡◌, refl, sym, ap, ◌∙◌, ◌⊎◌, inl, inr, true, false, List, [], ◌∷◌, some, All, Any, arith,
  Bool-cases, subst,
}
use mathlib.Core.Option.{some-injective}
use observai_api.Base.Int.{ℤ}
use observai_api.Base.Float.{Float, nan, val, lt_float}
use observai_api.Trace.{Span, slower, slowest_from, slowest_child}

slowest_from-All :
    (Q : Span → Type 0) (s : Span) (spans : List Span)
    → Q s
    → All Q spans
    → Q (slowest_from s spans)
unfolding slowest_from
slowest_from-All Q s [] q h = q
slowest_from-All Q s (c ∷ rest) q h = elim (Bool-cases (slower c s)) [
  | inl t ↦ rw t (slowest_from-All Q c rest h.0 h.1)
  | inr f ↦ rw f (slowest_from-All Q s rest q h.1)
]

pub slowest_child-All :
    (Q : Span → Type 0) (spans : List Span) (s : Span)
    → slowest_child spans ≡ some s
    → All Q spans
    → Q s
unfolding slowest_child
slowest_child-All Q [] s e h = cc
slowest_child-All Q (c ∷ rest) s e h =
    subst Q (some-injective _ _ e) (slowest_from-All Q c rest h.0 h.1)

lt_float_trans : (a b c : Float) → lt_float a b ≡ true → lt_float b c ≡ true → lt_float a c ≡ true
lt_float_trans nan b c h k = cc
lt_float_trans (val a) nan c h k = cc
lt_float_trans (val a) (val b) nan h k = cc
lt_float_trans (val a) (val b) (val c) h k = ground arith

-- Where `b` is a number, what is not above `b` is not above what `b` is not above.
lt_float_ntrans :
    (a b c : Float)
    → (b ≡ nan → a ≡ nan)
    → lt_float a b ≡ false
    → lt_float b c ≡ false
    → lt_float a c ≡ false
lt_float_ntrans nan b c n h k = refl
lt_float_ntrans (val a) nan c n h k = absurd (val≢nan a (n refl))
  where
    val≢nan : (z : ℤ) → ¬ (val z ≡ nan)
    val≢nan z e = cc
lt_float_ntrans (val a) (val b) nan n h k = refl
lt_float_ntrans (val a) (val b) (val c) n h k = ground arith

slowest_from_nan : (s : Span) (spans : List Span) → s.duration_ms ≡ nan → slowest_from s spans ≡ s
unfolding slowest_from
slowest_from_nan s [] e = refl
slowest_from_nan s (c ∷ rest) e =
    let stays : slower c s ≡ false = rw e in rw stays (slowest_from_nan s rest e)

lt_float_irrefl : (a : Float) → lt_float a a ≡ false
lt_float_irrefl nan = refl
lt_float_irrefl (val a) = ground arith

below : (s c r : Span) → slower c s ≡ true → slower c r ≡ false → slower s r ≡ false
below s c r t top = elim (Bool-cases (slower s r)) [
  | inl over ↦ cc (lt_float_trans r.duration_ms s.duration_ms c.duration_ms over t, top)
  | inr under ↦ under
]

slowest_from-nil : {s : Span} → slowest_from s [] ≡ s
unfolding slowest_from
slowest_from-nil = refl

slowest_from-switch :
    (s c : Span) (rest : List Span)
    → slower c s ≡ true
    → slowest_from c rest ≡ slowest_from s (c ∷ rest)
unfolding slowest_from
slowest_from-switch s c rest t = rw t

slowest_from-stay :
    (s c : Span) (rest : List Span)
    → slower c s ≡ false
    → slowest_from s rest ≡ slowest_from s (c ∷ rest)
unfolding slowest_from
slowest_from-stay s c rest f = rw f

-- Neither the first span nor any later one took longer than `r`.
abbrev NoneSlower : Span → List Span → Span → Type 0
NoneSlower s spans r = (slower s r ≡ false) × All (λ c. slower c r ≡ false) spans

slowest_from-max : (s : Span) (spans : List Span) → NoneSlower s spans (slowest_from s spans)
slowest_from-max s [] = rw slowest_from-nil (lt_float_irrefl s.duration_ms, tt)
slowest_from-max s (c ∷ rest) = elim (Bool-cases (slower c s)) [
  | inl t ↦
      let (top, others) = slowest_from-max c rest in
      subst (NoneSlower s (c ∷ rest)) (slowest_from-switch s c rest t)
        (below s c (slowest_from c rest) t top, (top, others))
  | inr f ↦
      let (top, others) = slowest_from-max s rest in
      subst (NoneSlower s (c ∷ rest)) (slowest_from-stay s c rest f) (
        top,
        (
          lt_float_ntrans (slowest_from s rest).duration_ms s.duration_ms c.duration_ms
              (λ e. ap (λ x. x.duration_ms) (slowest_from_nan s rest e) ∙ e) top f,
          others,
        ),
      )
]

-- `s` is one of the spans, and none of them took longer.
abbrev pub IsSlowest : Span → List Span → Type 0
IsSlowest s spans = Any (λ c. c ≡ s) spans × All (λ c. slower c s ≡ false) spans

slowest_from-Any :
    (s : Span) (spans : List Span)
    → (slowest_from s spans ≡ s) ⊎ Any (λ c. c ≡ slowest_from s spans) spans
unfolding slowest_from
slowest_from-Any s [] = inl refl
slowest_from-Any s (c ∷ rest) = elim (Bool-cases (slower c s)) [
  | inl t ↦ rw t (elim (slowest_from-Any c rest) [
    | inl e ↦ inr (Any.here (sym e))
    | inr a ↦ inr (Any.there a)
  ])
  | inr f ↦ rw f (elim (slowest_from-Any s rest) [ inl e ↦ inl e | inr a ↦ inr (Any.there a) ])
]

pub slowest_child-IsSlowest :
    (spans : List Span) (s : Span) → slowest_child spans ≡ some s → IsSlowest s spans
unfolding slowest_child
slowest_child-IsSlowest [] s e = cc
slowest_child-IsSlowest (c ∷ rest) s e =
    subst (λ x. IsSlowest x (c ∷ rest)) (some-injective _ _ e)
      (
        elim (slowest_from-Any c rest) [ inl same ↦ Any.here (sym same) | inr a ↦ Any.there a ],
        slowest_from-max c rest,
      )
