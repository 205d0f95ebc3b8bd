-- ===== src/Base/Sorting/Rearrange.antt =====
-- What a list keeps when its elements are put in another order.
use mathlib.Core.Bool.{Bool}
use mathlib.Core.List.{List, map, Permᴰ}
use mathlib.Core.List.Permᴰ
use mathlib.Core.Logic.{inl, inr}
use mathlib.Core.Path.{◌≡◌, sym, subst, ap, ◌∙◌}
use observai_api.Base.Lists.{All, filter}
use observai_api.Base.Tests.{Bool-cases}

module _ {ℓ κ} {A : Type ℓ} (P : A → Type κ) where
  pub All-rearranged : {xs ys : List A} → Permᴰ xs ys → All P xs → All P ys
  All-rearranged Permᴰ.nil h = h
  All-rearranged (Permᴰ.cons e d) h = (subst P e h.0, All-rearranged d h.1)
  All-rearranged (Permᴰ.swap e f) h = (subst P f h.1.0, (subst P e h.0, h.1.1))
  All-rearranged (Permᴰ.trans c d) h = All-rearranged d (All-rearranged c h)

module _ {ℓ κ} {A : Type ℓ} {B : Type κ} (f : A → B) where
  pub map-rearranged : {xs ys : List A} → Permᴰ xs ys → Permᴰ (map f xs) (map f ys)
  map-rearranged Permᴰ.nil = Permᴰ.nil
  map-rearranged (Permᴰ.cons e d) = Permᴰ.cons (ap f e) (map-rearranged d)
  map-rearranged (Permᴰ.swap e g) = Permᴰ.swap (ap f e) (ap f g)
  map-rearranged (Permᴰ.trans c d) = Permᴰ.trans (map-rearranged c) (map-rearranged d)

module _ {ℓ} {A : Type ℓ} (p : A → Bool) where
  same_test : {a b : A} {t : Bool} → a ≡ b → p a ≡ t → p b ≡ t
  same_test e h = ap p (sym e) ∙ h

  pub filter-rearranged : {xs ys : List A} → Permᴰ xs ys → Permᴰ (filter p xs) (filter p ys)
  filter-rearranged Permᴰ.nil = Permᴰ.nil
  filter-rearranged (Permᴰ.cons {a} {b} e d) = elim (Bool-cases (p a)) [
    | inl t ↦ rw (t, same_test e t) (Permᴰ.cons e (filter-rearranged d))
    | inr f ↦ rw (f, same_test e f) (filter-rearranged d)
  ]
  filter-rearranged (Permᴰ.swap {a} {b} e f) = elim (Bool-cases (p a)) [
    | inl ta ↦ elim (Bool-cases (p b)) [
      | inl tb ↦ rw (ta, same_test e ta, tb, same_test f tb) (Permᴰ.swap e f)
      | inr fb ↦ rw (ta, same_test e ta, fb, same_test f fb) (Permᴰ.cons e (Permᴰ.refl _))
    ]
    | inr fa ↦ elim (Bool-cases (p b)) [
      | inl tb ↦ rw (fa, same_test e fa, tb, same_test f tb) (Permᴰ.cons f (Permᴰ.refl _))
      | inr fb ↦ rw (fa, same_test e fa, fb, same_test f fb) (Permᴰ.refl _)
    ]
  ]
  filter-rearranged (Permᴰ.trans c d) = Permᴰ.trans (filter-rearranged c) (filter-rearranged d)
