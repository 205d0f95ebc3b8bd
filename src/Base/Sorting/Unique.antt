-- ===== src/Base/Sorting/Unique.antt =====
-- Sorting by an order that tells all elements apart gives one result, whatever order they come in.
use mathlib.Core.Bool.{Bool, false}
use mathlib.Core.Bool.{Bool-set}
use mathlib.Core.List.{List, [], ◌∷◌, Perm, Mem, eq-or-mem_of_mem-cons, mem-cons_self, not-mem-nil}
use mathlib.Core.List.Perm
use mathlib.Core.Logic.{∥∥₁_elim, inl, inr}
use mathlib.Core.Path.{◌≡◌, refl, sym, subst}
use observai_api.Base.Lists.{All}
use observai_api.Base.Tests.{Bool-cases}
use observai_api.Base.Sorting.{sort_stable, sort_stable-perm, NoneLess, IsSorted}
use observai_api.Base.Sorting.Order.{IsOrder, All-sort_stable, sort_stable-IsSorted}

module _ {ℓ} {A : Type ℓ} (less : A → A → Bool) where
  NoneLess-mem : (x y : A) (ys : List A) → NoneLess less y ys → Mem x ys → less x y ≡ false
  NoneLess-mem x y [] n m = absurd (not-mem-nil m)
  NoneLess-mem x y (z ∷ ys) n m = ∥∥₁_elim (eq-or-mem_of_mem-cons m) (Bool-set _ _) (λ place.
      elim place [
        | inl e ↦ subst (λ w. less w y ≡ false) (sym e) n.0
        | inr later ↦ NoneLess-mem x y ys n.1 later
      ])

module _ {ℓ κ} {A : Type ℓ} (less : A → A → Bool) (Q : A → Type κ) (o : IsOrder less Q)
    (total : (x y : A) → Q x → Q y → less x y ≡ false → less y x ≡ false → x ≡ y) where
  irrefl : (x : A) → Q x → less x x ≡ false
  irrefl x q = elim (Bool-cases (less x x)) [ inl t ↦ o.asymm x x q q t | inr f ↦ f ]

  -- Nothing in a sorted list comes before its head.
  head-first :
      (x y : A) (ys : List A) → Q y → NoneLess less y ys → Mem x (y ∷ ys) → less x y ≡ false
  head-first x y ys q n m = NoneLess-mem less x y (y ∷ ys) (irrefl y q, n) m

  pub sorted_unique :
      (xs ys : List A)
      → All Q xs
      → All Q ys
      → IsSorted less xs
      → IsSorted less ys
      → Perm xs ys
      → xs ≡ ys
  sorted_unique [] [] qx qy sx sy p = refl
  sorted_unique [] (y ∷ ys) qx qy sx sy p = Perm.nil-eq p
  sorted_unique (x ∷ xs) [] qx qy sx sy p = Perm.eq-nil p
  sorted_unique (x ∷ xs) (y ∷ ys) qx qy sx sy p =
      let x_in = (Perm.mem_iff p).0 (mem-cons_self {a = x} {l = xs}) in
      let y_in = (Perm.mem_iff p).1 (mem-cons_self {a = y} {l = ys}) in
      let same =
        total x y qx.0 qy.0 (head-first x y ys qy.0 sy.0 x_in) (head-first y x xs qx.0 sx.0 y_in) in
      let rest = sorted_unique xs ys qx.1 qy.1 sx.1 sy.1 (Perm.cons_inv (tail_perm same)) in cc
    where
      tail_perm : x ≡ y → Perm (x ∷ xs) (x ∷ ys)
      tail_perm e = subst (λ w. Perm (x ∷ xs) (w ∷ ys)) (sym e) p

  pub sort_stable_unique :
      (xs ys : List A)
      → All Q xs
      → All Q ys
      → Perm xs ys
      → sort_stable less xs ≡ sort_stable less ys
  sort_stable_unique xs ys qx qy p =
      sorted_unique (sort_stable less xs) (sort_stable less ys) (All-sort_stable less Q xs qx)
        (All-sort_stable less Q ys qy) (sort_stable-IsSorted less Q o xs qx)
        (sort_stable-IsSorted less Q o ys qy)
        (Perm.trans (sort_stable-perm less xs)
          (Perm.trans p (Perm.symm (sort_stable-perm less ys))))
