-- ===== src/Base/Sorting/Order.antt =====
-- sort.SliceStable: the result is in order, over elements on which `less` is a strict weak order.
use observai_api.Base.Tests.{Bool-cases}
use observai_api.Base.Lists.{All, All-take, take, drop}
use mathlib.Core.Path.{◌≡◌, refl}
use mathlib.Core.Bool.{Bool, true, false}
use mathlib.Core.Logic.{inl, inr}
use mathlib.Core.List.{List, [], ◌∷◌, ◌++◌, Perm}
use Prim.Native.Nat.{ℕ, zero, suc}
use observai_api.Base.Sorting.{insert_sorted, sort_stable, sort_stable-perm, NoneLess, IsSorted}

module _ {ℓ κ} {A : Type ℓ} (less : A → A → Bool) (Q : A → Type κ) where
  pub All-insert_sorted : (x : A) (ys : List A) → Q x → All Q ys → All Q (insert_sorted less x ys)
  unfolding insert_sorted
  All-insert_sorted x [] q h = (q, tt)
  All-insert_sorted x (y ∷ ys) q h = elim (Bool-cases (less y x)) [
    | inl t ↦ rw t (h.0, All-insert_sorted x ys q h.1)
    | inr f ↦ rw f (q, h)
  ]

  pub All-sort_stable : (xs : List A) → All Q xs → All Q (sort_stable less xs)
  unfolding sort_stable
  All-sort_stable [] h = tt
  All-sort_stable (x ∷ xs) h =
      All-insert_sorted x (sort_stable less xs) h.0 (All-sort_stable xs h.1)

-- `less` behaves as an order should on the elements that satisfy `Q`.
pub record IsOrder {ℓ κ} {A : Type ℓ} (less : A → A → Bool) (Q : A → Type κ) : Type (ℓ ⊔ κ) where
  pub asymm : (x y : A) → Q x → Q y → less x y ≡ true → less y x ≡ false
  pub trans : (x y z : A) → Q x → Q y → Q z → less y x ≡ false → less z y ≡ false → less z x ≡ false

module _ {ℓ κ} {A : Type ℓ} (less : A → A → Bool) (Q : A → Type κ) (o : IsOrder less Q) where
  NoneLess-trans :
      (x y : A) (zs : List A)
      → Q x
      → Q y
      → All Q zs
      → less y x ≡ false
      → NoneLess less y zs
      → NoneLess less x zs
  NoneLess-trans x y [] qx qy q h n = tt
  NoneLess-trans x y (z ∷ zs) qx qy q h n =
      (o.trans x y z qx qy q.0 h n.0, NoneLess-trans x y zs qx qy q.1 h n.1)

  insert_sorted-IsSorted :
      (x : A) (ys : List A)
      → Q x
      → All Q ys
      → IsSorted less ys
      → IsSorted less (insert_sorted less x ys)
  unfolding insert_sorted
  insert_sorted-IsSorted x [] qx q s = (tt, tt)
  insert_sorted-IsSorted x (y ∷ ys) qx q s = elim (Bool-cases (less y x)) [
    | inl t ↦ rw t (
      All-insert_sorted less (λ z. less z y ≡ false) x ys (o.asymm y x q.0 qx t) s.0,
      insert_sorted-IsSorted x ys qx q.1 s.1,
    )
    | inr f ↦ rw f ((f, NoneLess-trans x y ys qx q.0 q.1 f s.0), s)
  ]

  pub sort_stable-IsSorted : (xs : List A) → All Q xs → IsSorted less (sort_stable less xs)
  unfolding sort_stable
  sort_stable-IsSorted [] q = tt
  sort_stable-IsSorted (x ∷ xs) q =
      insert_sorted-IsSorted x (sort_stable less xs) q.0 (All-sort_stable less Q xs q.1)
        (sort_stable-IsSorted xs q.1)

module _ {ℓ} {A : Type ℓ} (less : A → A → Bool) where
  -- What stands behind the first `n` of a sorted list is less than none of them.
  pub IsSorted-take :
      (n : ℕ) (xs : List A) → IsSorted less xs → All (λ x. NoneLess less x (drop n xs)) (take n xs)
  IsSorted-take zero xs s = tt
  IsSorted-take (suc n) [] s = tt
  IsSorted-take (suc n) (x ∷ xs) s = (NoneLess-drop x n xs s.0, IsSorted-take n xs s.1)
    where
      NoneLess-drop :
          (y : A) (m : ℕ) (ys : List A) → NoneLess less y ys → NoneLess less y (drop m ys)
      NoneLess-drop y zero ys h = h
      NoneLess-drop y (suc m) [] h = tt
      NoneLess-drop y (suc m) (z ∷ ys) h = NoneLess-drop y m ys h.1

module _ {ℓ} {A : Type ℓ} where
  take-append-drop : (n : ℕ) (xs : List A) → take n xs ++ drop n xs ≡ xs
  take-append-drop zero xs = refl
  take-append-drop (suc n) [] = refl
  take-append-drop (suc n) (x ∷ xs) = rw (take-append-drop n xs)

  IsSorted-prefix :
      (less : A → A → Bool) (n : ℕ) (xs : List A) → IsSorted less xs → IsSorted less (take n xs)
  IsSorted-prefix less zero xs s = tt
  IsSorted-prefix less (suc n) [] s = tt
  IsSorted-prefix less (suc n) (x ∷ xs) s =
      (All-take (λ y. less y x ≡ false) n xs s.0, IsSorted-prefix less n xs s.1)

-- `kept` is in order, and with a list of others it makes up `xs`, none of which comes before one that
-- is kept.
pub record AreFirst {ℓ} {A : Type ℓ} (less : A → A → Bool) (xs kept : List A) : Type ℓ where
  pub others : List A
  pub shared : Perm (kept ++ others) xs
  pub ordered : IsSorted less kept
  pub ahead : All (λ x. NoneLess less x others) kept

pub take_sorted-AreFirst {ℓ κ} :
    {A : Type ℓ} (less : A → A → Bool) (Q : A → Type κ)
    → IsOrder less Q
    → (n : ℕ) (xs : List A) → All Q xs
    → AreFirst less xs (take n (sort_stable less xs))
take_sorted-AreFirst less Q o n xs q =
    let sorted = sort_stable-IsSorted less Q o xs q in
    record {
      others = drop n (sort_stable less xs);
      shared = rw (take-append-drop n (sort_stable less xs)) (sort_stable-perm less xs);
      ordered = IsSorted-prefix less n (sort_stable less xs) sorted;
      ahead = IsSorted-take less n (sort_stable less xs) sorted;
    }
