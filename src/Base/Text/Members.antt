-- ===== src/Base/Text/Members.antt =====
-- Membership of texts in a slice, as the Boolean loop and as the library's relation.
use mathlib.Core.Bool.{Bool-set}
use mathlib.Core.List.{
  List, [], ◌∷◌, ◌++◌, Mem, Nodup, Nodup-nil, Nodup-cons, Perm, mem-cons_self, mem-cons_of_mem,
  not-mem-nil, eq-or-mem_of_mem-cons, perm_append_singleton, perm_ext_iff_of_Nodup,
}
use mathlib.Core.List.Perm
use mathlib.Core.Logic.{◌↔◌, ∥∥₁_elim, inl, inr}
use mathlib.Core.Bool.{Bool, true, false, not, ◌&&◌}
use mathlib.Core.Path.{◌≡◌, refl, sym, subst, ◌∙◌}
use native.Mathlib.Omega.{arith}
use Prim.Native.String.{String}
use text.Mathlib.TextEquality.{eq_iff}
use observai_api.Base.Tests.{Bool-cases}
use observai_api.Base.Lists.{any, filter}
use observai_api.Base.Text.{str_eq}

any-mem : (s : String) (xs : List String) → Mem s xs → any (str_eq s) xs ≡ true
any-mem s [] m = absurd (not-mem-nil m)
any-mem s (x ∷ xs) m = ∥∥₁_elim (eq-or-mem_of_mem-cons m) (Bool-set _ _) (λ place. elim place [
  | inl e ↦ ground (arith, (eq_iff s x).1 e)
  | inr later ↦ ground (arith, any-mem s xs later)
])

mem-any : (s : String) (xs : List String) → any (str_eq s) xs ≡ true → Mem s xs
mem-any s [] h = absurd (ground arith)
mem-any s (x ∷ xs) h = elim (Bool-cases (str_eq s x)) [
  | inl t ↦ subst (λ y. Mem s (y ∷ xs)) ((eq_iff s x).0 t) mem-cons_self
  | inr f ↦ mem-cons_of_mem x (mem-any s xs (ground arith))
]

pub any-Mem : (s : String) (xs : List String) → (any (str_eq s) xs ≡ true) ↔ Mem s xs
any-Mem s xs = (mem-any s xs, any-mem s xs)

pub Nodup-snoc :
    (s : String) (xs : List String) → Nodup xs → any (str_eq s) xs ≡ false → Nodup (xs ++ s ∷ [])
Nodup-snoc s xs d absent =
    Perm.nodup (Perm.symm (perm_append_singleton s xs))
      (Nodup-cons.1 ((λ m. absurd (ground (arith, any-mem s xs m))), d))

-- Lists without repetition that pass the same membership tests hold the same texts.
pub same_members-perm :
    (xs ys : List String)
    → Nodup xs
    → Nodup ys
    → ((s : String) → any (str_eq s) xs ≡ any (str_eq s) ys)
    → Perm xs ys
same_members-perm xs ys dx dy h = (perm_ext_iff_of_Nodup dx dy).1 (λ s.
    (λ m. mem-any s ys (sym (h s) ∙ any-mem s xs m), λ m. mem-any s xs (h s ∙ any-mem s ys m)))

-- No text stands in the list twice.
abbrev pub all_distinct : List String → Bool
all_distinct [] = true
all_distinct (x ∷ xs) = not (any (str_eq x) xs) && all_distinct xs

pub all_distinct-Nodup : (xs : List String) → all_distinct xs ≡ true → Nodup xs
all_distinct-Nodup [] h = Nodup-nil
all_distinct-Nodup (x ∷ xs) h = Nodup-cons.1 (
  (λ m. let found = any-mem x xs m in absurd (ground arith)),
  all_distinct-Nodup xs (ground arith),
)

pub any-filter :
    (s : String) (p : String → Bool) (xs : List String)
    → any (str_eq s) (filter p xs) ≡ (any (str_eq s) xs && p s)
any-filter s p [] = refl
any-filter s p (x ∷ xs) = elim (Bool-cases (str_eq s x)) [
  | inl t ↦ let e : s ≡ x = (eq_iff s x).0 t in ground (arith, any-filter s p xs, e)
  | inr f ↦ ground (arith, any-filter s p xs, f)
]

pub filter-Nodup : (p : String → Bool) (xs : List String) → Nodup xs → Nodup (filter p xs)
filter-Nodup p [] d = d
filter-Nodup p (x ∷ xs) d = elim (Bool-cases (p x)) [
  | inl t ↦ rw t (Nodup-cons.1 (absent, filter-Nodup p xs (Nodup-cons.0 d).1))
  | inr f ↦ rw f (filter-Nodup p xs (Nodup-cons.0 d).1)
]
  where
    absent : Mem x (filter p xs) → ⊥
    absent m = elim (Bool-cases (any (str_eq x) xs)) [
      | inl t ↦ absurd ((Nodup-cons.0 d).0 (mem-any x xs t))
      | inr f ↦ let found = any-mem x (filter p xs) m in absurd (ground (arith, any-filter x p xs))
    ]
