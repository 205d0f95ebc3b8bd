-- ===== src/Base/Dict/Laws.antt =====
-- Maps with one entry for each key.
use Prim.Native.String.{String}
use mathlib.Core.List.{[], ◌∷◌}
use mathlib.Core.Logic.{inl, inr}
use mathlib.Core.Option.{none, some}
use mathlib.Core.Path.{◌≡◌, refl}
use native.Mathlib.Omega.{arith}
use text.Mathlib.Text.{◌==◌}
use text.Mathlib.TextEquality.{eq_iff}
use text.Mathlib.TextPositions.{eq_refl}
use observai_api.Base.Tests.{Bool-cases}
use observai_api.Base.Lists.{All}
use observai_api.Base.Dict.{Dict, lookup, insert, lookup-insert}

module _ {ℓ} {V : Type ℓ} where
  -- Every key stands in one entry.
  abbrev pub IsMap : Dict V → Type ℓ
  IsMap [] = Unit
  IsMap ((k, v) ∷ m) = (lookup k m ≡ none) × IsMap m

  pub insert-IsMap : (k : String) (v : V) (m : Dict V) → IsMap m → IsMap (insert k v m)
  unfolding insert
  insert-IsMap k v [] h = (unfold lookup in refl, tt)
  insert-IsMap k v ((j, w) ∷ m) h = elim (Bool-cases (j == k)) [
    | inl same ↦ rw same h
    | inr other ↦
        let absent : lookup j (insert k v m) ≡ none =
          rw lookup-insert (ground (arith, eq_iff j k, eq_iff k j, h.0)) in
        rw other (absent, insert-IsMap k v m h.1)
  ]

  All-later :
      (j : String) (w : V) (m rest : Dict V)
      → lookup j rest ≡ none
      → All (λ entry. lookup entry.0 m ≡ some entry.1) rest
      → All (λ entry. lookup entry.0 ((j, w) ∷ m) ≡ some entry.1) rest
  unfolding lookup
  All-later j w m [] absent h = tt
  All-later j w m ((k, v) ∷ rest) absent h = elim (Bool-cases (j == k)) [
    | inl same ↦ absurd (ground (arith, eq_iff j k, eq_iff k j, eq_refl j))
    | inr other ↦ (rw other h.0, All-later j w m rest (ground (arith, eq_iff k j, eq_iff j k)) h.1)
  ]

  -- Every entry of a map is found under its key.
  pub entries_found : (m : Dict V) → IsMap m → All (λ entry. lookup entry.0 m ≡ some entry.1) m
  entries_found [] h = tt
  entries_found ((k, v) ∷ m) h =
      (unfold lookup in ground (arith, eq_refl k), All-later k v m m h.0 (entries_found m h.1))
