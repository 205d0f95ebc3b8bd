-- ===== src/Base/Exec.antt =====
-- Methods with shared state: a method reads and writes the state, and returns a result or an error.
-- What was written before an error stays written.
use mathlib.Core.Path.{◌≡◌, refl}
use Prim.Native.String.{String}
use observai_api.Base.Errors.{Error, Result, ok, err, or_wrap}

abbrev pub Exec {ℓ} : Type 0 → Type ℓ → Type ℓ
Exec S A = S → Result A × S

module _ {ℓ} {S : Type 0} {A : Type ℓ} where
  abbrev pub pure : A → Exec S A
  pure a w = (ok a, w)

  abbrev pub fail : Error → Exec S A
  fail e w = (err e, w)

  abbrev pub lift : Result A → Exec S A
  lift r w = (r, w)

  abbrev pub gets : (S → A) → Exec S A
  gets f w = (ok (f w), w)

abbrev pub modify : {S : Type 0} → (S → S) → Exec S (Unit {0})
modify f w = (ok tt, f w)

abbrev pub continue {ℓ κ} :
    {S : Type 0} {A : Type ℓ} {B : Type κ} → Result A → (A → Exec S B) → Exec S B
continue (ok a) f w = f a w
continue (err e) f w = (err e, w)

infixl 5 ◌>>=◌
abbrev pub ◌>>=◌ {a b} :
    {S : Type 0} → {A : Type a} → {B : Type b} → Exec S A → (A → Exec S B) → Exec S B
◌>>=◌ first next w = let (r, w') = first w in continue r next w'

infixl 5 ◌>>◌
abbrev pub ◌>>◌ {a b} : {S : Type 0} → {A : Type a} → {B : Type b} → Exec S A → Exec S B → Exec S B
first >> second = first >>= λ _. second

-- `_ = m`: the error is dropped.
abbrev pub ignore {ℓ} : {S : Type 0} {A : Type ℓ} → Exec S A → Exec S (Unit {0})
ignore m w = let (r, w') = m w in (ok tt, w')

-- The result as a value, which the code goes on to test.
abbrev pub attempt {ℓ} : {S : Type 0} {A : Type ℓ} → Exec S A → Exec S (Result A)
attempt m w = let (r, w') = m w in (ok r, w')

-- `defer`: the final change is made whatever the body returns.
abbrev pub finally {ℓ} : {S : Type 0} {A : Type ℓ} → Exec S A → (S → S) → Exec S A
finally m f w = let (r, w') = m w in (r, f w')

-- fmt.Errorf("...: %w", err) around the error of a call.
abbrev pub wrapping {ℓ} : {S : Type 0} {A : Type ℓ} → String → Exec S A → Exec S A
wrapping message m w = let (r, w') = m w in (or_wrap message r, w')

-- Steps that agree on every value agree after a step before them.
pub continue-agree {ℓ κ} :
    {S : Type 0} {A : Type ℓ} {B : Type κ} (r : Result A) (f g : A → Exec S B) (w : S)
    → ((a : A) → f a w ≡ g a w)
    → continue r f w ≡ continue r g w
continue-agree (ok a) f g w h = h a
continue-agree (err e) f g w h = refl
