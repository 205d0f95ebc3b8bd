-- ===== src/Base/Text/Split.antt =====
-- strings.Cut and strings.SplitN at a separator of one character.
use Prim.Native.Char.{Char, code}
use Prim.Native.Nat.{ℕ, zero, suc}
use Prim.Native.String.{String, ◌++◌}
use Prim.Native.String.append
use mathlib.Core.Bool.{Bool, true, not}
use mathlib.Core.List.{List, [], ◌∷◌}
use mathlib.Core.Option.{Option, none, some}
use mathlib.Core.Path.{◌≡◌}
use native.Mathlib.Omega.{arith}
use observai_api.Base.Tests.{◌==◌, if◌then◌else◌}
use observai_api.Base.Text.Plain.{all_chars}

-- The part before the separator, with a character put before it.
abbrev put_before : Char → String × String → String × String
put_before c (before, after) = (String.◌∷◌ c before, after)

-- What stands before and after the first separator, if there is one.
unfoldable pub cut : ℕ → String → Option (String × String)
cut sep String.[] = none
cut sep (String.◌∷◌ c s) =
    let rest = cut sep s in
    if code c == sep
    then some (String.[], s)
    else elim rest [ none ↦ none | some parts ↦ some (put_before c parts) ]

-- strings.SplitN with a limit above 0: at most so many parts, the last one not split.
unfoldable pub split_n : ℕ → ℕ → String → List String
unfolding cut
split_n sep zero s = []
split_n sep (suc zero) s = s ∷ []
split_n sep (suc (suc n)) s = elim (cut sep s) [
  | none ↦ s ∷ []
  | some (before, after) ↦ before ∷ split_n sep (suc n) after
]

abbrev pub is_not : ℕ → ℕ → Bool
is_not sep c = not (c == sep)

-- A text without the separator stands before the first one.
pub cut-append :
    (sep : ℕ) (s t : String) (d : Char)
    → all_chars (is_not sep) s ≡ true
    → code d ≡ sep
    → cut sep (s ++ String.◌∷◌ d t) ≡ some (s, t)
unfolding cut
cut-append sep String.[] t d h e = rw append.nil (ground arith)
cut-append sep (String.◌∷◌ c s) t d h e =
    let rest = cut-append sep s t d (ground arith) e in rw (append.cons, rest) (ground arith)
