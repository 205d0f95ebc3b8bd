-- ===== src/Base/Text/Plain.antt =====
-- Texts of characters that pass a test, as identifiers and random numbers in hexadecimal are.
use Prim.Native.Char.{Char, code}
use Prim.Native.Nat.{ℕ}
use Prim.Native.String.{String, ◌++◌}
use Prim.Native.String.append
use mathlib.Core.Bool.{Bool, true, not, ◌&&◌}
use mathlib.Core.Path.{◌≡◌, refl}
use native.Mathlib.Omega.{arith}
use observai_api.Base.Text.{is_space, trim_left, trim_right, trim_space, keep_before}

-- Every character passes the test.
abbrev pub all_chars : (ℕ → Bool) → String → Bool
all_chars p String.[] = true
all_chars p (String.◌∷◌ c s) = p (code c) && all_chars p s

abbrev pub is_solid : ℕ → Bool
is_solid c = not (is_space c)

pub all_chars-append :
    (p : ℕ → Bool) (s t : String)
    → all_chars p s ≡ true
    → all_chars p t ≡ true
    → all_chars p (s ++ t) ≡ true
all_chars-append p String.[] t hs ht = rw append.nil ht
all_chars-append p (String.◌∷◌ c s) t hs ht =
    rw append.cons (ground (arith, all_chars-append p s t))

trim_left_solid : (s : String) → all_chars is_solid s ≡ true → trim_left s ≡ s
unfolding trim_left
trim_left_solid String.[] h = refl
trim_left_solid (String.◌∷◌ c s) h = ground arith

keep_before_solid :
    (c : Char) (s : String) → is_solid (code c) ≡ true → keep_before c s ≡ String.◌∷◌ c s
keep_before_solid c String.[] h = ground arith
keep_before_solid c (String.◌∷◌ d s) h = refl

trim_right_solid : (s : String) → all_chars is_solid s ≡ true → trim_right s ≡ s
unfolding trim_right
trim_right_solid String.[] h = refl
trim_right_solid (String.◌∷◌ c s) h =
    rw (trim_right_solid s (ground arith)) (keep_before_solid c s (ground arith))

-- A text without white space is trimmed to itself.
pub trim_space_solid : (s : String) → all_chars is_solid s ≡ true → trim_space s ≡ s
unfolding trim_space
trim_space_solid s h = rw (trim_left_solid s h) (trim_right_solid s h)
