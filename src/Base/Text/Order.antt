-- ===== src/Base/Text/Order.antt =====
-- The order `<` of Go's strings. Go compares bytes; UTF-8 keeps the order of the code points.
use Prim.Native.Char.{code}
use Prim.Native.String.{String}
use mathlib.Core.Bool.{Bool, true, false, ◌&&◌, ◌||◌}
use mathlib.Core.Path.{◌≡◌, refl, ap₂}
use native.Mathlib.Omega.{arith}
use text.Mathlib.TextEquality.{Char-path}
use observai_api.Base.Tests.{ltb, ◌==◌}

unfoldable pub lt_string : String → String → Bool
lt_string s String.[] = false
lt_string String.[] (String.◌∷◌ d t) = true
lt_string (String.◌∷◌ c s) (String.◌∷◌ d t) =
    ltb (code c) (code d) || (code c == code d && lt_string s t)

pub lt_string_irrefl : (s : String) → lt_string s s ≡ false
unfolding lt_string
lt_string_irrefl String.[] = refl
lt_string_irrefl (String.◌∷◌ c s) = ground (arith, lt_string_irrefl s)

pub lt_string_asymm : (s t : String) → lt_string s t ≡ true → lt_string t s ≡ false
unfolding lt_string
lt_string_asymm String.[] t h = refl
lt_string_asymm (String.◌∷◌ c s) String.[] h = ground arith
lt_string_asymm (String.◌∷◌ c s) (String.◌∷◌ d t) h = ground (arith, lt_string_asymm s t)

pub lt_string_trans :
    (r s t : String) → lt_string s r ≡ false → lt_string t s ≡ false → lt_string t r ≡ false
unfolding lt_string
lt_string_trans String.[] s t h k = refl
lt_string_trans (String.◌∷◌ c r) String.[] t h k = ground arith
lt_string_trans (String.◌∷◌ c r) (String.◌∷◌ d s) String.[] h k = ground arith
lt_string_trans (String.◌∷◌ c r) (String.◌∷◌ d s) (String.◌∷◌ e t) h k =
    ground (arith, lt_string_trans r s t)

pub lt_string_total : (s t : String) → lt_string s t ≡ false → lt_string t s ≡ false → s ≡ t
unfolding lt_string
lt_string_total String.[] String.[] h k = refl
lt_string_total String.[] (String.◌∷◌ d t) h k = ground arith
lt_string_total (String.◌∷◌ c s) String.[] h k = ground arith
lt_string_total (String.◌∷◌ c s) (String.◌∷◌ d t) h k =
    ap₂ String.◌∷◌ (Char-path c d (ground arith))
      (lt_string_total s t (ground arith) (ground arith))
