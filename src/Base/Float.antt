-- ===== src/Base/Float.antt =====
-- Go's `float64`, as far as the program compares it.
-- Every finite double is a whole multiple of 2^-1074, and an infinity compares as a multiple beyond
-- the largest double: `val n` stands for n units of 2^-1074. -0 and 0 compare as equal: both are 0.
use Prim.Native.Nat.{◌^◌}
use mathlib.Core.Bool.{Bool, true, false}
use mathlib.Core.Path.{◌≡◌, refl}
use mathlib.Core.Logic.{◌≢◌}
use native.Mathlib.Omega.{arith}
use observai_api.Base.Int.{ℤ, pos, ltb_ℤ, leb_ℤ}

pub data Float : Type 0 where
  nan : Float
  val : ℤ → Float

-- Comparisons with NaN are false.
abbrev pub lt_float : Float → Float → Bool
lt_float nan y = false
lt_float (val a) nan = false
lt_float (val a) (val b) = ltb_ℤ a b

abbrev pub le_float : Float → Float → Bool
le_float nan y = false
le_float (val a) nan = false
le_float (val a) (val b) = leb_ℤ a b

abbrev pub zero_float : Float
zero_float = val (pos 0)

unfoldable pub one_float : Float
one_float = val (pos (2 ^ 1074))

pub lt_float_asymm : (a b : Float) → lt_float a b ≡ true → lt_float b a ≡ false
lt_float_asymm nan b h = cc
lt_float_asymm (val a) nan h = cc
lt_float_asymm (val a) (val b) h = ground arith

pub lt_float_trans :
    (a b c : Float) → b ≢ nan → lt_float a b ≡ false → lt_float b c ≡ false → lt_float a c ≡ false
lt_float_trans nan b c n h k = refl
lt_float_trans (val a) nan c n h k = absurd (n refl)
lt_float_trans (val a) (val b) nan n h k = refl
lt_float_trans (val a) (val b) (val c) n h k = ground arith
