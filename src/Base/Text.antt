-- ===== src/Base/Text.antt =====
-- What the program uses of Go's package strings. Letter case is that of ASCII and Latin-1; white space is
-- Unicode's, as in strings.TrimSpace.
pub mod Order
pub mod Plain
pub mod Members
pub mod Split
pub mod Words
use Prim.Native.Char.{Char, code}
use Prim.Native.Nat.{ℕ, zero, suc, ◌+◌, ◌-◌, ◌/◌, ◌%◌}
use Prim.Native.String.{String}
use mathlib.Core.Bool.{Bool, true, false, not, ◌&&◌, ◌||◌}
use text.Mathlib.Text.{◌==◌ as str_eq}
pub use text.Mathlib.Text.{◌==◌ as str_eq}
use observai_api.Base.Tests.{ltb, leb, ◌==◌, if◌then◌else◌}

-- unicode.IsSpace
unfoldable pub is_space : ℕ → Bool
is_space c =
    (leb 9 c && leb c 13)
    || c == 32
    || c == 0x85
    || c == 0xA0
    || c == 0x1680
    || (leb 0x2000 c && leb c 0x200a)
    || c == 0x2028
    || c == 0x2029
    || c == 0x202f
    || c == 0x205f
    || c == 0x3000

unfoldable pub trim_left : String → String
trim_left String.[] = String.[]
trim_left (String.◌∷◌ c s) = if is_space (code c) then trim_left s else String.◌∷◌ c s

-- The character stays unless nothing but white space follows and it is white space too.
abbrev pub keep_before : Char → String → String
keep_before c String.[] = if is_space (code c) then String.[] else String.◌∷◌ c String.[]
keep_before c (String.◌∷◌ d s) = String.◌∷◌ c (String.◌∷◌ d s)

unfoldable pub trim_right : String → String
trim_right String.[] = String.[]
trim_right (String.◌∷◌ c s) = keep_before c (trim_right s)

unfoldable pub trim_space : String → String
unfolding trim_left trim_right is_space
trim_space s = trim_right (trim_left s)

abbrev char_at_or : String → ℕ → Char → Char
char_at_or String.[] n d = d
char_at_or (String.◌∷◌ c s) zero d = c
char_at_or (String.◌∷◌ c s) (suc n) d = char_at_or s n d

unfoldable pub lower_char : Char → Char
lower_char c =
    if leb b'A' (code c) && leb (code c) b'Z'
    then char_at_or "abcdefghijklmnopqrstuvwxyz" (code c - b'A') c
    else if leb 0xC0 (code c) && leb (code c) 0xDE && not (code c == 0xD7)
    then char_at_or "àáâãäåæçèéêëìíîïðñòóôõö×øùúûüýþ" (code c - 0xC0) c
    else c

unfoldable pub to_lower : String → String
unfolding lower_char
to_lower String.[] = String.[]
to_lower (String.◌∷◌ c s) = String.◌∷◌ (lower_char c) (to_lower s)

unfoldable pub equal_fold : String → String → Bool
unfolding to_lower
equal_fold s t = str_eq (to_lower s) (to_lower t)

unfoldable pub has_prefix : String → String → Bool
has_prefix s String.[] = true
has_prefix String.[] (String.◌∷◌ d t) = false
has_prefix (String.◌∷◌ c s) (String.◌∷◌ d t) = code c == code d && has_prefix s t

unfoldable pub contains : String → String → Bool
unfolding has_prefix
contains String.[] t = has_prefix String.[] t
contains (String.◌∷◌ c s) t = has_prefix (String.◌∷◌ c s) t || contains s t

abbrev pub is_empty : String → Bool
is_empty String.[] = true
is_empty (String.◌∷◌ c s) = false

-- The bytes of a character and of a string in UTF-8.
abbrev utf8_size : ℕ → ℕ
utf8_size c = if ltb c 0x80 then 1 else if ltb c 0x800 then 2 else if ltb c 0x10000 then 3 else 4

unfoldable pub byte_length : String → ℕ
byte_length String.[] = 0
byte_length (String.◌∷◌ c s) = utf8_size (code c) + byte_length s

-- The digits of a number, least significant first, on fuel.
abbrev digits_of : ℕ → ℕ → String → String
digits_of zero n done = done
digits_of (suc fuel) n done =
    let rest = digits_of fuel (n / 10) (String.◌∷◌ (char_at_or "0123456789" (n % 10) "0") done) in
    let last = String.◌∷◌ (char_at_or "0123456789" (n % 10) "0") done in
    if ltb n 10 then last else rest

-- strconv.Itoa of a number that is not negative; a number has fewer digits than its value plus one.
unfoldable pub decimal : ℕ → String
decimal n = digits_of (suc n) n ""
