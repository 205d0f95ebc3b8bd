-- ===== src/Base/Text/Words.antt =====
-- strings.Trim, strings.ContainsAny, strings.Fields and strings.Join.
use Prim.Native.Char.{Char, code}
use Prim.Native.Nat.{ℕ}
use Prim.Native.String.{String, ◌++◌}
use mathlib.Core.Bool.{Bool, false, ◌||◌}
use mathlib.Core.List.{List, [], ◌∷◌}
use observai_api.Base.Tests.{◌==◌, if◌then◌else◌}
use observai_api.Base.Text.{is_space, is_empty}

-- Whether the character with this code stands in the text.
abbrev pub has_char : String → ℕ → Bool
has_char String.[] n = false
has_char (String.◌∷◌ c s) n = code c == n || has_char s n

unfoldable pub trim_left_set : String → String → String
trim_left_set set String.[] = String.[]
trim_left_set set (String.◌∷◌ c s) =
    let rest = trim_left_set set s in if has_char set (code c) then rest else String.◌∷◌ c s

abbrev drop_if_last : String → Char → String → String
drop_if_last set c String.[] = if has_char set (code c) then String.[] else String.◌∷◌ c String.[]
drop_if_last set c (String.◌∷◌ d s) = String.◌∷◌ c (String.◌∷◌ d s)

unfoldable pub trim_right_set : String → String → String
trim_right_set set String.[] = String.[]
trim_right_set set (String.◌∷◌ c s) = drop_if_last set c (trim_right_set set s)

-- strings.Trim
unfoldable pub trim : String → String → String
unfolding trim_left_set trim_right_set
trim s set = trim_right_set set (trim_left_set set s)

unfoldable pub contains_any : String → String → Bool
contains_any String.[] set = false
contains_any (String.◌∷◌ c s) set = has_char set (code c) || contains_any s set

-- The character in front of the first word, or as a word of its own before a gap.
abbrev extend_word : Char → String × List String → String × List String
extend_word c (word, words) = (String.◌∷◌ c word, words)

abbrev end_word : String × List String → String × List String
end_word (word, words) = if is_empty word then (String.[], words) else (String.[], word ∷ words)

-- The word that the text begins with, which is empty before white space, and the words after it.
unfoldable pub words_of : String → String × List String
unfolding is_space
words_of String.[] = (String.[], [])
words_of (String.◌∷◌ c s) =
    let rest = words_of s in if is_space (code c) then end_word rest else extend_word c rest

abbrev all_words : String × List String → List String
all_words (word, words) = if is_empty word then words else word ∷ words

-- strings.Fields
unfoldable pub fields : String → List String
unfolding words_of
fields s = all_words (words_of s)

-- strings.Join
unfoldable pub join : List String → String → String
join [] sep = ""
join (s ∷ []) sep = s
join (s ∷ t ∷ rest) sep = s ++ (sep ++ join (t ∷ rest) sep)

-- strings.Map with a function on codes that keeps a character or puts another in its place.
abbrev pub map_chars : (Char → Char) → String → String
map_chars f String.[] = String.[]
map_chars f (String.◌∷◌ c s) = String.◌∷◌ (f c) (map_chars f s)
