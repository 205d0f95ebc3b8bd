-- ===== src/Keys/Access/Token.antt =====
-- internal/core/usecase/api_key.go: the token that Issue hands out and the secret that Resolve takes
-- from it.
use Prim.Native.Char.{Char, char}
use Prim.Native.String.{◌++◌}
use Prim.Native.String.append
use observai_api.Base.{String, true, List, [], ◌∷◌, ◌≡◌, refl, ap, ◌∙◌, if◌then◌else◌}
use observai_api.Base.Text.{has_prefix}
use observai_api.Base.Text.Plain.{all_chars}
use observai_api.Base.Text.Split.{split_n, cut, cut-append, is_not}

-- "oai_" + id + "_" + secret
unfoldable pub token_of : String → String → String
token_of id secret = "oai_" ++ (id ++ ("_" ++ secret))

-- What SplitN returns, if there are three parts.
abbrev third_or : String → List String → String
third_or token (a ∷ b ∷ c ∷ []) = c
third_or token _ = token

-- extractRawSecret
unfoldable pub extract_raw_secret : String → String
unfolding has_prefix split_n
extract_raw_secret token =
    if has_prefix token "oai_" then third_or token (split_n b'_' 3 token) else token

abbrev underscore : Char
underscore = char b'_' tt

one_before : (s : String) → "_" ++ s ≡ String.◌∷◌ underscore s
one_before s = append.cons underscore "" s ∙ ap (String.◌∷◌ underscore) (append.nil s)

-- The first characters of a token, one by one.
oai_before : String → String
oai_before s =
    String.◌∷◌ (char b'o' tt)
      (String.◌∷◌ (char b'a' tt) (String.◌∷◌ (char b'i' tt) (String.◌∷◌ underscore s)))

oai_prefix : (s : String) → "oai_" ++ s ≡ oai_before s
unfolding oai_before
oai_prefix s = rw (append.cons, append.cons, append.cons, one_before) refl

-- The secret is taken out of a token whose identifier has no underscore.
pub extract_raw_secret-token_of :
    (id secret : String)
    → all_chars (is_not b'_') id ≡ true
    → extract_raw_secret (token_of id secret) ≡ secret
unfolding extract_raw_secret token_of split_n has_prefix oai_before cut
extract_raw_secret-token_of id secret h =
    rw (oai_prefix, one_before) (rw (cut-append b'_' id secret underscore h refl) refl)
