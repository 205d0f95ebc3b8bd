-- ===== src/Keys/Scopes.antt =====
-- internal/core/domain/api_key.go: NormalizeAPIKeyScopes.
pub mod Laws
use observai_api.Base.{String, Bool, not, ◌&&◌, List, [], ◌∷◌, ◌++◌, any, if◌then◌else◌}
use observai_api.Base.Text.{trim_space, to_lower, is_empty, str_eq}
use observai_api.Base.Text.Order.{lt_string}
use observai_api.Base.Errors.{Error, Result, ok, err, error, invalid_api_key, ◌>>=◌}
use observai_api.Base.Sorting.{sort_stable}
use observai_api.Keys.Types.{ApiKeyScope, is_valid_api_key_scope}

abbrev pub invalid_key : Error
invalid_key = error invalid_api_key "invalid api key"

-- strings.ToLower(strings.TrimSpace(...))
unfoldable pub clean_scope : String → ApiKeyScope
unfolding trim_space to_lower
clean_scope raw = to_lower (trim_space raw)

-- The loop, with the set of scopes seen and the scopes kept.
unfoldable pub normalize_from :
    List String → List ApiKeyScope → List ApiKeyScope → Result (List ApiKeyScope)
unfolding clean_scope is_valid_api_key_scope
normalize_from [] seen out = ok out
normalize_from (raw ∷ rest) seen out =
    let scope = clean_scope raw in
    let skipped = normalize_from rest seen out in
    let kept = normalize_from rest (seen ++ scope ∷ []) (out ++ scope ∷ []) in
    if is_empty scope
    then skipped
    else if not (is_valid_api_key_scope scope)
    then err invalid_key
    else if any (str_eq scope) seen
    then skipped
    else kept

abbrev sorted_scopes : List ApiKeyScope → Result (List ApiKeyScope)
sorted_scopes out = ok (sort_stable lt_string out)

unfoldable pub normalize_api_key_scopes : List String → Result (List ApiKeyScope)
unfolding normalize_from sort_stable lt_string
normalize_api_key_scopes [] = ok []
normalize_api_key_scopes (raw ∷ rest) = normalize_from (raw ∷ rest) [] [] >>= sorted_scopes
