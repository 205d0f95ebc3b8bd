-- ===== src/Auth/Tokens.antt =====
-- internal/adapters/outbound/inmemory/refresh_token_repository.go. Each method holds the repository's
-- lock, so it is one step; the tokens are stored under their hashes.
pub mod Laws
use text.Mathlib.Text.{◌==◌}
use observai_api.Base.{String, Bool, not, ◌||◌, [], ◌∷◌, Option, none, some, if◌then◌else◌}
use observai_api.Base.Dict.{Dict, lookup, insert, map_values}
use observai_api.Base.Errors.{Error, Result, ok, err, error, invalid_refresh_token}
use observai_api.Base.Exec.{Exec}
use observai_api.Domain.Analysis.{Time}
use observai_api.Auth.Types.{RefreshToken, is_revoked, AuthState}

abbrev pub invalid_token : Error
invalid_token = error invalid_refresh_token "invalid refresh token"

abbrev pub with_tokens : Dict RefreshToken → AuthState → AuthState
with_tokens tokens w = record w { tokens = tokens }

-- Create
unfoldable pub create_token : RefreshToken → AuthState → AuthState
create_token token w = with_tokens (insert token.token_hash token w.tokens) w

abbrev pub or_invalid : Option RefreshToken → Result RefreshToken
or_invalid none = err invalid_token
or_invalid (some token) = ok token

-- FindByHash
unfoldable pub find_by_hash : String → Exec AuthState RefreshToken
find_by_hash hash w = (or_invalid (lookup hash w.tokens), w)

-- The loop of Revoke: the first token with the identifier that is not revoked yet.
unfoldable pub revoke_first : String → Option String → Time → Dict RefreshToken → Dict RefreshToken
revoke_first id replaced_by at [] = []
revoke_first id replaced_by at ((hash, token) ∷ tokens) =
    let rest = revoke_first id replaced_by at tokens in
    if not (token.id == id) || is_revoked token
    then (hash, token) ∷ rest
    else (hash, record token { revoked_at = some at; replaced_by = replaced_by }) ∷ tokens

-- Revoke
unfoldable pub revoke : String → Option String → Time → AuthState → AuthState
unfolding revoke_first
revoke id replaced_by at w = with_tokens (revoke_first id replaced_by at w.tokens) w

-- The body of the loops below, for the tokens that pass a test.
unfoldable pub revoke_if : (RefreshToken → Bool) → Time → RefreshToken → RefreshToken
revoke_if test at token =
    if not (test token) || is_revoked token then token else record token { revoked_at = some at }

-- RevokeFamily
unfoldable pub revoke_family : String → Time → AuthState → AuthState
unfolding revoke_if map_values
revoke_family family at w =
    with_tokens (map_values (revoke_if (λ token. token.family_id == family) at) w.tokens) w

-- RevokeAllForUser
unfoldable pub revoke_all_for_user : String → Time → AuthState → AuthState
unfolding revoke_if map_values
revoke_all_for_user user at w =
    with_tokens (map_values (revoke_if (λ token. token.user_id == user) at) w.tokens) w
