-- ===== src/Keys/Access.antt =====
-- internal/core/usecase/api_key.go, over the repository of internal/core/ports/api_key.go.
pub mod Token
pub mod Issued
pub mod Laws
use observai_api.Base.{ℕ, suc, zero, String, Bool, List, [], ◌∷◌, Option, none, if◌then◌else◌}
use Prim.Native.String.{◌++◌}
use observai_api.Base.Int.{ℤ, pos, negsuc}
use observai_api.Base.Text.{trim_space, is_empty}
use observai_api.Base.Errors.{
  Error, Result, ok, err, error, wrap, invalid_api_key, api_key_not_found, api_key_revoked,
  api_key_expired,
}
use observai_api.Base.Exec.{◌>>=◌, ◌>>◌, Exec, pure, fail, lift, gets, ignore, attempt, wrapping}
use observai_api.Domain.Analysis.{Time}
use observai_api.Keys.Types.{ApiKey, ApiKeyScope, IssuedApiKey, is_revoked, is_expired, is_past}
use observai_api.Keys.Scopes.{normalize_api_key_scopes}
use observai_api.Keys.Access.Token.{extract_raw_secret, token_of}

-- The state of the use case and its collaborators: `stored` is the state of the repository.
pub record KeyState (S : Type 0) : Type 0 where
  pub time : Time
  pub ids_drawn : ℕ
  pub secrets_drawn : ℕ
  pub stored : S

-- APIKeyRepository, the generator of identifiers and of random numbers in hexadecimal, and HashAPIKey
-- (SHA-256 in hexadecimal).
pub record KeyPorts (S : Type 0) : Type 0 where
  pub create : ApiKey → Exec S (Unit {0})
  pub find_by_hash : String → Exec S ApiKey
  pub list : ℕ → ℕ → Exec S (List ApiKey)
  pub revoke : String → Exec S (Unit {0})
  pub touch_last_used : String → Exec S (Unit {0})
  pub next_id : ℕ → Result String
  pub random_hex : ℕ → Result String
  pub hash_api_key : String → String

pub record IssueApiKeyRequest : Type 0 where
  pub name : String
  pub description : String
  pub scopes : List String
  pub expires_at : Option Time

abbrev pub invalid : String → Error
invalid why = error invalid_api_key ("invalid api key: " ++ why)

abbrev pub key_not_found : Error
key_not_found = error api_key_not_found "api key not found"

abbrev pub key_revoked : Error
key_revoked = error api_key_revoked "api key revoked"

abbrev pub key_expired : Error
key_expired = error api_key_expired "api key expired"

module _ {S : Type 0} where
  -- A call of the repository.
  abbrev pub in_repository {ℓ} : {A : Type ℓ} → Exec S A → Exec (KeyState S) A
  in_repository m w = let (r, s) = m w.stored in (r, record w { stored = s })

  module _ (ports : KeyPorts S) where
    unfoldable pub draw_id : Exec (KeyState S) String
    draw_id w = (ports.next_id w.ids_drawn, record w { ids_drawn = suc w.ids_drawn })

    -- generateAPIKeySecret
    unfoldable pub generate_api_key_secret : Exec (KeyState S) String
    generate_api_key_secret w =
        (ports.random_hex w.secrets_drawn, record w { secrets_drawn = suc w.secrets_drawn })

    -- Issue, once the request is accepted.
    unfoldable pub issue_accepted :
        IssueApiKeyRequest → List ApiKeyScope → Time → Exec (KeyState S) IssuedApiKey
    unfolding draw_id generate_api_key_secret trim_space
    issue_accepted request scopes now = do
      id ← wrapping "generate api key id" draw_id
      secret ← wrapping "generate api key secret" generate_api_key_secret
      let key : ApiKey = record {
        id = id;
        name = trim_space request.name;
        description = trim_space request.description;
        hash = ports.hash_api_key secret;
        scopes = scopes;
        created_at = now;
        expires_at = request.expires_at;
        last_used_at = none;
        revoked_at = none;
      }
      wrapping "persist api key" (in_repository (ports.create key))
      pure (record { api_key = key; secret = token_of id secret })

    -- Issue, from the test of the scopes on.
    unfoldable pub issue_scoped :
        IssueApiKeyRequest → List ApiKeyScope → Exec (KeyState S) IssuedApiKey
    unfolding issue_accepted
    issue_scoped request [] = fail (invalid "at least one scope is required")
    issue_scoped request (scope ∷ scopes) = do
      now ← gets (λ w. w.time)
      if is_past request.expires_at now
          then fail (invalid "expiresAt must be in the future")
          else issue_accepted request (scope ∷ scopes) now

    -- Issue
    unfoldable pub issue : IssueApiKeyRequest → Exec (KeyState S) IssuedApiKey
    unfolding issue_scoped trim_space normalize_api_key_scopes
    issue request =
        if is_empty (trim_space request.name)
        then fail (invalid "name is required")
        else do scopes ← lift (normalize_api_key_scopes request.scopes); issue_scoped request scopes

    abbrev page_limit : ℤ → ℕ
    page_limit (pos zero) = 50
    page_limit (pos (suc n)) = suc n
    page_limit (negsuc n) = 50

    abbrev page_offset : ℤ → ℕ
    page_offset (pos n) = n
    page_offset (negsuc n) = 0

    -- List
    unfoldable pub list_keys : ℤ → ℤ → Exec (KeyState S) (List ApiKey)
    list_keys limit offset = in_repository (ports.list (page_limit limit) (page_offset offset))

    -- Revoke
    unfoldable pub revoke_key : String → Exec (KeyState S) (Unit {0})
    unfolding trim_space
    revoke_key id =
        if is_empty (trim_space id)
        then fail (invalid "id is required")
        else in_repository (ports.revoke (trim_space id))

    -- What Resolve makes of an error of FindByHash.
    abbrev pub resolve_error : Error → Error
    resolve_error e = elim e.sentinel [ api_key_not_found ↦ e | _ ↦ wrap "resolve api key" e ]

    abbrev pub resolve_found : Result ApiKey → Exec (KeyState S) ApiKey
    resolve_found (err e) w = (err (resolve_error e), w)
    resolve_found (ok key) w =
        if is_revoked key
        then (err key_revoked, w)
        else if is_expired key w.time
        then (err key_expired, w)
        else (ok key, (ignore (in_repository (ports.touch_last_used key.id)) w).1)

    -- Resolve
    unfoldable pub resolve : String → Exec (KeyState S) ApiKey
    unfolding trim_space extract_raw_secret
    resolve secret = if is_empty (trim_space secret) then fail key_not_found else do
      let hash = ports.hash_api_key (extract_raw_secret (trim_space secret))
      found ← attempt (in_repository (ports.find_by_hash hash))
      resolve_found found
