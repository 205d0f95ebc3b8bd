-- ===== src/Keys/Access/Laws.antt =====
-- internal/core/usecase/api_key.go: a token that was issued gives its key back, until it expires.
use Prim.Native.String.{◌++◌}
use Prim.Native.String.append
use observai_api.Base.{ℕ, String, true, false, ◌≡◌, refl, ap, ◌∙◌, subst, is_some}
use observai_api.Base.Text.{is_space, is_empty}
use observai_api.Base.Text.Plain.{all_chars, all_chars-append, is_solid, trim_space_solid}
use observai_api.Base.Text.Split.{is_not}
use observai_api.Base.Errors.{Result, ok}
use observai_api.Domain.Analysis.{Time}
use observai_api.Keys.Types.{ApiKey, IssuedApiKey, is_revoked, is_expired, is_past}
use observai_api.Keys.Access.{KeyState, KeyPorts, IssueApiKeyRequest, issue, resolve}
use observai_api.Keys.Access.Issued.{issue-IsIssued}
use observai_api.Keys.Access.Token.{token_of, extract_raw_secret-token_of}

-- What the repository returns for the hash of a key that it has just stored.
pub record IsKept (key : ApiKey) (found : Result ApiKey) : Type 0 where
  pub kept : ApiKey
  pub is_found : found ≡ ok kept
  pub same_id : kept.id ≡ key.id
  pub same_scopes : kept.scopes ≡ key.scopes
  pub same_expiry : kept.expires_at ≡ key.expires_at
  pub same_revocation : kept.revoked_at ≡ key.revoked_at

-- What the use case relies on: a repository that persists keys, identifiers without white space and
-- underscores, and random numbers in hexadecimal digits.
pub record IsBackend {S : Type 0} (ports : KeyPorts S) : Type 0 where
  pub persists :
      (key : ApiKey) (s : S)
      → (ports.create key s).0 ≡ ok tt
      → IsKept key (ports.find_by_hash key.hash (ports.create key s).1).0
  pub id_solid : (n : ℕ) (id : String) → ports.next_id n ≡ ok id → all_chars is_solid id ≡ true
  pub id_plain : (n : ℕ) (id : String) → ports.next_id n ≡ ok id → all_chars (is_not b'_') id ≡ true
  pub secret_solid :
      (n : ℕ) (secret : String) → ports.random_hex n ≡ ok secret → all_chars is_solid secret ≡ true

token_of-solid :
    (id secret : String)
    → all_chars is_solid id ≡ true
    → all_chars is_solid secret ≡ true
    → all_chars is_solid (token_of id secret) ≡ true
unfolding token_of is_space
token_of-solid id secret hi hs =
    all_chars-append is_solid "oai_" (id ++ ("_" ++ secret)) refl (
      all_chars-append is_solid id ("_" ++ secret) hi
        (all_chars-append is_solid "_" secret refl hs))

token_of-nonempty : (id secret : String) → is_empty (token_of id secret) ≡ false
unfolding token_of
token_of-nonempty id secret = rw append.cons refl

module _ {S : Type 0} (ports : KeyPorts S) (backend : IsBackend ports) where
  -- What Resolve answers when the key that was stored last is looked up by its token.
  resolve-token :
      (key : ApiKey) (id secret : String) (s : S) (w : KeyState S)
      → (ports.create key s).0 ≡ ok tt
      → (ports.create key s).1 ≡ w.stored
      → key.hash ≡ ports.hash_api_key secret
      → all_chars is_solid id ≡ true
      → all_chars is_solid secret ≡ true
      → all_chars (is_not b'_') id ≡ true
      → is_revoked key ≡ false
      → is_expired key w.time ≡ false
      → (found : ApiKey) × ((resolve ports (token_of id secret) w).0 ≡ ok found)
        × (found.id ≡ key.id)
        × (found.scopes ≡ key.scopes)
  unfolding resolve
  resolve-token key id secret s w stored same hash hi hs hp live fresh =
      let solid = token_of-solid id secret hi hs in
      let k = backend.persists key s stored in
      let hit : (ports.find_by_hash (ports.hash_api_key secret) w.stored).0 ≡ ok k.kept =
        subst (λ h. (ports.find_by_hash h w.stored).0 ≡ ok k.kept) hash
          (subst (λ t. (ports.find_by_hash key.hash t).0 ≡ ok k.kept) same k.is_found) in
      let live' : is_revoked k.kept ≡ false = ap is_some k.same_revocation ∙ live in
      let fresh' : is_expired k.kept w.time ≡ false =
        ap (λ t. is_past t w.time) k.same_expiry ∙ fresh in
      (
        k.kept,
        rw
            (
              trim_space_solid (token_of id secret) solid,
              token_of-nonempty id secret,
              extract_raw_secret-token_of id secret hp,
              hit,
              live',
              fresh',
            )
            refl,
        k.same_id,
        k.same_scopes,
      )

  -- If Issue returns a key with its token, then Resolve of that token, at any time when the key has not
  -- expired, finds a key with the same identifier and the same scopes. The repository is one that
  -- returns what it has stored, identifiers have neither white space nor underscores, and random
  -- numbers no white space.
  pub resolve-issue :
      (request : IssueApiKeyRequest) (w : KeyState S) (issued : IssuedApiKey) (later : Time)
      → (issue ports request w).0 ≡ ok issued
      → is_past request.expires_at later ≡ false
      → (found : ApiKey) × ((resolve ports issued.secret
            (record (issue ports request w).1 { time = later })).0
          ≡ ok found)
        × (found.id ≡ issued.api_key.id)
        × (found.scopes ≡ issued.api_key.scopes)
  resolve-issue request w issued later h fresh =
      let i = issue-IsIssued ports request w issued h in
      rw i.is_token (
        resolve-token issued.api_key i.id i.secret i.before
          (record (issue ports request w).1 { time = later }) i.stored i.is_after i.is_hash
          (backend.id_solid i.id_call i.id i.drew_id)
          (backend.secret_solid i.secret_call i.secret i.drew_secret)
          (backend.id_plain i.id_call i.id i.drew_id) i.live
          (ap (λ t. is_past t later) i.same_expiry ∙ fresh))
