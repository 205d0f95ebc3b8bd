-- ===== src/Keys/Access/Issued.antt =====
-- internal/core/usecase/api_key.go: what Issue has done when it returns a key.
use observai_api.Base.{
  ℕ, String, false, List, [], ◌∷◌, none, ◌≡◌, refl, subst, arith, Bool-cases, inl, inr,
}
use observai_api.Base.Text.{trim_space, is_empty}
use observai_api.Base.Errors.{Result-cases, ok-injective, ok, err}
use observai_api.Domain.Analysis.{Time}
use observai_api.Keys.Types.{ApiKey, ApiKeyScope, IssuedApiKey, is_revoked, is_past}
use observai_api.Keys.Scopes.{normalize_api_key_scopes}
use observai_api.Keys.Access.{
  KeyState, KeyPorts, IssueApiKeyRequest, draw_id, generate_api_key_secret, issue_accepted,
  issue_scoped, issue,
}
use observai_api.Keys.Access.Token.{token_of}

-- What a successful Issue has done.
pub record IsIssued {S : Type 0} (ports : KeyPorts S) (request : IssueApiKeyRequest)
    (issued : IssuedApiKey) (after : S) : Type 0 where
  pub id_call : ℕ
  pub id : String
  pub secret_call : ℕ
  pub secret : String
  pub before : S
  pub drew_id : ports.next_id id_call ≡ ok id
  pub drew_secret : ports.random_hex secret_call ≡ ok secret
  pub stored : (ports.create issued.api_key before).0 ≡ ok tt
  pub is_after : (ports.create issued.api_key before).1 ≡ after
  pub is_token : issued.secret ≡ token_of id secret
  pub is_hash : issued.api_key.hash ≡ ports.hash_api_key secret
  pub live : is_revoked issued.api_key ≡ false
  pub same_expiry : issued.api_key.expires_at ≡ request.expires_at

module _ {S : Type 0} (ports : KeyPorts S) (request : IssueApiKeyRequest)
    (scopes : List ApiKeyScope) (now : Time) where
  -- The key that is stored for an identifier and a secret.
  abbrev new_key : String → String → ApiKey
  new_key id secret = record {
    id = id;
    name = trim_space request.name;
    description = trim_space request.description;
    hash = ports.hash_api_key secret;
    scopes = scopes;
    created_at = now;
    expires_at = request.expires_at;
    last_used_at = none;
    revoked_at = none;
  }

  issue_accepted-IsIssued :
      (w : KeyState S) (issued : IssuedApiKey)
      → (issue_accepted ports request scopes now w).0 ≡ ok issued
      → IsIssued ports request issued (issue_accepted ports request scopes now w).1.stored
  unfolding issue_accepted draw_id generate_api_key_secret
  issue_accepted-IsIssued w issued h = elim (Result-cases (ports.next_id w.ids_drawn)) [
    | inr (e, no_id) ↦ let q : err _ ≡ ok issued = rw no_id at h in absurd (ground arith)
    | inl (id, an_id) ↦ elim (Result-cases (ports.random_hex w.secrets_drawn)) [
      | inr (e, no_secret) ↦
          let q : err _ ≡ ok issued = rw (an_id, no_secret) at h in absurd (ground arith)
      | inl (secret, a_secret) ↦ elim (Result-cases (ports.create (new_key id secret) w.stored).0) [
        | inr (e, refused) ↦
            let q : err _ ≡ ok issued = rw (an_id, a_secret, refused) at h in absurd (ground arith)
        | inl (done, created) ↦
            let made : IssuedApiKey = record {
              api_key = new_key id secret;
              secret = token_of id secret;
            } in
            let q : ok made ≡ ok issued = rw (an_id, a_secret, created) at h in
            rw (an_id, a_secret, created)
              (subst (λ k. IsIssued ports request k (ports.create (new_key id secret) w.stored).1)
                (ok-injective made issued q)
                (record {
                  id_call = w.ids_drawn;
                  id = id;
                  secret_call = w.secrets_drawn;
                  secret = secret;
                  before = w.stored;
                  drew_id = an_id;
                  drew_secret = a_secret;
                  stored = created;
                  is_after = refl;
                  is_token = refl;
                  is_hash = refl;
                  live = refl;
                  same_expiry = refl;
                }))
      ]
    ]
  ]

module _ {S : Type 0} (ports : KeyPorts S) (request : IssueApiKeyRequest) (w : KeyState S)
    (issued : IssuedApiKey) where
  issue_scoped-IsIssued :
      (scopes : List ApiKeyScope)
      → (issue_scoped ports request scopes w).0 ≡ ok issued
      → IsIssued ports request issued (issue_scoped ports request scopes w).1.stored
  unfolding issue_scoped
  issue_scoped-IsIssued [] h = absurd (ground arith)
  issue_scoped-IsIssued (scope ∷ scopes) h = elim (Bool-cases (is_past request.expires_at w.time)) [
    | inl past ↦ let q : err _ ≡ ok issued = rw past at h in absurd (ground arith)
    | inr future ↦
        rw future
          (issue_accepted-IsIssued ports request (scope ∷ scopes) w.time w issued (rw future at h))
  ]

  pub issue-IsIssued :
      (issue ports request w).0 ≡ ok issued
      → IsIssued ports request issued (issue ports request w).1.stored
  unfolding issue
  issue-IsIssued h = elim (Bool-cases (is_empty (trim_space request.name))) [
    | inl blank ↦ let q : err _ ≡ ok issued = rw blank at h in absurd (ground arith)
    | inr named ↦ elim (Result-cases (normalize_api_key_scopes request.scopes)) [
      | inr (e, bad) ↦ let q : err e ≡ ok issued = rw (named, bad) at h in absurd (ground arith)
      | inl (scopes, good) ↦ rw (named, good) (issue_scoped-IsIssued scopes (rw (named, good) at h))
    ]
  ]
