-- ===== src/Auth/Sessions/Rotation.antt =====
-- internal/core/usecase/auth.go: Refresh replaces the token that is presented, which then counts as
-- replayed.
use text.Mathlib.Text.{◌==◌}
use observai_api.Base.{
  ℕ, String, Bool, true, false, not, [], ◌∷◌, some, ◌≡◌, refl, ap, sym, ◌∙◌, subst, arith,
  Bool-cases, Option-cases, inl, inr, eq_iff, if◌then◌else◌,
}
use observai_api.Base.Text.{is_empty}
use observai_api.Base.Dict.{Dict, lookup, insert, lookup-insert}
use observai_api.Base.Errors.{Result, ok, err}
use observai_api.Base.Exec.{Exec, fail}
use observai_api.Auth.Types.{
  User, RefreshToken, is_revoked, is_expired, AuthSession, AuthOptions, AuthPorts, AuthState,
}
use observai_api.Auth.Users.{or_missing_user, find_by_id}
use observai_api.Auth.Tokens.{invalid_token, find_by_hash, revoke_first}
use observai_api.Auth.Tokens.Laws.{AllRevoked, OnlyAt, revoke_first-revokes}
use observai_api.Auth.Sessions.{issue_session, rotate_for, refresh_user, refresh}
use observai_api.Auth.Sessions.Laws.{refresh_reuse}
use observai_api.Auth.Sessions.Issue.{issue_session-Issued}

OnlyAt-insert :
    (hash id key : String) (new : RefreshToken) (tokens : Dict RefreshToken)
    → (new.id == id) ≡ false
    → OnlyAt hash id tokens
    → OnlyAt hash id (insert key new tokens)
unfolding insert
OnlyAt-insert hash id key new [] other only =
    ((λ e. absurd (ground (arith, eq_iff new.id id, e))), tt)
OnlyAt-insert hash id key new ((k, t) ∷ tokens) other only = elim (Bool-cases (k == key)) [
  | inl here ↦ rw here ((λ e. absurd (ground (arith, eq_iff new.id id, e))), only.1)
  | inr elsewhere ↦ rw elsewhere (only.0, OnlyAt-insert hash id key new tokens other only.1)
]

-- What is asked of the tokens and of what the generators may still draw, for one stored token: it has
-- an identifier, which no other stored token has and which is not drawn, and its hash is not that of a
-- secret that is drawn.
pub record IsDistinct (ports : AuthPorts) (hash : String) (token : RefreshToken)
    (tokens : Dict RefreshToken) : Type 0 where
  pub named : is_empty token.id ≡ false
  pub only : OnlyAt hash token.id tokens
  pub new_ids : (n : ℕ) (id : String) → ports.next_id n ≡ ok id → (id == token.id) ≡ false
  pub new_hashes :
      (n : ℕ) (s : String) → ports.random_hex n ≡ ok s → (ports.hash_token s == hash) ≡ false

issued_revokes :
    (ports : AuthPorts) (opts : AuthOptions) (user : User) (token : RefreshToken) (hash : String)
    (w : AuthState) (s : AuthSession)
    → IsDistinct ports hash token w.tokens
    → lookup hash w.tokens ≡ some token
    → is_revoked token ≡ false
    → let out =
        issue_session ports opts user w.time
          (record { family_id = token.family_id; replace_id = token.id })
          w in
      out.0 ≡ ok s
      → (old : RefreshToken) × (lookup hash out.1.tokens ≡ some old)
        × (is_revoked old ≡ true)
        × (old.family_id ≡ token.family_id)
issued_revokes ports opts user token hash w s distinct found fresh p =
    let i =
      issue_session-Issued ports opts user w.time
        (record { family_id = token.family_id; replace_id = token.id }) w.tokens w refl s p in
    let new_id = distinct.new_ids i.id_call i.new.id i.drawn in
    let new_hash : (i.new.token_hash == hash) ≡ false =
      ap (λ h. h == hash) i.hashed ∙ distinct.new_hashes i.secret_call i.secret i.random in
    let inserted = insert i.new.token_hash i.new w.tokens in
    let still : lookup hash inserted ≡ some token =
      lookup-insert hash i.new.token_hash i.new w.tokens
      ∙ ap (λ b. if b then some i.new else lookup hash w.tokens) new_hash
      ∙ found in
    let only = OnlyAt-insert hash token.id i.new.token_hash i.new w.tokens new_id distinct.only in
    let revoked =
      revoke_first-revokes hash (some i.new.id) w.time token inserted only still fresh in
    let tokens =
      i.stored
      ∙ ap (λ b. if b then inserted else revoke_first token.id (some i.new.id) w.time inserted)
          distinct.named in
    (
      record token { revoked_at = some w.time; replaced_by = some i.new.id },
      ap (lookup hash) tokens ∙ revoked,
      refl,
      refl,
    )

-- The presented token is revoked if the call returned `s`.
abbrev Spent : String → RefreshToken → AuthSession → Result AuthSession × AuthState → Type 0
Spent hash token s out =
    out.0 ≡ ok s
    → (old : RefreshToken) × (lookup hash out.1.tokens ≡ some old)
      × (is_revoked old ≡ true)
      × (old.family_id ≡ token.family_id)

guarded-Spent :
    (hash : String) (token : RefreshToken) (s : AuthSession) (active : Bool)
    (m : Exec AuthState AuthSession) (w : AuthState)
    → Spent hash token s (m w)
    → Spent hash token s ((if not active then fail invalid_token else m) w)
guarded-Spent hash token s true m w h = h
guarded-Spent hash token s false m w h = λ p. absurd (ground arith)

refresh_user-revokes :
    (ports : AuthPorts) (opts : AuthOptions) (token : RefreshToken) (hash : String) (w : AuthState)
    (s : AuthSession)
    → IsDistinct ports hash token w.tokens
    → lookup hash w.tokens ≡ some token
    → is_revoked token ≡ false
    → let out = refresh_user ports opts token w.time w in
      out.0 ≡ ok s
      → (old : RefreshToken) × (lookup hash out.1.tokens ≡ some old)
        × (is_revoked old ≡ true)
        × (old.family_id ≡ token.family_id)
unfolding refresh_user find_by_id
refresh_user-revokes ports opts token hash w s distinct found fresh p =
    elim (Option-cases (lookup token.user_id w.users)) [
      | inl missing ↦ let q : err invalid_token ≡ ok s = rw missing at p in absurd (ground arith)
      | inr (user, known) ↦
          subst (λ o. Spent hash token s (rotate_for ports opts token w.time (or_missing_user o) w))
            (sym known)
            (guarded-Spent hash token s user.is_active
              (issue_session ports opts user w.time
                (record { family_id = token.family_id; replace_id = token.id }))
              w (issued_revokes ports opts user token hash w s distinct found fresh))
            p
    ]

refresh-revokes :
    (ports : AuthPorts) (opts : AuthOptions) (secret : String) (token : RefreshToken)
    (w : AuthState) (s : AuthSession)
    → let hash = ports.hash_token secret in
      IsDistinct ports hash token w.tokens
      → lookup hash w.tokens ≡ some token
      → let out = refresh ports opts secret w in
        out.0 ≡ ok s
        → (old : RefreshToken) × (lookup hash out.1.tokens ≡ some old)
          × (is_revoked old ≡ true)
          × (old.family_id ≡ token.family_id)
unfolding refresh find_by_hash
refresh-revokes ports opts secret token w s distinct found p =
    elim (Bool-cases (is_revoked token)) [
      | inl r ↦ let q : err invalid_token ≡ ok s = rw r at (rw found at p) in absurd (ground arith)
      | inr r ↦ elim (Bool-cases (is_expired token w.time)) [
        | inl x ↦
            let q : err invalid_token ≡ ok s = rw x at (rw r at (rw found at p)) in
            absurd (ground arith)
        | inr x ↦ rw found (
            rw r (
              rw x (
                refresh_user-revokes ports opts token (ports.hash_token secret) w s distinct found r
                  (rw x at (rw r at (rw found at p))))))
      ]
    ]

-- A refresh token works once: where its identifier and its hash are its own, also among those that are
-- drawn later, a Refresh with it that returns a session revokes it, so that another Refresh with the
-- same secret returns the error for an invalid token and then every token of the family is revoked.
pub refresh_once :
    (ports : AuthPorts) (opts : AuthOptions) (secret : String) (token : RefreshToken)
    (w : AuthState) (s : AuthSession)
    → IsDistinct ports (ports.hash_token secret) token w.tokens
    → lookup (ports.hash_token secret) w.tokens ≡ some token
    → (refresh ports opts secret w).0 ≡ ok s
    → let again = refresh ports opts secret (refresh ports opts secret w).1 in
      (again.0 ≡ err invalid_token)
      × AllRevoked (λ t. t.family_id == token.family_id) again.1.tokens
refresh_once ports opts secret token w s distinct found p =
    let after = (refresh ports opts secret w).1 in
    let (old, kept, revoked, family) =
      refresh-revokes ports opts secret token w s distinct found p in
    let (rejected, ended) = refresh_reuse ports opts secret old after kept revoked in
    (
      rejected,
      subst (λ f. AllRevoked (λ t. t.family_id == f) (refresh ports opts secret after).1.tokens)
          family ended,
    )
