-- ===== src/Auth/Admin/Laws.antt =====
-- internal/core/usecase/user.go: what deactivating and deleting a user does to the sessions.
use text.Mathlib.Text.{◌==◌}
use observai_api.Base.{String, true, false, some, ◌≡◌, refl, eq_iff, arith, Option-cases, inl, inr}
use observai_api.Base.Dict.{lookup}
use observai_api.Base.Errors.{ok, err}
use observai_api.Auth.Types.{User, RefreshToken, is_revoked, AuthOptions, AuthPorts, AuthState}
use observai_api.Auth.Sessions.{refresh}
use observai_api.Auth.Sessions.Laws.{All-lookup, refresh_reuse}
use observai_api.Auth.Users.{missing_user, find_by_id, update_user}
use observai_api.Auth.Accounts.{set_stored_active}
use observai_api.Auth.Tokens.{invalid_token, revoke_all_for_user}
use observai_api.Auth.Tokens.Laws.{AllRevoked, revoke_if-AllRevoked}
use observai_api.Auth.Admin.{set_active}

set_active-AllRevoked :
    (id : String) (user : User) (w : AuthState)
    → (set_active id false w).0 ≡ ok user
    → AllRevoked (λ t. t.user_id == id) (set_active id false w).1.tokens
unfolding set_active set_stored_active update_user revoke_all_for_user find_by_id
set_active-AllRevoked id user w h = elim (Option-cases (lookup id w.users)) [
  | inl missing ↦ let q : err missing_user ≡ ok user = rw missing at h in absurd (ground arith)
  | inr (u, found) ↦ rw found (revoke_if-AllRevoked (λ t. t.user_id == id) _ _)
]

-- A step on the users that leaves the tokens as they are.
set_active-keeps_tokens : (id : String) (w : AuthState) → (set_active id true w).1.tokens ≡ w.tokens
unfolding set_active set_stored_active update_user find_by_id
set_active-keeps_tokens id w = elim (Option-cases (lookup id w.users)) [
  | inl missing ↦ rw missing refl
  | inr (u, found) ↦ rw found refl
]

-- After SetActive has deactivated a user, Refresh refuses every refresh token that the user had, also once
-- SetActive has activated the user again: whatever the secret, if the stored token under its hash is the
-- user's, Refresh returns the error for an invalid token.
pub set_active-refresh :
    (ports : AuthPorts) (opts : AuthOptions) (id secret : String) (user : User)
    (token : RefreshToken) (w : AuthState)
    → (set_active id false w).0 ≡ ok user
    → let deactivated = (set_active id false w).1 in
      let activated = (set_active id true deactivated).1 in
      lookup (ports.hash_token secret) deactivated.tokens ≡ some token
      → token.user_id ≡ id
      → ((refresh ports opts secret deactivated).0 ≡ err invalid_token)
        × ((refresh ports opts secret activated).0 ≡ err invalid_token)
set_active-refresh ports opts id secret user token w h found owner =
    let deactivated = (set_active id false w).1 in
    let activated = (set_active id true deactivated).1 in
    let same : activated.tokens ≡ deactivated.tokens = set_active-keeps_tokens id deactivated in
    let revoked =
      All-lookup (λ t. t.user_id == id ≡ true → is_revoked t ≡ true) (ports.hash_token secret) token
        deactivated.tokens (set_active-AllRevoked id user w h) found
        ((eq_iff token.user_id id).1 owner) in
    let still : lookup (ports.hash_token secret) activated.tokens ≡ some token = rw same found in
    (
      (refresh_reuse ports opts secret token deactivated found revoked).0,
      (refresh_reuse ports opts secret token activated still revoked).0,
    )
