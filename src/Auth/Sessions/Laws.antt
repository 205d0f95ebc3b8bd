-- ===== src/Auth/Sessions/Laws.antt =====
-- internal/core/usecase/auth.go: a refresh token works once, a replayed one ends its family, a changed
-- password ends the sessions of the user, and a refused login does not say why.
use text.Mathlib.Text.{◌==◌}
use mathlib.Core.Option.{some-injective}
use observai_api.Base.{
  String, Bool, true, false, ◌&&◌, [], ◌∷◌, Option, none, some, ◌≡◌, refl, subst, All, arith,
  Bool-cases, Option-cases, ltb, inl, inr, eq_iff,
}
use observai_api.Base.Dict.{Dict, lookup}
use observai_api.Base.Errors.{Result-cases, ok, err, wrap}
use observai_api.Base.Text.{byte_length}
use observai_api.Auth.Types.{User, RefreshToken, is_revoked, AuthOptions, AuthPorts, AuthState}
use observai_api.Auth.Users.{
  missing_user, find_by_id, find_by_email, user_with_email, email_key, update_user, update_password,
  set_must_change_password,
}
use observai_api.Auth.Tokens.{invalid_token, find_by_hash, revoke_family, revoke_all_for_user}
use observai_api.Auth.Tokens.Laws.{AllRevoked, revoke_if-AllRevoked}
use observai_api.Auth.Sessions.{refused, login_error, login, refresh}
use observai_api.Auth.Password.{short_password, store_password, change_password}

-- Refresh with a token that is revoked returns the error for an invalid token, and afterwards every
-- token of its family is revoked.
pub refresh_reuse :
    (ports : AuthPorts) (opts : AuthOptions) (secret : String) (token : RefreshToken)
    (w : AuthState)
    → lookup (ports.hash_token secret) w.tokens ≡ some token
    → is_revoked token ≡ true
    → let after = refresh ports opts secret w in
      (after.0 ≡ err invalid_token)
      × AllRevoked (λ t. t.family_id == token.family_id) after.1.tokens
unfolding refresh find_by_hash revoke_family
refresh_reuse ports opts secret token w h r =
    rw h (rw r (refl, revoke_if-AllRevoked (λ t. t.family_id == token.family_id) w.time w.tokens))

-- An account that may log in with the password.
abbrev pub admits : AuthPorts → String → Option User → Bool
admits ports password none = false
admits ports password (some user) = user.is_active && ports.verify user.password_hash password

-- A login that is refused, because no user has the email, the user is not active or the password does
-- not match, returns the same error in each case and changes nothing.
pub login-refused :
    (ports : AuthPorts) (opts : AuthOptions) (email password : String) (w : AuthState)
    → admits ports password (user_with_email (email_key email) w.users) ≡ false
    → login ports opts email password w ≡ (err refused, w)
unfolding login find_by_email login_error
login-refused ports opts email password w h =
    elim (Option-cases (user_with_email (email_key email) w.users)) [
      | inl none_found ↦ rw none_found refl
      | inr (user, found) ↦
          let rejected : (user.is_active && ports.verify user.password_hash password) ≡ false =
            rw found at h in
          elim (Bool-cases user.is_active) [
            | inl active ↦
                let wrong : ports.verify user.password_hash password ≡ false =
                  rw active at rejected in
                rw found (rw active (rw wrong refl))
            | inr inactive ↦ rw found (rw inactive refl)
          ]
    ]

pub All-lookup :
    (P : RefreshToken → Type 0) (hash : String) (token : RefreshToken) (tokens : Dict RefreshToken)
    → All (λ entry. P entry.1) tokens
    → lookup hash tokens ≡ some token
    → P token
unfolding lookup
All-lookup P hash token [] h found = absurd (ground arith)
All-lookup P hash token ((k, t) ∷ tokens) h found = elim (Bool-cases (k == hash)) [
  | inl here ↦ subst P (some-injective _ _ (rw here at found)) h.0
  | inr elsewhere ↦ All-lookup P hash token tokens h.1 (rw elsewhere at found)
]

store_password-AllRevoked :
    (id hash : String) (w : AuthState)
    → (store_password id hash w).0 ≡ ok tt
    → AllRevoked (λ t. t.user_id == id) (store_password id hash w).1.tokens
unfolding store_password update_password set_must_change_password update_user revoke_all_for_user
store_password-AllRevoked id hash w h = elim (Option-cases (lookup id w.users)) [
  | inl missing ↦ let q : err missing_user ≡ ok tt = rw missing at h in absurd (ground arith)
  | inr (user, found) ↦ rw found (revoke_if-AllRevoked (λ t. t.user_id == id) _ _)
]

change_password-AllRevoked :
    (ports : AuthPorts) (id current replacement : String) (w : AuthState)
    → (change_password ports id current replacement w).0 ≡ ok tt
    → AllRevoked (λ t. t.user_id == id) (change_password ports id current replacement w).1.tokens
unfolding change_password find_by_id
change_password-AllRevoked ports id current replacement w h =
    elim (Bool-cases (ltb (byte_length replacement) 8)) [
      | inl short ↦ let q : err short_password ≡ ok tt = rw short at h in absurd (ground arith)
      | inr long ↦ elim (Option-cases (lookup id w.users)) [
        | inl missing ↦
            let q : err missing_user ≡ ok tt = rw missing at (rw long at h) in absurd (ground arith)
        | inr (user, found) ↦ elim (Bool-cases (ports.verify user.password_hash current)) [
          | inr wrong ↦
              let q : err refused ≡ ok tt = rw wrong at (rw found at (rw long at h)) in
              absurd (ground arith)
          | inl right ↦ elim (Result-cases (ports.hash_password replacement)) [
            | inr (e, failed) ↦
                let q : err (wrap "hash password" e) ≡ ok tt =
                  rw failed at (rw right at (rw found at (rw long at h))) in
                absurd (ground arith)
            | inl (hash, hashed) ↦ rw long (
                rw found (
                  rw right (
                    rw hashed (
                      store_password-AllRevoked id hash w
                        (rw hashed at (rw right at (rw found at (rw long at h))))))))
          ]
        ]
      ]
    ]

-- After a ChangePassword that returned no error, Refresh refuses every refresh token that the user had:
-- whatever the secret, if the stored token under its hash is the user's, Refresh returns the error for
-- an invalid token.
pub change_password-refresh :
    (ports : AuthPorts) (opts : AuthOptions) (id current replacement secret : String)
    (token : RefreshToken) (w : AuthState)
    → (change_password ports id current replacement w).0 ≡ ok tt
    → let after = (change_password ports id current replacement w).1 in
      lookup (ports.hash_token secret) after.tokens ≡ some token
      → token.user_id ≡ id
      → (refresh ports opts secret after).0 ≡ err invalid_token
change_password-refresh ports opts id current replacement secret token w h found owner =
    let after = (change_password ports id current replacement w).1 in
    let revoked =
      All-lookup (λ t. t.user_id == id ≡ true → is_revoked t ≡ true) (ports.hash_token secret) token
        after.tokens (change_password-AllRevoked ports id current replacement w h) found in
    (refresh_reuse ports opts secret token after found
      (revoked ((eq_iff token.user_id id).1 owner))).0
