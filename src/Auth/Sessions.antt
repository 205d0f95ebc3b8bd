-- ===== src/Auth/Sessions.antt =====
-- internal/core/usecase/auth.go: the methods that start, renew and end sessions.
pub mod Laws
pub mod Issue
pub mod Rotation
use observai_api.Base.{ℕ, zero, suc, ◌+◌, String, not, none, some, if◌then◌else◌}
use observai_api.Base.Int.{ℤ, pos, negsuc}
use observai_api.Base.Text.{is_empty}
use observai_api.Base.Errors.{
  Error, Result, ok, err, error, wrap, or_wrap, user_not_found, invalid_credentials,
}
use observai_api.Base.Exec.{
  ◌>>=◌, ◌>>◌, Exec, pure, fail, lift, gets, modify, ignore, attempt, wrapping,
}
use observai_api.Domain.Analysis.{Time}
use observai_api.Auth.Types.{
  User, RefreshToken, is_revoked, is_expired, AuthSession, AuthOptions, AuthPorts, AuthState,
}
use observai_api.Auth.Users.{find_by_id, find_by_email, touch_last_login}
use observai_api.Auth.Tokens.{invalid_token, create_token, find_by_hash, revoke, revoke_family}

abbrev pub refused : Error
refused = error invalid_credentials "invalid credentials"

abbrev positive_ttl : ℕ → ℤ → ℕ
positive_ttl d (pos zero) = d
positive_ttl d (pos (suc n)) = suc n
positive_ttl d (negsuc n) = d

-- The lifetimes, in nanoseconds, with the defaults of NewAuth: 15 minutes and 7 days.
unfoldable pub access_ttl : AuthOptions → ℕ
access_ttl opts = positive_ttl 900_000_000_000 opts.access_token_ttl

unfoldable pub refresh_ttl : AuthOptions → ℕ
refresh_ttl opts = positive_ttl 604_800_000_000_000 opts.refresh_token_ttl

-- The n-th call of the generator of identifiers.
unfoldable pub draw_id : AuthPorts → Exec AuthState String
draw_id ports w = (ports.next_id w.ids_drawn, record w { ids_drawn = suc w.ids_drawn })

-- generateRefreshSecret
unfoldable pub generate_refresh_secret : AuthPorts → Exec AuthState String
generate_refresh_secret ports w = (
  or_wrap "generate refresh secret" (ports.random_hex w.secrets_drawn),
  record w { secrets_drawn = suc w.secrets_drawn },
)

-- sessionRotation
pub record SessionRotation : Type 0 where
  pub family_id : String
  pub replace_id : String

abbrev pub new_session : SessionRotation
new_session = record { family_id = ""; replace_id = "" }

unfoldable pub family_of : AuthPorts → SessionRotation → Exec AuthState String
family_of ports rotation =
    if is_empty rotation.family_id
    then wrapping "generate refresh family id" (draw_id ports)
    else pure rotation.family_id

-- The end of issueSession: the token is stored, and the one that it replaces is revoked.
unfoldable pub store_session :
    AuthPorts
    → AuthOptions
    → User
    → Time
    → SessionRotation
    → String
    → String
    → String
    → String
    → Exec AuthState AuthSession
store_session ports opts user now rotation access_value refresh_id family_id secret = do
  let token : RefreshToken = record {
    id = refresh_id;
    user_id = user.id;
    token_hash = ports.hash_token secret;
    family_id = family_id;
    expires_at = now + refresh_ttl opts;
    revoked_at = none;
    replaced_by = none;
    created_at = now;
  }
  modify (create_token token)
  modify (λ w.
      if is_empty rotation.replace_id
      then w
      else revoke rotation.replace_id (some refresh_id) now w)
  pure (record {
    user = user;
    access_value = access_value;
    access_expires_at = now + access_ttl opts;
    refresh_id = refresh_id;
    refresh_value = secret;
    refresh_expires_at = now + refresh_ttl opts;
    family_id = family_id;
  })

-- issueSession; creating and revoking a token in memory do not fail.
unfoldable pub issue_session :
    AuthPorts → AuthOptions → User → Time → SessionRotation → Exec AuthState AuthSession
issue_session ports opts user now rotation = do
  jti ← wrapping "generate access jti" (draw_id ports)
  access_value ← wrapping "sign access token" (
      lift (
        ports.sign (record {
          subject = user.id;
          role = user.role;
          jti = jti;
          issued_at = now;
          expires_at = now + access_ttl opts;
        })))
  refresh_id ← wrapping "generate refresh id" (draw_id ports)
  family_id ← family_of ports rotation
  secret ← generate_refresh_secret ports
  store_session ports opts user now rotation access_value refresh_id family_id secret

-- The end of Login and StartSessionForUser.
unfoldable pub begin_session : AuthPorts → AuthOptions → User → Exec AuthState AuthSession
begin_session ports opts user = do
  now ← gets (λ w. w.time)
  ignore (touch_last_login user.id now)
  issue_session ports opts (record user { last_login_at = some now }) now new_session

-- StartSessionForUser
unfoldable pub start_session_for_user : AuthPorts → AuthOptions → User → Exec AuthState AuthSession
start_session_for_user ports opts user =
    if not user.is_active then fail refused else begin_session ports opts user

-- What Login makes of an error of FindByEmail.
unfoldable pub login_error : Error → Error
login_error e = elim e.sentinel [ user_not_found ↦ refused | _ ↦ wrap "find user" e ]

abbrev pub login_found : AuthPorts → AuthOptions → String → Result User → Exec AuthState AuthSession
login_found ports opts password (err e) = fail (login_error e)
login_found ports opts password (ok user) =
    if not user.is_active
    then fail refused
    else if not (ports.verify user.password_hash password)
    then fail refused
    else begin_session ports opts user

-- Login
unfoldable pub login : AuthPorts → AuthOptions → String → String → Exec AuthState AuthSession
login ports opts email password = do
  found ← attempt (find_by_email email)
  login_found ports opts password found

abbrev pub rotate_for :
    AuthPorts → AuthOptions → RefreshToken → Time → Result User → Exec AuthState AuthSession
rotate_for ports opts token now (err e) = fail invalid_token
rotate_for ports opts token now (ok user) =
    if not user.is_active
    then fail invalid_token
    else issue_session ports opts user now
        (record { family_id = token.family_id; replace_id = token.id })

-- `_ = RevokeFamily(...)`, and the error.
abbrev pub reject_reuse : RefreshToken → Time → Exec AuthState AuthSession
reject_reuse token now = do modify (revoke_family token.family_id now); fail invalid_token

-- Refresh from the user of the token on.
unfoldable pub refresh_user :
    AuthPorts → AuthOptions → RefreshToken → Time → Exec AuthState AuthSession
refresh_user ports opts token now = do
  found ← attempt (find_by_id token.user_id)
  rotate_for ports opts token now found

abbrev pub refresh_found :
    AuthPorts → AuthOptions → Result RefreshToken → Exec AuthState AuthSession
refresh_found ports opts (err e) w = (err invalid_token, w)
refresh_found ports opts (ok token) w =
    if is_revoked token
    then reject_reuse token w.time w
    else if is_expired token w.time
    then (err invalid_token, w)
    else refresh_user ports opts token w.time w

-- Refresh
unfoldable pub refresh : AuthPorts → AuthOptions → String → Exec AuthState AuthSession
refresh ports opts secret = do
  found ← attempt (find_by_hash (ports.hash_token secret))
  refresh_found ports opts found

abbrev logout_found : Result RefreshToken → Exec AuthState (Unit {0})
logout_found (err e) w = (ok tt, w)
logout_found (ok token) w =
    if is_revoked token then (ok tt, w) else (ok tt, revoke token.id none w.time w)

-- Logout
unfoldable pub logout : AuthPorts → String → Exec AuthState (Unit {0})
logout ports secret = do
  found ← attempt (find_by_hash (ports.hash_token secret))
  logout_found found
