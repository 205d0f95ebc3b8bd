-- ===== src/Auth/Password.antt =====
-- internal/core/usecase/auth.go: ChangePassword.
use observai_api.Base.{String, false, not, ltb, if◌then◌else◌}
use observai_api.Base.Text.{byte_length}
use observai_api.Base.Errors.{Error, error, invalid_user}
use observai_api.Base.Exec.{Exec, fail, lift, gets, modify, ignore, wrapping, ◌>>=◌, ◌>>◌}
use observai_api.Auth.Types.{AuthPorts, AuthState}
use observai_api.Auth.Users.{find_by_id, update_password, set_must_change_password}
use observai_api.Auth.Tokens.{revoke_all_for_user}
use observai_api.Auth.Sessions.{refused}

abbrev pub short_password : Error
short_password = error invalid_user "invalid user: password must be at least 8 characters"

-- ChangePassword from the new hash on.
unfoldable pub store_password : String → String → Exec AuthState (Unit {0})
store_password id hash = do
  now ← gets (λ w. w.time)
  update_password id hash now
  ignore (set_must_change_password id false now)
  modify (revoke_all_for_user id now)

-- ChangePassword
unfoldable pub change_password : AuthPorts → String → String → String → Exec AuthState (Unit {0})
unfolding byte_length
change_password ports id current replacement =
    if ltb (byte_length replacement) 8 then fail short_password else do
      user ← find_by_id id
      if not (ports.verify user.password_hash current)
          then fail refused
          else wrapping "hash password" (lift (ports.hash_password replacement))
            >>= store_password id
