-- ===== src/Auth/Admin.antt =====
-- internal/core/usecase/user.go, with the repository of refresh tokens attached.
pub mod Laws
pub mod Created
use Prim.Native.String.{◌++◌}
use observai_api.Base.{String, Bool, true, false, not, ◌||◌, ltb, none, if◌then◌else◌}
use observai_api.Base.Text.{trim_space, is_empty, str_eq, byte_length}
use observai_api.Base.Errors.{Error, Result, error, invalid_user}
use observai_api.Base.Exec.{Exec, pure, fail, lift, gets, modify, wrapping, ◌>>=◌, ◌>>◌}
use observai_api.Domain.Analysis.{Time}
use observai_api.Auth.Types.{
  User, UserPreferences, AuthPorts, AuthState, normalize_user_preferences,
}
use observai_api.Auth.Users.{missing_user, find_by_id, set_must_change_password}
use observai_api.Auth.Accounts.{create_user, update_stored_role, set_stored_active, delete_stored}
use observai_api.Auth.Tokens.{revoke_all_for_user}
use observai_api.Auth.Password.{short_password}
use observai_api.Auth.Profile.{normalize_email, normalize_user_name}
use observai_api.Auth.Sessions.{draw_id}

pub record UserCreateRequest : Type 0 where
  pub name : String
  pub email : String
  pub password : String
  pub role : String
  pub must_change_password : Bool
  pub preferences : UserPreferences

-- IsValidRole
unfoldable pub is_valid_role : String → Bool
is_valid_role role = str_eq role "admin" || str_eq role "operator" || str_eq role "viewer"

-- `quote` prints a text in quotes, as %q does.
abbrev pub unsupported_role : (String → String) → String → Error
unsupported_role quote role =
    error invalid_user ("invalid user: role " ++ (quote role ++ " is not supported"))

-- The user that CreateWithOptions stores.
abbrev pub new_user : UserCreateRequest → String → String → String → Time → User
new_user request cleaned_email id hash now = record {
  id = id;
  name = normalize_user_name request.name cleaned_email;
  email = cleaned_email;
  password_hash = hash;
  role = request.role;
  is_active = true;
  must_change_password = request.must_change_password;
  preferences = normalize_user_preferences request.preferences;
  created_at = now;
  updated_at = now;
  last_login_at = none;
}

-- CreateWithOptions from the identifier on.
unfoldable pub create_valid : AuthPorts → UserCreateRequest → String → Exec AuthState User
create_valid ports request cleaned_email = do
  id ← wrapping "generate user id" (draw_id ports)
  hash ← wrapping "hash password" (lift (ports.hash_password request.password))
  now ← gets (λ w. w.time)
  let user : User = new_user request cleaned_email id hash now
  create_user user
  pure user

-- CreateWithOptions
unfoldable pub create_with_options :
    AuthPorts
    → (quote : String → String) → (is_address : String → Bool) → UserCreateRequest
    → Exec AuthState User
create_with_options ports quote is_address request = do
  cleaned_email ← lift (normalize_email is_address request.email)
  if ltb (byte_length request.password) 8
      then fail short_password
      else if not (is_valid_role request.role)
      then fail (unsupported_role quote request.role)
      else create_valid ports request cleaned_email

-- Get
unfoldable pub get_user : String → Exec AuthState User
get_user id =
    let cleaned = trim_space id in
    if is_empty cleaned then fail missing_user else find_by_id cleaned

-- UpdateRole
unfoldable pub update_role : (quote : String → String) → String → String → Exec AuthState User
update_role quote id role =
    if not (is_valid_role role)
    then fail (unsupported_role quote role)
    else do now ← gets (λ w. w.time); update_stored_role id role now; find_by_id id

-- SetActive
unfoldable pub set_active : String → Bool → Exec AuthState User
set_active id active = do
  now ← gets (λ w. w.time)
  set_stored_active id active now
  modify (λ w. if active then w else revoke_all_for_user id now w)
  find_by_id id

-- SetMustChangePassword
unfoldable pub require_password_change : String → Bool → Exec AuthState User
require_password_change id flag = do
  now ← gets (λ w. w.time)
  set_must_change_password id flag now
  find_by_id id

-- Delete
unfoldable pub delete_user : String → Exec AuthState (Unit {0})
delete_user id =
    let cleaned = trim_space id in
    if is_empty cleaned then fail missing_user else do
      now ← gets (λ w. w.time)
      modify (revoke_all_for_user cleaned now)
      delete_stored cleaned
