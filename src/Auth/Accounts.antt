-- ===== src/Auth/Accounts.antt =====
-- internal/adapters/outbound/inmemory/user_repository.go: the methods that user administration adds.
use observai_api.Base.{String, Bool, true, false, [], ◌∷◌, if◌then◌else◌}
use observai_api.Base.Text.{trim_space, equal_fold}
use observai_api.Base.Dict.{Dict, insert, delete}
use observai_api.Base.Errors.{Error, ok, err, error, user_already_exists}
use observai_api.Base.Exec.{Exec}
use observai_api.Domain.Analysis.{Time}
use observai_api.Auth.Types.{User, AuthState, normalize_user_preferences}
use observai_api.Auth.Users.{email_key, update_user}

-- The loop of Create.
unfoldable pub email_in_use : String → Dict User → Bool
unfolding equal_fold
email_in_use email [] = false
email_in_use email ((id, user) ∷ users) =
    let rest = email_in_use email users in if equal_fold user.email email then true else rest

abbrev pub stored_user : User → User
stored_user user = record user {
  email = email_key user.email;
  name = trim_space user.name;
  preferences = normalize_user_preferences user.preferences;
}

abbrev pub existing_user : Error
existing_user = error user_already_exists "user already exists"

-- Create
unfoldable pub create_user : User → Exec AuthState (Unit {0})
unfolding email_in_use email_key trim_space normalize_user_preferences
create_user user w =
    if email_in_use (email_key user.email) w.users
    then (err existing_user, w)
    else (ok tt, record w { users = insert user.id (stored_user user) w.users })

-- UpdateRole
unfoldable pub update_stored_role : String → String → Time → Exec AuthState (Unit {0})
update_stored_role id role at =
    update_user id (λ user. record user { role = role; updated_at = at })

-- SetActive
unfoldable pub set_stored_active : String → Bool → Time → Exec AuthState (Unit {0})
set_stored_active id active at =
    update_user id (λ user. record user { is_active = active; updated_at = at })

-- Delete
unfoldable pub delete_stored : String → Exec AuthState (Unit {0})
delete_stored id w = (ok tt, record w { users = delete id w.users })
