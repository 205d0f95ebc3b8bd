-- ===== src/Auth/Users.antt =====
-- internal/adapters/outbound/inmemory/user_repository.go, as far as authentication uses it. Each
-- method holds the repository's lock, so it is one step.
use text.Mathlib.Text.{◌==◌}
use observai_api.Base.{
  String, Bool, true, false, not, ◌&&◌, [], ◌∷◌, Option, none, some, if◌then◌else◌,
}
use observai_api.Base.Text.{trim_space, to_lower, equal_fold}
use observai_api.Base.Dict.{Dict, lookup, insert}
use observai_api.Base.Errors.{Error, Result, ok, err, error, user_not_found, user_already_exists}
use observai_api.Base.Exec.{Exec}
use observai_api.Domain.Analysis.{Time}
use observai_api.Auth.Types.{User, UserPreferences, AuthState, normalize_user_preferences}

abbrev pub missing_user : Error
missing_user = error user_not_found "user not found"

abbrev pub or_missing_user : Option User → Result User
or_missing_user none = err missing_user
or_missing_user (some user) = ok user

-- FindByID
unfoldable pub find_by_id : String → Exec AuthState User
find_by_id id w = (or_missing_user (lookup id w.users), w)

-- strings.ToLower(strings.TrimSpace(email))
unfoldable pub email_key : String → String
unfolding to_lower trim_space
email_key email = to_lower (trim_space email)

-- The loop of FindByEmail, over the emails that Create and UpdateProfile keep apart.
unfoldable pub user_with_email : String → Dict User → Option User
unfolding equal_fold
user_with_email email [] = none
user_with_email email ((id, user) ∷ users) =
    if equal_fold user.email email then some user else user_with_email email users

-- FindByEmail
unfoldable pub find_by_email : String → Exec AuthState User
unfolding email_key
find_by_email email w = (or_missing_user (user_with_email (email_key email) w.users), w)

abbrev pub update_found : Option User → String → (User → User) → Exec AuthState (Unit {0})
update_found none id mutate w = (err missing_user, w)
update_found (some user) id mutate w = (ok tt, record w { users = insert id (mutate user) w.users })

-- The methods that read a user, change it and store it.
unfoldable pub update_user : String → (User → User) → Exec AuthState (Unit {0})
update_user id mutate w = update_found (lookup id w.users) id mutate w

-- UpdatePreferences
unfoldable pub update_preferences : String → UserPreferences → Time → Exec AuthState (Unit {0})
update_preferences id preferences at =
    update_user id (λ user. record user {
      preferences = normalize_user_preferences preferences;
      updated_at = at;
    })

-- UpdatePassword
unfoldable pub update_password : String → String → Time → Exec AuthState (Unit {0})
update_password id hash at =
    update_user id
      (λ user. record user { password_hash = hash; must_change_password = false; updated_at = at })

-- SetMustChangePassword
unfoldable pub set_must_change_password : String → Bool → Time → Exec AuthState (Unit {0})
set_must_change_password id flag at =
    update_user id (λ user. record user { must_change_password = flag; updated_at = at })

-- TouchLastLogin
unfoldable pub touch_last_login : String → Time → Exec AuthState (Unit {0})
touch_last_login id at =
    update_user id (λ user. record user { last_login_at = some at; updated_at = at })

-- The loop of UpdateProfile over the other users.
unfoldable pub email_taken : String → String → Dict User → Bool
unfolding equal_fold
email_taken id email [] = false
email_taken id email ((other, user) ∷ users) =
    if not (other == id) && equal_fold user.email email then true else email_taken id email users

abbrev pub update_profile_found :
    Option User → String → String → String → Time → Exec AuthState (Unit {0})
update_profile_found none id name email at w = (err missing_user, w)
update_profile_found (some user) id name email at w =
    if email_taken id (email_key email) w.users
    then (err (error user_already_exists "user already exists"), w)
    else (
      ok tt,
      record w {
        users =
            insert id
              (record user { name = trim_space name; email = email_key email; updated_at = at })
              w.users;
      },
    )

-- UpdateProfile
unfoldable pub update_profile : String → String → String → Time → Exec AuthState (Unit {0})
update_profile id name email at w = update_profile_found (lookup id w.users) id name email at w
