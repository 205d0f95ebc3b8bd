-- ===== src/Auth/Profile.antt =====
-- internal/core/usecase/auth.go: the methods on a user's profile, with normalizeUserName of
-- internal/core/usecase/user.go.
use Prim.Native.Char.{code}
use observai_api.Base.{String, Bool, true, false, not, ◌==◌, if◌then◌else◌}
use observai_api.Base.Text.{trim_space, to_lower, is_empty}
use observai_api.Base.Errors.{Result, ok, err, error, invalid_user}
use observai_api.Base.Exec.{Exec, lift, gets, ◌>>=◌, ◌>>◌}
use observai_api.Auth.Types.{User, UserPreferences, AuthState, normalize_user_preferences}
use observai_api.Auth.Users.{find_by_id, update_profile, update_preferences}

-- The text before the first '@'; `found` is false where there is none.
unfoldable pub before_at : String → Bool × String
before_at String.[] = (false, String.[])
before_at (String.◌∷◌ c s) =
    let (found, rest) = before_at s in
    if code c == b'@' then (true, String.[]) else (found, String.◌∷◌ c rest)

-- normalizeUserName
unfoldable pub normalize_user_name : String → String → String
unfolding trim_space before_at
normalize_user_name name email =
    let cleaned = trim_space name in
    let (found, local) = before_at email in
    if not (is_empty cleaned)
    then cleaned
    else if not found
    then email
    else if is_empty local
    then email
    else local

-- normalizeEmail; `is_address` is whether mail.ParseAddress accepts a text.
unfoldable pub normalize_email : (String → Bool) → String → Result String
unfolding to_lower trim_space
normalize_email is_address email =
    let cleaned = to_lower (trim_space email) in
    if is_empty cleaned
    then err (error invalid_user "invalid user: email is required")
    else if not (is_address cleaned)
    then err (error invalid_user "invalid user: email is not valid")
    else ok cleaned

-- Me
unfoldable pub me : String → Exec AuthState User
me id = find_by_id id

-- UpdateProfileWithOptions
unfoldable pub update_profile_with_options :
    (String → Bool) → String → (name : String) → (email : String) → Exec AuthState User
update_profile_with_options is_address id name email = do
  cleaned_email ← lift (normalize_email is_address email)
  user ← find_by_id id
  let cleaned_name = trim_space name
  now ← gets (λ w. w.time)
  update_profile id
      (if is_empty cleaned_name then normalize_user_name user.name cleaned_email else cleaned_name)
      cleaned_email now
  find_by_id id

-- UpdatePreferences
unfoldable pub store_preferences : String → UserPreferences → Exec AuthState User
store_preferences id preferences = do
  now ← gets (λ w. w.time)
  update_preferences id (normalize_user_preferences preferences) now
  find_by_id id
