-- ===== src/Auth/Types.antt =====
-- internal/core/domain/user.go and the types of internal/core/usecase/auth.go.
use observai_api.Base.{ℕ, String, Bool, ◌||◌, Option, is_some, leb, if◌then◌else◌}
use observai_api.Base.Int.{ℤ}
use observai_api.Base.Text.{trim_space, is_empty, str_eq}
use observai_api.Base.Dict.{Dict}
use observai_api.Base.Errors.{Result}
use observai_api.Domain.Analysis.{Time}

pub record UserPreferences : Type 0 where
  pub locale : String
  pub timezone : String
  pub theme : String
  pub dense_mode : Bool

pub record User : Type 0 where
  pub id : String
  pub name : String
  pub email : String
  pub password_hash : String
  pub role : String
  pub is_active : Bool
  pub must_change_password : Bool
  pub preferences : UserPreferences
  pub created_at : Time
  pub updated_at : Time
  pub last_login_at : Option Time

-- normalizePreferenceValue
unfoldable pub normalize_preference_value : String → String → String
unfolding trim_space
normalize_preference_value value fallback =
    let cleaned = trim_space value in if is_empty cleaned then fallback else cleaned

-- normalizeTheme, which returns a known theme as it was given
unfoldable pub normalize_theme : String → String
unfolding trim_space
normalize_theme value =
    let cleaned = trim_space value in
    if str_eq cleaned "light" || str_eq cleaned "dark" || str_eq cleaned "system"
    then value
    else "system"

unfoldable pub normalize_user_preferences : UserPreferences → UserPreferences
unfolding normalize_preference_value normalize_theme
normalize_user_preferences p = record {
  locale = normalize_preference_value p.locale "en-US";
  timezone = normalize_preference_value p.timezone "UTC";
  theme = normalize_theme p.theme;
  dense_mode = p.dense_mode;
}

-- A persisted refresh token.
pub record RefreshToken : Type 0 where
  pub id : String
  pub user_id : String
  pub token_hash : String
  pub family_id : String
  pub expires_at : Time
  pub revoked_at : Option Time
  pub replaced_by : Option String
  pub created_at : Time

abbrev pub is_revoked : RefreshToken → Bool
is_revoked token = is_some token.revoked_at

-- !ExpiresAt.After(now)
unfoldable pub is_expired : RefreshToken → Time → Bool
is_expired token now = leb token.expires_at now

pub record AccessTokenClaims : Type 0 where
  pub subject : String
  pub role : String
  pub jti : String
  pub issued_at : Time
  pub expires_at : Time

-- What login and refresh return: the user, the access token and the refresh token.
pub record AuthSession : Type 0 where
  pub user : User
  pub access_value : String
  pub access_expires_at : Time
  pub refresh_id : String
  pub refresh_value : String
  pub refresh_expires_at : Time
  pub family_id : String

pub record AuthOptions : Type 0 where
  pub access_token_ttl : ℤ
  pub refresh_token_ttl : ℤ

-- The collaborators. `next_id` and `random_hex` give the answer to their n-th call, `hash_token` is
-- HashRefreshToken (SHA-256 in hexadecimal), and `verify` is whether a password matches a hash.
pub record AuthPorts : Type 0 where
  pub next_id : ℕ → Result String
  pub random_hex : ℕ → Result String
  pub hash_token : String → String
  pub sign : AccessTokenClaims → Result String
  pub verify : (hash : String) → (password : String) → Bool
  pub hash_password : String → Result String

pub record AuthState : Type 0 where
  pub time : Time
  pub users : Dict User
  pub tokens : Dict RefreshToken
  pub ids_drawn : ℕ
  pub secrets_drawn : ℕ
