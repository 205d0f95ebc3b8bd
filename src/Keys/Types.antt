-- ===== src/Keys/Types.antt =====
-- internal/core/domain/api_key.go: keys and their scopes.
use observai_api.Base.{String, Bool, false, ◌||◌, List, Option, none, some, is_some, any, leb}
use observai_api.Base.Text.{str_eq}
use observai_api.Domain.Analysis.{Time}

abbrev pub ApiKeyScope : Type 0
ApiKeyScope = String

abbrev pub scope_analysis_read : ApiKeyScope
scope_analysis_read = "analysis:read"

abbrev pub scope_analysis_write : ApiKeyScope
scope_analysis_write = "analysis:write"

abbrev pub scope_chat_write : ApiKeyScope
scope_chat_write = "chat:write"

abbrev pub scope_admin_read : ApiKeyScope
scope_admin_read = "admin:read"

abbrev pub scope_admin_write : ApiKeyScope
scope_admin_write = "admin:write"

-- IsValidAPIKeyScope
unfoldable pub is_valid_api_key_scope : ApiKeyScope → Bool
is_valid_api_key_scope scope =
    str_eq scope scope_analysis_read
    || str_eq scope scope_analysis_write
    || str_eq scope scope_chat_write
    || str_eq scope scope_admin_read
    || str_eq scope scope_admin_write

pub record ApiKey : Type 0 where
  pub id : String
  pub name : String
  pub description : String
  pub hash : String
  pub scopes : List ApiKeyScope
  pub created_at : Time
  pub expires_at : Option Time
  pub last_used_at : Option Time
  pub revoked_at : Option Time

abbrev pub is_revoked : ApiKey → Bool
is_revoked key = is_some key.revoked_at

-- ExpiresAt != nil && !ExpiresAt.After(now)
abbrev pub is_past : Option Time → Time → Bool
is_past none now = false
is_past (some t) now = leb t now

abbrev pub is_expired : ApiKey → Time → Bool
is_expired key now = is_past key.expires_at now

abbrev pub has_scope : ApiKey → ApiKeyScope → Bool
has_scope key target = any (λ scope. str_eq scope target) key.scopes

-- What Issue returns: the key and the token that is shown once.
pub record IssuedApiKey : Type 0 where
  pub api_key : ApiKey
  pub secret : String
