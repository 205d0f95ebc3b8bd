-- ===== src/Keys/Scopes/Laws.antt =====
-- internal/core/domain/api_key.go: the scopes that are normalized are those asked for, once each and in
-- order.
use mathlib.Core.List.Perm
use observai_api.Base.{String, Bool, not, ◌&&◌, ◌||◌, List, [], ◌∷◌, ◌++◌, any, if◌then◌else◌}
use observai_api.Base.Text.{is_empty, str_eq}
use observai_api.Keys.Types.{
  ApiKeyScope, is_valid_api_key_scope, scope_analysis_read, scope_analysis_write, scope_chat_write,
  scope_admin_read, scope_admin_write,
}
use observai_api.Keys.Scopes.{clean_scope}

-- The scopes that there are, in the order of strings.
abbrev pub scopes_in_order : List ApiKeyScope
scopes_in_order =
    scope_admin_read ∷ scope_admin_write ∷ scope_analysis_read ∷ scope_analysis_write
    ∷ scope_chat_write ∷ []

-- A text that is neither blank nor a scope.
abbrev pub is_bad : String → Bool
is_bad raw = not (is_empty (clean_scope raw)) && not (is_valid_api_key_scope (clean_scope raw))

-- Whether the scope is asked for.
abbrev pub asks : List String → ApiKeyScope → Bool
asks raws scope = any (λ raw. str_eq (clean_scope raw) scope) raws

-- The loop without its error.
abbrev collect : List String → List ApiKeyScope → List ApiKeyScope
collect [] out = out
collect (raw ∷ rest) out =
    let skipped = collect rest out in
    let kept = collect rest (out ++ clean_scope raw ∷ []) in
    if is_empty (clean_scope raw) || any (str_eq (clean_scope raw)) out then skipped else kept
