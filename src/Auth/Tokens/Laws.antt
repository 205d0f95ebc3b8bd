-- ===== src/Auth/Tokens/Laws.antt =====
-- internal/adapters/outbound/inmemory/refresh_token_repository.go: which tokens a call revokes.
use text.Mathlib.Text.{◌==◌}
use text.Mathlib.TextPositions.{eq_refl}
use mathlib.Core.Option.{some-injective}
use observai_api.Base.{
  String, Bool, true, false, [], ◌∷◌, Option, some, ◌≡◌, refl, sym, subst, All, arith, Bool-cases,
  inl, inr, eq_iff,
}
use observai_api.Base.Dict.{Dict, lookup, map_values}
use observai_api.Domain.Analysis.{Time}
use observai_api.Auth.Types.{RefreshToken, is_revoked}
use observai_api.Auth.Tokens.{revoke_first, revoke_if}

-- Every token that passes the test is revoked.
abbrev pub AllRevoked : (RefreshToken → Bool) → Dict RefreshToken → Type 0
AllRevoked test tokens = All (λ entry. test entry.1 ≡ true → is_revoked entry.1 ≡ true) tokens

-- What RevokeFamily and RevokeAllForUser do, where the test reads neither of the fields that change.
pub revoke_if-AllRevoked :
    (test : RefreshToken → Bool) (at : Time) (tokens : Dict RefreshToken)
    → AllRevoked test (map_values (revoke_if test at) tokens)
unfolding map_values revoke_if
revoke_if-AllRevoked test at [] = tt
revoke_if-AllRevoked test at ((hash, token) ∷ tokens) =
    (ground arith, revoke_if-AllRevoked test at tokens)

-- Only the token under this hash has this identifier.
abbrev pub OnlyAt : String → String → Dict RefreshToken → Type 0
OnlyAt hash id tokens = All (λ entry. entry.1.id ≡ id → entry.0 ≡ hash) tokens

pub revoke_first-revokes :
    (hash : String) (replaced_by : Option String) (at : Time) (token : RefreshToken)
    (tokens : Dict RefreshToken)
    → OnlyAt hash token.id tokens
    → lookup hash tokens ≡ some token
    → is_revoked token ≡ false
    → lookup hash (revoke_first token.id replaced_by at tokens)
      ≡ some (record token { revoked_at = some at; replaced_by = replaced_by })
unfolding revoke_first lookup
revoke_first-revokes hash replaced_by at token [] only found fresh = cc
revoke_first-revokes hash replaced_by at token ((h, t) ∷ tokens) only found fresh =
    elim (Bool-cases (h == hash)) [
      | inl here ↦
          let same = some-injective _ _ (rw here at found) in
          subst
            (λ x.
              lookup hash (revoke_first token.id replaced_by at ((h, x) ∷ tokens))
              ≡ some (record token { revoked_at = some at; replaced_by = replaced_by }))
            (sym same) (rw (eq_refl token.id) (rw fresh (rw here refl)))
      | inr elsewhere ↦ elim (Bool-cases (t.id == token.id)) [
        | inl named ↦
            let p = only.0 ((eq_iff t.id token.id).0 named) in
            let q : (hash == hash) ≡ false = rw p at elsewhere in
            absurd (ground (arith, eq_refl hash))
        | inr other ↦
            let deeper : lookup hash tokens ≡ some token = rw elsewhere at found in
            let rest = revoke_first-revokes hash replaced_by at token tokens only.1 deeper fresh in
            rw (other, revoke_first) (rw elsewhere rest)
      ]
    ]
