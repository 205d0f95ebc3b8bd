-- ===== src/Auth/Sessions/Issue.antt =====
-- internal/core/usecase/auth.go: what issueSession leaves in the repository of refresh tokens when it
-- returns a session.
use observai_api.Base.{
  ℕ, suc, ◌+◌, String, none, some, ◌≡◌, refl, arith, Bool-cases, inl, inr, if◌then◌else◌,
}
use observai_api.Base.Text.{is_empty}
use observai_api.Base.Dict.{Dict, insert}
use observai_api.Base.Errors.{Result, ok, err, or_wrap}
use observai_api.Base.Exec.{Exec, continue, ◌>>=◌}
use observai_api.Domain.Analysis.{Time}
use observai_api.Auth.Types.{User, RefreshToken, AuthSession, AuthOptions, AuthPorts, AuthState}
use observai_api.Auth.Tokens.{create_token, revoke_first, revoke}
use observai_api.Auth.Sessions.{
  refresh_ttl, SessionRotation, draw_id, generate_refresh_secret, family_of, store_session,
  issue_session,
}

or_wrap_ok :
    {A : Type 0} (message : String) (r : Result A) (a : A) → or_wrap message r ≡ ok a → r ≡ ok a
or_wrap_ok message (ok b) a h = h
or_wrap_ok message (err e) a h = absurd (ground arith)

module _ (ports : AuthPorts) (opts : AuthOptions) (user : User) (now : Time)
    (rotation : SessionRotation) (tokens : Dict RefreshToken) where
  -- The tokens once the new one is stored and the replaced one revoked.
  abbrev pub replaced : RefreshToken → Dict RefreshToken
  replaced new =
      let stored = insert new.token_hash new tokens in
      if is_empty rotation.replace_id
      then stored
      else revoke_first rotation.replace_id (some new.id) now stored

  -- What is stored when a session is issued.
  pub record Issued (w : AuthState) : Type 0 where
    pub new : RefreshToken
    pub id_call : ℕ
    pub drawn : ports.next_id id_call ≡ ok new.id
    pub secret : String
    pub secret_call : ℕ
    pub random : ports.random_hex secret_call ≡ ok secret
    pub hashed : new.token_hash ≡ ports.hash_token secret
    pub stored : w.tokens ≡ replaced new

  abbrev pub Out : Result AuthSession × AuthState → Type 0
  Out out = (s : AuthSession) → out.0 ≡ ok s → Issued out.1

  step :
      {A : Type 0} (r : Result A) (k : A → Exec AuthState AuthSession) (w : AuthState)
      → ((a : A) → r ≡ ok a → Out (k a w))
      → Out (continue r k w)
  step (ok a) k w h = h a refl
  step (err e) k w h = λ s p. absurd (ground arith)

  store_session-Issued :
      (access_value refresh_id family_id secret : String) (i j : ℕ) (w : AuthState)
      → ports.next_id i ≡ ok refresh_id
      → ports.random_hex j ≡ ok secret
      → w.tokens ≡ tokens
      → Out (store_session ports opts user now rotation access_value refresh_id family_id secret w)
  unfolding store_session create_token revoke
  store_session-Issued access_value refresh_id family_id secret i j w drawn random same s p =
      elim (Bool-cases (is_empty rotation.replace_id)) [
        | inl fresh ↦ record {
          new = record {
            id = refresh_id;
            user_id = user.id;
            token_hash = ports.hash_token secret;
            family_id = family_id;
            expires_at = now + refresh_ttl opts;
            revoked_at = none;
            replaced_by = none;
            created_at = now;
          };
          id_call = i;
          drawn = drawn;
          secret = secret;
          secret_call = j;
          random = random;
          hashed = refl;
          stored = rw (fresh) (rw (same) refl);
        }
        | inr replacing ↦ record {
          new = record {
            id = refresh_id;
            user_id = user.id;
            token_hash = ports.hash_token secret;
            family_id = family_id;
            expires_at = now + refresh_ttl opts;
            revoked_at = none;
            replaced_by = none;
            created_at = now;
          };
          id_call = i;
          drawn = drawn;
          secret = secret;
          secret_call = j;
          random = random;
          hashed = refl;
          stored = rw (replacing) (rw (same) refl);
        }
      ]

  -- issueSession from the family on.
  issued_from_family :
      (access_value refresh_id family_id : String) (i : ℕ) (w : AuthState)
      → ports.next_id i ≡ ok refresh_id
      → w.tokens ≡ tokens
      → Out (
          (generate_refresh_secret ports >>= λ secret.
          store_session ports opts user now rotation access_value refresh_id family_id secret)
            w)
  unfolding generate_refresh_secret
  issued_from_family access_value refresh_id family_id i w drawn same =
      step (or_wrap "generate refresh secret" (ports.random_hex w.secrets_drawn))
        (λ secret.
          store_session ports opts user now rotation access_value refresh_id family_id secret)
        (record w { secrets_drawn = suc w.secrets_drawn })
        (λ secret p.
          store_session-Issued access_value refresh_id family_id secret i w.secrets_drawn
            (record w { secrets_drawn = suc w.secrets_drawn }) drawn
            (or_wrap_ok "generate refresh secret" (ports.random_hex w.secrets_drawn) secret p) same)

  family_step :
      (access_value refresh_id : String) (i : ℕ) (w : AuthState)
      → ports.next_id i ≡ ok refresh_id
      → w.tokens ≡ tokens
      → Out (
          (family_of ports rotation >>= λ family_id. generate_refresh_secret ports >>= λ secret.
          store_session ports opts user now rotation access_value refresh_id family_id secret)
            w)
  unfolding family_of draw_id
  family_step access_value refresh_id i w drawn same =
      elim (Bool-cases (is_empty rotation.family_id)) [
        | inl none_yet ↦ rw none_yet (
            step (or_wrap "generate refresh family id" (ports.next_id w.ids_drawn))
              (λ family_id. generate_refresh_secret ports >>= λ secret.
                store_session ports opts user now rotation access_value refresh_id family_id secret)
              (record w { ids_drawn = suc w.ids_drawn })
              (λ family_id p.
                issued_from_family access_value refresh_id family_id i
                  (record w { ids_drawn = suc w.ids_drawn }) drawn same))
        | inr given ↦
            rw given (issued_from_family access_value refresh_id rotation.family_id i w drawn same)
      ]

  pub issue_session-Issued :
      (w : AuthState) → w.tokens ≡ tokens → Out (issue_session ports opts user now rotation w)
  unfolding issue_session draw_id
  issue_session-Issued w same =
      step (or_wrap "generate access jti" (ports.next_id w.ids_drawn)) _ _ (λ jti p.
        step (or_wrap "sign access token" (ports.sign _)) _ _ (λ access_value q.
          step (or_wrap "generate refresh id" (ports.next_id (suc w.ids_drawn))) _ _
            (λ refresh_id r.
              family_step access_value refresh_id (suc w.ids_drawn) _
                (or_wrap_ok "generate refresh id" (ports.next_id (suc w.ids_drawn)) refresh_id r)
                same)))
