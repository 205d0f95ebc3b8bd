-- ===== src/Auth/Admin/Created.antt =====
-- internal/core/usecase/user.go: a user that was created can log in.
use text.Mathlib.Text.{◌==◌}
use text.Mathlib.TextPositions.{eq_refl}
use observai_api.Base.{
  suc, subst, String, Bool, true, false, some, [], ◌∷◌, ◌≡◌, refl, arith, Bool-cases, inl, inr, ltb,
}
use observai_api.Base.Text.{to_lower, equal_fold, byte_length}
use observai_api.Base.Dict.{Dict, insert}
use observai_api.Base.Errors.{Result-cases, ok, err, wrap, ok-injective}
use observai_api.Auth.Types.{User, AuthPorts, AuthOptions, AuthState}
use observai_api.Auth.Users.{email_key, user_with_email, find_by_email}
use observai_api.Auth.Accounts.{email_in_use, stored_user, existing_user, create_user}
use observai_api.Auth.Sessions.{login, begin_session, draw_id}
use observai_api.Auth.Profile.{normalize_email}
use observai_api.Auth.Password.{short_password}
use observai_api.Auth.Admin.{
  UserCreateRequest, new_user, create_valid, create_with_options, is_valid_role, unsupported_role,
}

equal_fold_refl : (s : String) → equal_fold s s ≡ true
unfolding equal_fold
equal_fold_refl s = eq_refl (to_lower s)

user_with_email-insert :
    (email id : String) (user : User) (users : Dict User)
    → email_in_use email users ≡ false
    → equal_fold user.email email ≡ true
    → user_with_email email (insert id user users) ≡ some user
unfolding user_with_email email_in_use insert
user_with_email-insert email id user [] free same = rw same refl
user_with_email-insert email id user ((other, u) ∷ users) free same =
    elim (Bool-cases (equal_fold u.email email)) [
      | inl taken ↦ let q : true ≡ false = rw taken at free in absurd (ground arith)
      | inr differs ↦ elim (Bool-cases (other == id)) [
        | inl here ↦ rw (here, same) refl
        | inr elsewhere ↦
            let rest : email_in_use email users ≡ false = rw differs at free in
            rw (elsewhere, differs) (user_with_email-insert email id user users rest same)
      ]
    ]

-- The user is found under its email, and the password is the one that was hashed.
record IsCreated (ports : AuthPorts) (password : String) (user : User) (w : AuthState)
    : Type 0 where
  hashed : ports.hash_password password ≡ ok user.password_hash
  active : user.is_active ≡ true
  stored : user_with_email (email_key user.email) w.users ≡ some (stored_user user)

create_valid-IsCreated :
    (ports : AuthPorts) (request : UserCreateRequest) (email : String) (user : User) (w : AuthState)
    → (create_valid ports request email w).0 ≡ ok user
    → IsCreated ports request.password user (create_valid ports request email w).1
unfolding create_valid draw_id create_user
create_valid-IsCreated ports request email user w h =
    elim (Result-cases (ports.next_id w.ids_drawn)) [
      | inr (e, failed) ↦
          let q : err (wrap "generate user id" e) ≡ ok user = rw failed at h in
          absurd (ground arith)
      | inl (id, drawn) ↦ elim (Result-cases (ports.hash_password request.password)) [
        | inr (e, failed) ↦
            let q : err (wrap "hash password" e) ≡ ok user = rw failed at (rw drawn at h) in
            absurd (ground arith)
        | inl (hash, hashed) ↦ elim (Bool-cases (email_in_use (email_key email) w.users)) [
          | inl taken ↦
              let q : err existing_user ≡ ok user = rw taken at (rw hashed at (rw drawn at h)) in
              absurd (ground arith)
          | inr free ↦
              let made = new_user request email id hash w.time in
              let e : made ≡ user =
                ok-injective made user (rw free at (rw hashed at (rw drawn at h))) in
              let found =
                user_with_email-insert (email_key email) id (stored_user made) w.users free
                  (equal_fold_refl (email_key email)) in
              rw drawn (
                rw hashed (
                  rw free (
                    subst
                      (λ u. IsCreated ports request.password u (record w {
                        ids_drawn = suc w.ids_drawn;
                        users = insert id (stored_user made) w.users;
                      }))
                      e (record { hashed = hashed; active = refl; stored = found }))))
        ]
      ]
    ]

create_with_options-IsCreated :
    (ports : AuthPorts) (quote : String → String) (is_address : String → Bool)
    (request : UserCreateRequest) (user : User) (w : AuthState)
    → let (result, after) = create_with_options ports quote is_address request w in
      result ≡ ok user → IsCreated ports request.password user after
unfolding create_with_options
create_with_options-IsCreated ports quote is_address request user w h =
    elim (Result-cases (normalize_email is_address request.email)) [
      | inr (e, failed) ↦ let q : err e ≡ ok user = rw failed at h in absurd (ground arith)
      | inl (email, cleaned) ↦ elim (Bool-cases (ltb (byte_length request.password) 8)) [
        | inl short ↦
            let q : err short_password ≡ ok user = rw short at (rw cleaned at h) in
            absurd (ground arith)
        | inr long ↦ elim (Bool-cases (is_valid_role request.role)) [
          | inr other ↦
              let q : err (unsupported_role quote request.role) ≡ ok user =
                rw other at (rw long at (rw cleaned at h)) in
              absurd (ground arith)
          | inl valid ↦ rw cleaned (
              rw long (
                rw valid (
                  create_valid-IsCreated ports request email user w
                    (rw valid at (rw long at (rw cleaned at h))))))
        ]
      ]
    ]

-- If CreateWithOptions returns a user, and a password matches the hash that was made of it, then a
-- Login with the email of that user and the password of the request is admitted: it begins a session of the
-- stored user.
pub create_with_options-login :
    (ports : AuthPorts) (opts : AuthOptions) (quote : String → String) (is_address : String → Bool)
    (request : UserCreateRequest) (user : User) (w : AuthState)
    → ((hash : String)
        → ports.hash_password request.password ≡ ok hash
        → ports.verify hash request.password ≡ true)
    → (create_with_options ports quote is_address request w).0 ≡ ok user
    → let after = (create_with_options ports quote is_address request w).1 in
      login ports opts user.email request.password after
      ≡ begin_session ports opts (stored_user user) after
unfolding login find_by_email
create_with_options-login ports opts quote is_address request user w matches h =
    let made = create_with_options-IsCreated ports quote is_address request user w h in
    rw made.stored (rw made.active (rw (matches user.password_hash made.hashed) refl))
