-- ===== src/Tests/Auth.antt =====
-- Runs of the theorems on authentication.
use text.Mathlib.Text.{◌==◌}
use observai_api.Base.{
  eq_iff, sym, eq_iff, ◌≡◌, refl, ap, subst, true, false, String, [], ◌∷◌, none, some, arith,
}
use observai_api.Base.Int.{pos}
use observai_api.Base.Dict.{lookup, insert}
use observai_api.Base.Errors.{Result, ok, err, ok-injective}
use observai_api.Base.Text.{byte_length}
use observai_api.Auth.Types.{
  UserPreferences, User, RefreshToken, is_expired, AuthSession, AuthOptions, AuthPorts, AuthState,
}
use observai_api.Auth.Users.{
  find_by_id, user_with_email, email_key, update_user, update_password, set_must_change_password,
}
use observai_api.Auth.Tokens.{invalid_token, find_by_hash, revoke_if, revoke_all_for_user}
use observai_api.Auth.Tokens.Laws.{AllRevoked}
use observai_api.Auth.Sessions.{
  begin_session, refused, access_ttl, refresh_ttl, draw_id, generate_refresh_secret, family_of,
  store_session, issue_session, login, refresh_user, refresh,
}
use observai_api.Auth.Password.{store_password, change_password}
use observai_api.Auth.Accounts.{create_user, set_stored_active, stored_user}
use observai_api.Auth.Profile.{normalize_email}
use observai_api.Auth.Admin.{
  is_valid_role, UserCreateRequest, new_user, create_valid, create_with_options, set_active,
}
use observai_api.Auth.Admin.Created.{create_with_options-login}
use observai_api.Auth.Admin.Laws.{set_active-refresh}
use observai_api.Auth.Sessions.Laws.{refresh_reuse, login-refused, change_password-refresh}
use observai_api.Auth.Sessions.Rotation.{IsDistinct, refresh_once}

abbrev ports : AuthPorts
ports = record {
  next_id = λ n. ok "i9";
  random_hex = λ n. ok "secret9";
  hash_token = λ s. s;
  sign = λ claims. ok "signed";
  verify = λ hash password. hash == password;
  hash_password = λ password. ok password;
}

abbrev opts : AuthOptions
opts = record { access_token_ttl = pos 10; refresh_token_ttl = pos 1000 }

abbrev preferences : UserPreferences
preferences = record { locale = "en-US"; timezone = "UTC"; theme = "dark"; dense_mode = false }

abbrev ana : User
ana = record {
  id = "u1";
  name = "Ana";
  email = "ana@x.org";
  password_hash = "old password";
  role = "admin";
  is_active = true;
  must_change_password = false;
  preferences = preferences;
  created_at = 1;
  updated_at = 1;
  last_login_at = none;
}

abbrev live : RefreshToken
live = record {
  id = "t1";
  user_id = "u1";
  token_hash = "secret1";
  family_id = "f1";
  expires_at = 900;
  revoked_at = none;
  replaced_by = none;
  created_at = 1;
}

abbrev used : RefreshToken
used = record live {
  id = "t0";
  token_hash = "secret0";
  revoked_at = some 50;
  replaced_by = some "t1";
}

abbrev state : AuthState
state = record {
  time = 100;
  users = ("u1", ana) ∷ [];
  tokens = ("secret0", used) ∷ ("secret1", live) ∷ [];
  ids_drawn = 0;
  secrets_drawn = 0;
}

refresh_reuse_example :
    ((refresh ports opts "secret0" state).0 ≡ err invalid_token)
    × AllRevoked (λ t. t.family_id == "f1") (refresh ports opts "secret0" state).1.tokens
unfolding lookup
refresh_reuse_example = refresh_reuse ports opts "secret0" used state refl refl

login-refused_example : login ports opts "ana@x.org" "wrong" state ≡ (err refused, state)
unfolding user_with_email email_key
login-refused_example = login-refused ports opts "ana@x.org" "wrong" state refl

changed : (change_password ports "u1" "old password" "new password" state).0 ≡ ok tt
unfolding change_password store_password update_password set_must_change_password update_user
    find_by_id lookup insert byte_length
changed = refl

change_password-refresh_example :
    (refresh ports opts "secret1"
      (change_password ports "u1" "old password" "new password" state).1).0
    ≡ err invalid_token
unfolding change_password store_password update_password set_must_change_password update_user
    revoke_all_for_user revoke_if find_by_id lookup insert byte_length
change_password-refresh_example =
    change_password-refresh ports opts "u1" "old password" "new password" "secret1"
      (record live { revoked_at = some 100 }) state changed refl refl

deactivated :
    (set_active "u1" false state).0 ≡ ok (record ana { is_active = false; updated_at = 100 })
unfolding set_active set_stored_active update_user find_by_id lookup insert revoke_all_for_user
deactivated = refl

set_active-refresh_example :
    let after = (set_active "u1" false state).1 in
    ((refresh ports opts "secret1" after).0 ≡ err invalid_token)
    × ((refresh ports opts "secret1" (set_active "u1" true after).1).0 ≡ err invalid_token)
unfolding set_active set_stored_active update_user find_by_id revoke_all_for_user revoke_if lookup
    insert
set_active-refresh_example =
    set_active-refresh ports opts "u1" "secret1"
      (record ana { is_active = false; updated_at = 100 }) (record live { revoked_at = some 100 })
      state deactivated refl refl

abbrev wanted : UserCreateRequest
wanted = record {
  name = "";
  email = " Bob@x.org";
  password = "long password";
  role = "viewer";
  must_change_password = true;
  preferences = preferences;
}

abbrev bob : User
bob = new_user wanted "bob@x.org" "i9" "long password" 100

created : (create_with_options ports (λ s. s) (λ s. true) wanted state).0 ≡ ok bob
unfolding create_with_options create_valid normalize_email byte_length is_valid_role draw_id
    create_user
created = refl

long_password-matches :
    (hash : String)
    → ports.hash_password "long password" ≡ ok hash
    → ports.verify hash "long password" ≡ true
long_password-matches hash e =
    (eq_iff hash "long password").1 (sym (ok-injective "long password" hash e))

create_with_options-login_example :
    let after = (create_with_options ports (λ s. s) (λ s. true) wanted state).1 in
    login ports opts bob.email "long password" after
    ≡ begin_session ports opts (stored_user bob) after
create_with_options-login_example =
    create_with_options-login ports opts (λ s. s) (λ s. true) wanted bob state long_password-matches
      created

abbrev session : AuthSession
session = record {
  user = ana;
  access_value = "signed";
  access_expires_at = 110;
  refresh_id = "i9";
  refresh_value = "secret9";
  refresh_expires_at = 1100;
  family_id = "f1";
}

string_or : String → Result String → String
string_or d (ok s) = s
string_or d (err e) = d

ok_same : (a b : String) → ok a ≡ ok b → a ≡ b
unfolding string_or
ok_same a b h = ap (string_or a) h

live-IsDistinct : IsDistinct ports "secret1" live state.tokens
live-IsDistinct = record {
  named = refl;
  only = (
    (λ e. let q : false ≡ true = (eq_iff "t0" "t1").1 e in absurd (ground arith)),
    ((λ e. refl), tt),
  );
  new_ids = λ n id h. subst (λ x. (x == "t1") ≡ false) (ok_same "i9" id h) refl;
  new_hashes = λ n s h. subst (λ x. (x == "secret1") ≡ false) (ok_same "secret9" s h) refl;
}

renewed : (refresh ports opts "secret1" state).0 ≡ ok session
unfolding refresh refresh_user find_by_hash find_by_id issue_session store_session family_of draw_id
    generate_refresh_secret is_expired access_ttl refresh_ttl lookup
renewed = refl

refresh_once_example :
    ((refresh ports opts "secret1" (refresh ports opts "secret1" state).1).0 ≡ err invalid_token)
    × AllRevoked
        (λ t. t.family_id == "f1")
        (refresh ports opts "secret1" (refresh ports opts "secret1" state).1).1.tokens
unfolding lookup
refresh_once_example =
    refresh_once ports opts "secret1" live state session live-IsDistinct refl renewed
