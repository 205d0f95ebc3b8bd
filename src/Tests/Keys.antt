-- ===== src/Tests/Keys.antt =====
-- Runs of the theorems on API keys.
use observai_api.Base.{String, true, List, [], ◌∷◌, Option, none, some, ◌≡◌, refl, ap, subst}
use observai_api.Base.Dict.{Dict, lookup, insert, lookup-insert_self}
use observai_api.Base.Errors.{Result, ok, err, ok-injective}
use observai_api.Base.Text.{is_space}
use observai_api.Base.Text.Plain.{all_chars, is_solid}
use observai_api.Base.Text.Split.{is_not}
use observai_api.Keys.Types.{ApiKey, IssuedApiKey}
use observai_api.Keys.Access.{KeyState, KeyPorts, IssueApiKeyRequest, issue, resolve, key_not_found}
use observai_api.Keys.Access.Token.{token_of}
use observai_api.Keys.Access.Laws.{IsBackend, IsKept, resolve-issue}

abbrev requested : List String
requested = " Chat:Write" ∷ "" ∷ "admin:read" ∷ "chat:write" ∷ []

abbrev or_not_found : Option ApiKey → Result ApiKey
or_not_found none = err key_not_found
or_not_found (some key) = ok key

-- A repository in memory, and generators that always give the same answer.
abbrev ports : KeyPorts (Dict ApiKey)
ports = record {
  create = λ key keys. (ok tt, insert key.hash key keys);
  find_by_hash = λ hash keys. (or_not_found (lookup hash keys), keys);
  list = λ limit offset keys. (ok [], keys);
  revoke = λ id keys. (ok tt, keys);
  touch_last_used = λ id keys. (ok tt, keys);
  next_id = λ n. ok "0192f-7c";
  random_hex = λ n. ok "c0ffee";
  hash_api_key = λ s. s;
}

insert-IsKept :
    (key : ApiKey) (keys : Dict ApiKey)
    → IsKept key (or_not_found (lookup key.hash (insert key.hash key keys)))
insert-IsKept key keys = record {
  kept = key;
  is_found = ap or_not_found (lookup-insert_self key.hash key keys);
  same_id = refl;
  same_scopes = refl;
  same_expiry = refl;
  same_revocation = refl;
}

id_is_solid : all_chars is_solid "0192f-7c" ≡ true
unfolding is_space
id_is_solid = refl

secret_is_solid : all_chars is_solid "c0ffee" ≡ true
unfolding is_space
secret_is_solid = refl

backend : IsBackend ports
backend = record {
  persists = λ key keys h. insert-IsKept key keys;
  id_solid = λ n id h. subst (λ s. all_chars is_solid s ≡ true) (ok-injective _ _ h) id_is_solid;
  id_plain = λ n id h. subst (λ s. all_chars (is_not b'_') s ≡ true) (ok-injective _ _ h) refl;
  secret_solid =
      λ n s h. subst (λ t. all_chars is_solid t ≡ true) (ok-injective _ _ h) secret_is_solid;
}

abbrev key_request : IssueApiKeyRequest
key_request = record {
  name = " ci ";
  description = "";
  scopes = "chat:write" ∷ [];
  expires_at = some 900;
}

abbrev empty_state : KeyState (Dict ApiKey)
empty_state = record { time = 100; ids_drawn = 0; secrets_drawn = 0; stored = [] }

abbrev issued : IssuedApiKey
issued = record {
  api_key = record {
    id = "0192f-7c";
    name = "ci";
    description = "";
    hash = "c0ffee";
    scopes = "chat:write" ∷ [];
    created_at = 100;
    expires_at = some 900;
    last_used_at = none;
    revoked_at = none;
  };
  secret = token_of "0192f-7c" "c0ffee";
}

issued_is : (issue ports key_request empty_state).0 ≡ ok issued
unfolding issue
issued_is = refl

resolve-issue_example :
    (found : ApiKey) × ((resolve ports issued.secret
        (record (issue ports key_request empty_state).1 { time = 500 })).0
      ≡ ok found)
    × (found.id ≡ "0192f-7c")
    × (found.scopes ≡ "chat:write" ∷ [])
resolve-issue_example =
    resolve-issue ports backend key_request empty_state issued 500 issued_is refl
