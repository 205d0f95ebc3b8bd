-- ===== src/Base/Errors.antt =====
-- Go's errors: the sentinel that `errors.Is` finds, and the message.
use Prim.Native.String.{String, ◌++◌}
use mathlib.Core.Path.{◌≡◌, refl, ap}
use mathlib.Core.Logic.{◌⊎◌, inl, inr}

-- `other` is an error with no sentinel that the program tests for.
pub data Sentinel : Type 0 where
  invalid_analysis_request analysis_not_found job_not_found trace_not_found : Sentinel
  chat_message_not_found invalid_chat_question analysis_context_not_found : Sentinel
  user_not_found invalid_credentials invalid_user user_already_exists : Sentinel
  invalid_refresh_token : Sentinel
  api_key_not_found api_key_revoked api_key_expired invalid_api_key : Sentinel
  invalid_webhook webhook_not_found webhook_delivery_not_found : Sentinel
  context_canceled deadline_exceeded queue_closed setup_completed other : Sentinel

pub record Error : Type 0 where
  pub sentinel : Sentinel
  pub message : String

pub data Result {ℓ} (A : Type ℓ) : Type ℓ where
  ok : A → Result A
  err : Error → Result A

infixl 5 ◌>>=◌
abbrev pub ◌>>=◌ {a b} : {A : Type a} → {B : Type b} → Result A → (A → Result B) → Result B
err e >>= next = err e
ok value >>= next = next value

infixl 5 ◌>>◌
abbrev pub ◌>>◌ {b} : {B : Type b} → Result (Unit {0}) → Result B → Result B
first >> second = first >>= λ _. second

abbrev pub error : Sentinel → String → Error
error s m = record { sentinel = s; message = m }

-- fmt.Errorf("prefix: %w", err)
abbrev pub wrap : String → Error → Error
wrap prefix e = record { sentinel = e.sentinel; message = prefix ++ ": " ++ e.message }

-- The result with its error wrapped.
abbrev pub or_wrap {ℓ} : {A : Type ℓ} → String → Result A → Result A
or_wrap prefix (ok a) = ok a
or_wrap prefix (err e) = err (wrap prefix e)

-- To split on a result and keep the equation.
pub Result-cases {ℓ} :
    {A : Type ℓ} (r : Result A) → ((a : A) × (r ≡ ok a)) ⊎ ((e : Error) × (r ≡ err e))
Result-cases (ok a) = inl (a, refl)
Result-cases (err e) = inr (e, refl)

value_or {ℓ} : {A : Type ℓ} → A → Result A → A
value_or a (ok b) = b
value_or a (err e) = a

pub ok-injective {ℓ} : {A : Type ℓ} (a b : A) → ok a ≡ ok b → a ≡ b
unfolding value_or
ok-injective a b p = ap (value_or a) p
