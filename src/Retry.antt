-- ===== src/Retry.antt =====
-- internal/platform/retry/retry.go: the retry loop of outbound provider calls.
-- A time.Duration is an int64: a length is a number below 2^63, and products and sums are taken
-- modulo 2^64. Chance and the outside world (rand.Int64N, the operation, the context) are arguments.
use observai_api.Base.{
  ℕ, zero, suc, ◌+◌, ◌-◌, ◌*◌, ◌%◌, ◌^◌, ◌==◌, Bool, not, ◌||◌, Option, none, some, ltb, leb,
  if◌then◌else◌,
}
use observai_api.Base.Int.{ℤ, pos, negsuc}
pub mod Backoff
pub mod Loop

pub record Policy : Type 0 where
  pub max_attempts : ℤ
  pub base_delay : ℤ
  pub max_delay : ℤ

abbrev pub millisecond : ℕ
millisecond = 1_000_000

unfoldable pub default_policy : Policy
default_policy = record {
  max_attempts = pos 3;
  base_delay = pos (100 * millisecond);
  max_delay = pos (2000 * millisecond);
}

-- The value if it is positive, the default if not.
abbrev pub positive_or : ℕ → ℤ → ℕ
positive_or d (pos zero) = d
positive_or d (pos (suc n)) = suc n
positive_or d (negsuc n) = d

abbrev pub base_of : Policy → ℕ
base_of p = positive_or (100 * millisecond) p.base_delay

abbrev pub cap_of : Policy → ℕ
cap_of p = positive_or (2000 * millisecond) p.max_delay

-- time.Duration(1) << k: a shift by 64 or more leaves nothing.
unfoldable pub scale : ℕ → ℕ
scale k = if ltb k 64 then 2 ^ k else 0

-- base * scale as an int64 word; `exp <= 0` is a word that is 0 or has its sign bit set.
unfoldable pub window : ℕ → ℕ → ℕ → ℕ
unfolding scale
window base limit k =
    let word = base * scale k % 2 ^ 64 in
    if word == 0 || leb (2 ^ 63) word || ltb limit word then limit else word

-- backoff; `rand n` is what rand.Int64N(n) returns.
unfoldable pub backoff : (ℕ → ℕ) → Policy → ℕ → ℕ
backoff rand p attempt = (base_of p + rand (window (base_of p) (cap_of p) (attempt - 1))) % 2 ^ 64

-- What Do returns (none is success) and how often it called the operation.
pub record Outcome (E : Type 0) : Type 0 where
  pub result : Option E
  pub calls : ℕ

abbrev pub or_last {ℓ} : {E : Type ℓ} → Option E → E → E
or_last none e = e
or_last (some last) e = last

-- The context's error before an attempt, the operation's error at an attempt, which errors are
-- retryable, and whether the context ends while the loop sleeps after an attempt.
module _ {E : Type 0} (ctx_err : ℕ → Option E) (operation : ℕ → Option E) (retryable : E → Bool)
    (interrupted : ℕ → Bool) where
  -- The loop at `attempt`, with `left` attempts after it; `last` is lastErr.
  unfoldable pub attempts_from : (left attempt : ℕ) → Option E → Outcome E
  attempts_from zero attempt last = elim (ctx_err attempt) [
    | some e ↦ record { result = some (or_last last e); calls = attempt - 1 }
    | none ↦ elim (operation attempt) [
      | none ↦ record { result = none; calls = attempt }
      | some e ↦ record { result = some e; calls = attempt }
    ]
  ]
  attempts_from (suc left) attempt last = elim (ctx_err attempt) [
    | some e ↦ record { result = some (or_last last e); calls = attempt - 1 }
    | none ↦ elim (operation attempt) [
      | none ↦ record { result = none; calls = attempt }
      | some e ↦
          if not (retryable e) || interrupted attempt
          then record { result = some e; calls = attempt }
          else attempts_from left (suc attempt) (some e)
    ]
  ]

  -- Do: a policy with no positive number of attempts makes one.
  unfoldable pub retry : Policy → Outcome E
  unfolding attempts_from
  retry p = attempts_from (positive_or 1 p.max_attempts - 1) 1 none
