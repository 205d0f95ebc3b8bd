-- ===== src/Retry/Backoff.antt =====
-- internal/platform/retry/retry.go: how long the loop sleeps.
use Prim.Native.Nat.{min}
use native.Mathlib.Nat.{pow-suc}
use observai_api.Base.{ℕ, zero, suc, ◌+◌, ◌-◌, ◌*◌, ◌%◌, ◌^◌, ◌≤◌, ◌<◌, ◌≡◌, true, arith, ltb}
use observai_api.Base.Int.{ℤ, pos, negsuc}
use observai_api.Retry.{Policy, millisecond, base_of, cap_of, scale, window, backoff, positive_or}

positive_or-pos : (d : ℕ) (z : ℤ) → 0 < d → 0 < positive_or d z
positive_or-pos d (pos zero) h = h
positive_or-pos d (pos (suc n)) h = omega arith
positive_or-pos d (negsuc n) h = h

window_bounds :
    (base limit k : ℕ) → 0 < limit → (0 < window base limit k) × (window base limit k ≤ limit)
unfolding window
window_bounds base limit k h = let word = base * scale k % 2 ^ 64 in ground arith

-- What math/rand documents of Int64N: the result lies below a positive argument.
abbrev pub IsRandom : (ℕ → ℕ) → Type 0
IsRandom rand = (n : ℕ) → 0 < n → rand n < n

-- Where base and cap together fit an int64, rand.Int64N gets a positive argument, and every sleep
-- lasts at least the base delay and less than base and cap together, however often the exponential
-- overflows.
pub backoff_bounds :
    (rand : ℕ → ℕ) (p : Policy) (attempt : ℕ)
    → IsRandom rand
    → base_of p + cap_of p < 2 ^ 63
    → (0 < window (base_of p) (cap_of p) (attempt - 1))
      × (base_of p ≤ backoff rand p attempt)
      × (backoff rand p attempt < base_of p + cap_of p)
unfolding backoff
backoff_bounds rand p attempt r fits =
    let w = window (base_of p) (cap_of p) (attempt - 1) in
    let bounds =
      window_bounds (base_of p) (cap_of p) (attempt - 1)
        (positive_or-pos _ p.max_delay (omega arith)) in
    let below : rand w < w = r w bounds.0 in (bounds.0, omega arith, omega arith)

pow_pos : (k : ℕ) → 0 < 2 ^ k
pow_pos zero = omega arith
pow_pos (suc k) = rw (pow-suc 2 k) (omega (arith, pow_pos k))

mul_pos : (a b : ℕ) → 0 < a → 0 < b → 0 < a * b
mul_pos a b p q = grind arith

-- As long as base * 2^k fits an int64, the jitter is drawn below the smaller of it and the cap.
window-min :
    (base limit k : ℕ)
    → 0 < base
    → k < 63
    → base * 2 ^ k < 2 ^ 63
    → window base limit k ≡ min limit (base * 2 ^ k)
unfolding window scale
window-min base limit k p few fits =
    let pos_product = mul_pos base (2 ^ k) p (pow_pos k) in
    let test : ltb k 64 ≡ true = ground arith in
    let no_wrap : base * 2 ^ k % 2 ^ 64 ≡ base * 2 ^ k = omega arith in
    rw test (rw no_wrap (ground arith))

-- As long as base * 2^(attempt-1) fits an int64, the sleep lasts at least the base delay and less
-- than the base delay plus the smaller of that product and the cap.
pub backoff_doubles :
    (rand : ℕ → ℕ) (p : Policy) (attempt : ℕ)
    → IsRandom rand
    → base_of p + cap_of p < 2 ^ 63
    → attempt - 1 < 63
    → base_of p * 2 ^ (attempt - 1) < 2 ^ 63
    → (base_of p ≤ backoff rand p attempt)
      × (backoff rand p attempt < base_of p + min (cap_of p) (base_of p * 2 ^ (attempt - 1)))
unfolding backoff
backoff_doubles rand p attempt r fits few small =
    let base_pos = positive_or-pos (100 * millisecond) p.base_delay (omega arith) in
    let cap_pos = positive_or-pos (2000 * millisecond) p.max_delay (omega arith) in
    let product = mul_pos (base_of p) (2 ^ (attempt - 1)) base_pos (pow_pos (attempt - 1)) in
    rw (window-min (base_of p) (cap_of p) (attempt - 1) base_pos few small)
      (omega (arith, r (min (cap_of p) (base_of p * 2 ^ (attempt - 1))) (omega arith)))

-- `MaxDelay` does not limit the sleep: where the exponential has reached the cap, a draw at the top
-- of the jitter makes the loop sleep longer than the cap.
pub backoff_exceeds_cap :
    (p : Policy) (attempt : ℕ)
    → 2 ≤ base_of p
    → base_of p + cap_of p < 2 ^ 63
    → window (base_of p) (cap_of p) (attempt - 1) ≡ cap_of p
    → cap_of p < backoff (λ n. n - 1) p attempt
unfolding backoff
backoff_exceeds_cap p attempt two fits reached = rw reached (omega arith)
