-- ===== src/Retry/Loop.antt =====
-- internal/platform/retry/retry.go: what the retry loop returns.
use observai_api.Base.{
  ℕ, zero, suc, ◌+◌, ◌-◌, ◌≤◌, ◌<◌, ◌≡◌, refl, subst, ap, ◌∙◌, sym, ◌⊎◌, inl, inr, Bool, true,
  false, not, ◌||◌, Option, none, some, arith, Bool-cases, Option-cases, is_some,
}
use mathlib.Core.Option.{some-injective}
use native.Mathlib.Decide.{ℕ_discrete}
use observai_api.Base.Int.{ℤ, pos, negsuc}
use observai_api.Retry.{Policy, Outcome, positive_or, or_last, attempts_from, retry}

module _ {E : Type 0} (ctx_err : ℕ → Option E) (operation : ℕ → Option E) (retryable : E → Bool)
    (interrupted : ℕ → Bool) where
  -- The operation failed at an attempt with an error that allowed another attempt.
  abbrev pub FailedRetryably : ℕ → Type 0
  FailedRetryably attempt =
      (e : E) × (operation attempt ≡ some e) × (retryable e ≡ true) × (interrupted attempt ≡ false)

  abbrev pub EarlierFailed : ℕ → Type 0
  EarlierFailed n = (i : ℕ) → 0 < i → i < n → FailedRetryably i

  -- Why the loop ends with an error: no attempt is left, the error is not retryable, or the context
  -- has ended.
  abbrev pub Stopped : ℕ → ℕ → E → Type 0
  Stopped attempts calls e =
      (calls ≡ attempts)
      ⊎ ((retryable e ≡ false)
          ⊎ ((interrupted calls ≡ true) ⊎ (is_some (ctx_err (calls + 1)) ≡ true)))

  -- The result is that of the last call, or the context's error if it ended before the first.
  pub record IsCorrect (attempts : ℕ) (o : Outcome E) : Type 0 where
    pub called :
        ((0 < o.calls) × (operation o.calls ≡ o.result))
        ⊎ ((o.calls ≡ 0) × (ctx_err 1 ≡ o.result) × (is_some o.result ≡ true))
    pub bounded : o.calls ≤ attempts
    pub earlier : EarlierFailed o.calls
    pub stopped : (e : E) → o.result ≡ some e → Stopped attempts o.calls e

  abbrev Prior : ℕ → Option E → Type 0
  Prior attempt last =
      ((attempt ≡ 1) × (last ≡ none))
      ⊎ ((e : E) × (1 < attempt) × (operation (attempt - 1) ≡ some e) × (last ≡ some e))

  context_over :
      (attempt : ℕ) (e : E)
      → 0 < attempt
      → ctx_err attempt ≡ some e
      → is_some (ctx_err (attempt - 1 + 1)) ≡ true
  context_over attempt e p c =
      let back : attempt - 1 + 1 ≡ attempt = omega arith in
      ap (λ n. is_some (ctx_err n)) back ∙ ap is_some c

  ended :
      (attempts attempt : ℕ) (last : Option E) (e : E)
      → Prior attempt last
      → EarlierFailed attempt
      → attempt ≤ attempts
      → ctx_err attempt ≡ some e
      → IsCorrect attempts (record { result = some (or_last last e); calls = attempt - 1 })
  ended attempts attempt last e (inl (one, fresh)) earlier le c = record {
    called = inr (omega arith, rw fresh (rw one at c), refl);
    bounded = omega arith;
    earlier = λ i p q. earlier i p (omega arith);
    stopped = λ x h. inr (inr (inr (context_over attempt e (omega arith) c)));
  }
  ended attempts attempt last e (inr (prev, later, was, is)) earlier le c = record {
    called = inl (omega arith, rw is was);
    bounded = omega arith;
    earlier = λ i p q. earlier i p (omega arith);
    stopped = λ x h. inr (inr (inr (context_over attempt e (omega arith) c)));
  }

  succeeded :
      (attempts attempt : ℕ)
      → 0 < attempt
      → EarlierFailed attempt
      → attempt ≤ attempts
      → operation attempt ≡ none
      → IsCorrect attempts (record { result = none; calls = attempt })
  succeeded attempts attempt p earlier le h = record {
    called = inl (p, h);
    bounded = le;
    earlier = earlier;
    stopped = λ x k. cc;
  }

  failed :
      (attempts attempt : ℕ) (e : E)
      → 0 < attempt
      → EarlierFailed attempt
      → attempt ≤ attempts
      → operation attempt ≡ some e
      → Stopped attempts attempt e
      → IsCorrect attempts (record { result = some e; calls = attempt })
  failed attempts attempt e p earlier le h stop = record {
    called = inl (p, h);
    bounded = le;
    earlier = earlier;
    stopped = λ x k. subst (Stopped attempts attempt) (some-injective _ _ k) stop;
  }

  extend :
      (attempt : ℕ) → EarlierFailed attempt → FailedRetryably attempt → EarlierFailed (suc attempt)
  extend attempt earlier now i p q = elim (ℕ_discrete i attempt) [
    | yes same ↦ subst FailedRetryably (sym same) now
    | no other ↦ earlier i p (omega arith)
  ]

  abbrev run : ℕ → ℕ → Option E → Outcome E
  run = attempts_from ctx_err operation retryable interrupted

  stops :
      (attempt : ℕ) (e : E)
      → (not (retryable e) || interrupted attempt) ≡ true
      → (retryable e ≡ false)
        ⊎ ((interrupted attempt ≡ true) ⊎ (is_some (ctx_err (attempt + 1)) ≡ true))
  stops attempt e t = ground arith

  goes_on :
      (attempt : ℕ) (e : E)
      → (not (retryable e) || interrupted attempt) ≡ false
      → (retryable e ≡ true) × (interrupted attempt ≡ false)
  goes_on attempt e f = ground arith

  at_previous :
      (attempt : ℕ) (e : E) → operation attempt ≡ some e → operation (suc attempt - 1) ≡ some e
  at_previous attempt e h = let same : suc attempt - 1 ≡ attempt = omega arith in rw same h

  attempts_from-IsCorrect :
      (left attempt : ℕ) (last : Option E)
      → 0 < attempt
      → Prior attempt last
      → EarlierFailed attempt
      → IsCorrect (attempt + left) (run left attempt last)
  unfolding attempts_from
  attempts_from-IsCorrect zero attempt last p prior earlier =
      elim (Option-cases (ctx_err attempt)) [
        | inr (e, c) ↦
            rw (c, attempts_from) (ended (attempt + 0) attempt last e prior earlier (omega arith) c)
        | inl c ↦ elim (Option-cases (operation attempt)) [
          | inl h ↦
              rw (c, attempts_from)
                (rw (h, attempts_from) (succeeded (attempt + 0) attempt p earlier (omega arith) h))
          | inr (e, h) ↦
              rw (c, attempts_from)
                (rw (h, attempts_from)
                  (failed (attempt + 0) attempt e p earlier (omega arith) h (inl (omega arith))))
        ]
      ]
  attempts_from-IsCorrect (suc left) attempt last p prior earlier =
      elim (Option-cases (ctx_err attempt)) [
        | inr (e, c) ↦
            rw (c, attempts_from)
              (ended (attempt + suc left) attempt last e prior earlier (omega arith) c)
        | inl c ↦ elim (Option-cases (operation attempt)) [
          | inl h ↦
              rw (c, attempts_from)
                (rw (h, attempts_from)
                  (succeeded (attempt + suc left) attempt p earlier (omega arith) h))
          | inr (e, h) ↦ elim (Bool-cases (not (retryable e) || interrupted attempt)) [
            | inl t ↦
                rw (c, attempts_from)
                  (rw (h, attempts_from)
                    (rw t (
                      failed (attempt + suc left) attempt e p earlier (omega arith) h
                        (inr (stops attempt e t)))))
            | inr f ↦
                rw (c, attempts_from)
                  (rw (h, attempts_from)
                    (rw f (
                      subst (λ n. IsCorrect n (run left (suc attempt) (some e))) (omega arith)
                        (attempts_from-IsCorrect left (suc attempt) (some e) (omega arith)
                          (inr (e, omega arith, at_previous attempt e h, refl))
                          (extend attempt earlier
                            (e, h, (goes_on attempt e f).0, (goes_on attempt e f).1))))))
          ]
        ]
      ]

  attempts_pos : (z : ℤ) → 0 < positive_or 1 z
  attempts_pos (pos zero) = omega arith
  attempts_pos (pos (suc n)) = omega arith
  attempts_pos (negsuc n) = omega arith

  -- The result is that of the last call of the operation, or the context's error if the context had
  -- ended before the first. The calls are at most the policy's attempts (one, if it has none), each
  -- but the last failed retryably, and the loop ends with an error only if no attempt is left, the
  -- error is not retryable or the context has ended.
  pub retry-IsCorrect :
      (p : Policy)
      → IsCorrect (positive_or 1 p.max_attempts) (retry ctx_err operation retryable interrupted p)
  unfolding retry
  retry-IsCorrect p =
      let n = positive_or 1 p.max_attempts in
      let at_least : 0 < n = attempts_pos p.max_attempts in
      let total : 1 + (n - 1) ≡ n = omega arith in
      subst (λ m. IsCorrect m (run (n - 1) 1 none)) total
        (attempts_from-IsCorrect (n - 1) 1 none (omega arith) (inl (refl, refl))
          (λ i a b. absurd (omega arith)))
