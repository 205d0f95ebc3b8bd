-- ===== src/Tests/Retry.antt =====
-- Runs of the theorems on the retry loop.
use Prim.Native.Nat.{min}
use observai_api.Base.{
  ℕ, ◌+◌, ◌-◌, ◌*◌, ◌^◌, refl, ◌≤◌, ◌<◌, arith, true, false, Option, none, some, ltb, if◌then◌else◌,
}
use observai_api.Base.Errors.{Error, error, deadline_exceeded}
use observai_api.Retry.{default_policy, scale, window, backoff, retry}
use observai_api.Retry.Backoff.{IsRandom, backoff_bounds, backoff_doubles, backoff_exceeds_cap}
use observai_api.Retry.Loop.{IsCorrect, retry-IsCorrect}

abbrev top : ℕ → ℕ
top n = n - 1

abbrev top-IsRandom : IsRandom top
top-IsRandom n h = omega arith

backoff_bounds_example :
    (0 < window 100_000_000 2_000_000_000 1)
    × (100_000_000 ≤ backoff top default_policy 2)
    × (backoff top default_policy 2 < 2_100_000_000)
unfolding default_policy
backoff_bounds_example = backoff_bounds top default_policy 2 top-IsRandom (omega arith)

backoff_doubles_example :
    (100_000_000 ≤ backoff top default_policy 2)
    × (backoff top default_policy 2 < 100_000_000 + min 2_000_000_000 (100_000_000 * 2 ^ 1))
unfolding default_policy
backoff_doubles_example =
    backoff_doubles top default_policy 2 top-IsRandom (omega arith) (omega arith) (omega arith)

backoff_exceeds_cap_example : 2_000_000_000 < backoff top default_policy 9
unfolding default_policy window scale
backoff_exceeds_cap_example = backoff_exceeds_cap default_policy 9 (omega arith) (omega arith) refl

abbrev unavailable : ℕ → Option Error
unavailable attempt = if ltb attempt 2 then some (error deadline_exceeded "timeout") else none

retry-IsCorrect_example :
    IsCorrect
      (λ n. none)
      unavailable
      (λ e. true)
      (λ n. false)
      3
      (retry (λ n. none) unavailable (λ e. true) (λ n. false) default_policy)
unfolding default_policy
retry-IsCorrect_example =
    retry-IsCorrect (λ n. none) unavailable (λ e. true) (λ n. false) default_policy
