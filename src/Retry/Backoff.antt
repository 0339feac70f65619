-- ===== src/Retry/Backoff.antt =====
-- src/recovery/retry.rs: RetryPolicy, ExponentialBackoff and RetryManager. A duration is a number of
-- milliseconds; the products with a float, by the multiplier and by the random jitter, are arguments.
use meilibridge.Prelude.{
  ℕ, zero, suc, ◌-◌, Bool, true, not, Option, none, some, List, [], ◌∷◌, ◌++◌, leb, ltb, inc_u32,
  if◌then◌else◌,
}
use meilibridge.Prelude.Result.{Result, ok, err}

pub record RetryPolicy : Type 0 where
  pub max_retries : ℕ
  pub initial_delay : ℕ
  pub max_delay : ℕ
  pub scale : ℕ → ℕ
  pub jitter : Bool

unfoldable pub new_policy : (ℕ → ℕ) → RetryPolicy
new_policy doubled = record {
  max_retries = 3;
  initial_delay = 100;
  max_delay = 60000;
  scale = doubled;
  jitter = true;
}

abbrev pub with_max_retries : ℕ → RetryPolicy → RetryPolicy
with_max_retries n p = record p { max_retries = n }

abbrev pub with_initial_delay : ℕ → RetryPolicy → RetryPolicy
with_initial_delay d p = record p { initial_delay = d }

abbrev pub with_max_delay : ℕ → RetryPolicy → RetryPolicy
with_max_delay d p = record p { max_delay = d }

abbrev pub with_multiplier : (ℕ → ℕ) → RetryPolicy → RetryPolicy
with_multiplier scale p = record p { scale = scale }

abbrev pub with_jitter : Bool → RetryPolicy → RetryPolicy
with_jitter b p = record p { jitter = b }

pub record ExponentialBackoff : Type 0 where
  pub policy : RetryPolicy
  pub current_retry : ℕ
  pub current_delay : ℕ

unfoldable pub new : RetryPolicy → ExponentialBackoff
new policy = record { policy = policy; current_retry = 0; current_delay = policy.initial_delay }

unfoldable pub reset : ExponentialBackoff → ExponentialBackoff
reset b = record b { current_retry = 0; current_delay = b.policy.initial_delay }

unfoldable pub advance : ExponentialBackoff → ExponentialBackoff
advance b =
    let scaled = b.policy.scale b.current_delay in
    record b {
      current_retry = inc_u32 b.current_retry;
      current_delay = if ltb b.policy.max_delay scaled then b.policy.max_delay else scaled;
    }

-- The delay of this retry, with its jitter, and the backoff after it.
unfoldable pub next_delay : (ℕ → ℕ) → ExponentialBackoff → Option ℕ × ExponentialBackoff
unfolding advance
next_delay jittered b =
    if leb b.policy.max_retries b.current_retry
    then (none, b)
    else (some (if b.policy.jitter then jittered b.current_delay else b.current_delay), advance b)

unfoldable pub retries_remaining : ExponentialBackoff → ℕ
retries_remaining b = b.policy.max_retries - b.current_retry

module _ {E A : Type 0} where
  -- After a call that failed: another round, or the error.
  abbrev pub after_failure :
      E
      → List ℕ
      → (ExponentialBackoff → List ℕ → Option (Result E A × List ℕ))
      → Option ℕ × ExponentialBackoff
      → Option (Result E A × List ℕ)
  after_failure e slept again (none, b) = some (err e, slept)
  after_failure e slept again (some delay, b) = again b (slept ++ delay ∷ [])

  module _ (should_retry : E → Bool) (operation : ℕ → Result E A) where
    -- The loop from a call on; `jittered` gives the delay of a call with its jitter.
    unfoldable pub retry_loop :
        (ℕ → ℕ → ℕ) → ℕ → ℕ → ExponentialBackoff → List ℕ → Option (Result E A × List ℕ)
    unfolding next_delay
    retry_loop jittered zero call b slept = none
    retry_loop jittered (suc fuel) call b slept = elim (operation call) [
      | ok a ↦ some (ok a, slept)
      | err e ↦
          if not (should_retry e)
          then some (err e, slept)
          else after_failure e slept (retry_loop jittered fuel (suc call))
              (next_delay (jittered call) b)
    ]

    unfoldable pub execute_with_conditional_retry :
        RetryPolicy → (ℕ → ℕ → ℕ) → Option (Result E A × List ℕ)
    unfolding retry_loop new
    execute_with_conditional_retry policy jittered =
        retry_loop jittered (suc policy.max_retries) 0 (new policy) []

  -- The same loop without the test of the error.
  unfoldable pub execute_with_retry :
      (ℕ → Result E A) → RetryPolicy → (ℕ → ℕ → ℕ) → Option (Result E A × List ℕ)
  unfolding execute_with_conditional_retry
  execute_with_retry = execute_with_conditional_retry (λ e. true)
