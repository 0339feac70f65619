-- ===== src/Retry/Tests.antt =====
-- src/error/retry.rs and src/recovery/retry.rs: the theorems, with an operation that succeeds at
-- its third call.
use meilibridge.Prelude.{ℕ, zero, suc, ◌*◌, ◌/◌, ◌≡◌, refl, some, List, [], ◌∷◌, arith}
use meilibridge.Prelude.Texts.{contains_text}
use meilibridge.Prelude.Result.{Result, ok, err}
use meilibridge.Retry.{
  MeiliBridgeError, meilisearch, is_retryable_error, is_temporary, default_config, with_retry,
  retry_loop, actual_delay, next_delay_ms,
}
use meilibridge.Retry.Attempts.{Retried, with_retry-Retried}
use meilibridge.Retry.Backoff.{new_policy, execute_with_conditional_retry}
use meilibridge.Retry.Agreement.{summary, converted, retries_agree}

abbrev unavailable : MeiliBridgeError ℕ
unavailable = meilisearch "service unavailable"

abbrev flaky : ℕ → Result (MeiliBridgeError ℕ) ℕ
flaky zero = err unavailable
flaky (suc zero) = err unavailable
flaky (suc (suc n)) = ok n

-- The error of the operation is the crate's own.
abbrev as_is : MeiliBridgeError ℕ → MeiliBridgeError ℕ
as_is e = e

abbrev doubled : ℕ → ℕ
doubled d = 2 * d

abbrev quarter_of : ℕ → ℕ → ℕ
quarter_of n d = d / 4

with_retry-Retried_example :
    (r : Result (MeiliBridgeError ℕ) ℕ) × (slept : List ℕ) × (with_retry as_is is_retryable_error
        flaky
        (default_config doubled)
        quarter_of
      ≡ some (r, slept))
    × Retried is_retryable_error flaky as_is (default_config doubled) r slept
with_retry-Retried_example =
    with_retry-Retried is_retryable_error flaky as_is (default_config doubled) quarter_of
      (λ n d. omega arith)

third_call :
    with_retry as_is is_retryable_error flaky (default_config doubled) quarter_of
    ≡ some (ok 0, 1250 ∷ 2500 ∷ [])
unfolding with_retry retry_loop actual_delay next_delay_ms default_config is_retryable_error
    is_temporary contains_text
third_call = refl

abbrev same_delay : ℕ → ℕ → ℕ
same_delay n d = d

retries_agree_example :
    summary is_retryable_error flaky
      (with_retry as_is is_retryable_error flaky (default_config doubled) quarter_of)
    ≡ converted is_retryable_error flaky as_is
        (execute_with_conditional_retry is_retryable_error flaky (new_policy doubled) same_delay)
unfolding default_config new_policy
retries_agree_example =
    retries_agree is_retryable_error flaky same_delay as_is (default_config doubled) quarter_of
      (new_policy doubled) (omega arith) refl
