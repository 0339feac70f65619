-- ===== src/Retry/Agreement.antt =====
-- src/error/retry.rs and src/recovery/retry.rs: the two retry loops against each other.
use meilibridge.Prelude.{
  ℕ, zero, suc, ◌+◌, ◌^◌, ◌≤◌, ◌<◌, ◌≡◌, refl, sym, ◌∙◌, ap, Bool, true, false, Option, none, some,
  List, [], ◌∷◌, ◌++◌, length, length-append, leb, arith, if◌then◌else◌, Bool-cases, inl, inr,
  leb→le,
}
use meilibridge.Prelude.Result.{Result, map_err}
use meilibridge.Retry.{RetryConfig, with_retry, retry_loop, actual_delay, next_delay_ms}
use meilibridge.Retry.Backoff
use meilibridge.Retry.Backoff.{
  RetryPolicy, ExponentialBackoff, after_failure, next_delay, advance, new,
  execute_with_conditional_retry,
}
use meilibridge.Retry.Attempts.{fails_retryably, loop_succeeds, loop_gives_up, loop_goes_on}

module _ {E A : Type 0} (is_retryable : E → Bool) (operation : ℕ → Result E A) where
  -- The result and the number of delays.
  abbrev pub summary : {F : Type 0} → Option (Result F A × List ℕ) → Option (Result F A × ℕ)
  summary none = none
  summary (some (r, slept)) = some (r, length slept)

  -- The same, with an error converted.
  abbrev pub converted :
      {F : Type 0} → (E → F) → Option (Result E A × List ℕ) → Option (Result F A × ℕ)
  converted into none = none
  converted into (some (r, slept)) = some (map_err into r, length slept)

  module _ (jittered : ℕ → ℕ → ℕ) where
    abbrev loop : ℕ → ℕ → ExponentialBackoff → List ℕ → Option (Result E A × List ℕ)
    loop = Backoff.retry_loop is_retryable operation jittered

    backoff_succeeds :
        (fuel call : ℕ) (b : ExponentialBackoff) (slept : List ℕ)
        → fails_retryably is_retryable operation call ≡ false
        → loop (suc fuel) call b slept ≡ some (operation call, slept)
    unfolding Backoff.retry_loop
    backoff_succeeds fuel call b slept h = ground (arith, h)

    backoff_gives_up :
        (fuel call : ℕ) (b : ExponentialBackoff) (slept : List ℕ)
        → b.policy.max_retries ≤ b.current_retry
        → loop (suc fuel) call b slept ≡ some (operation call, slept)
    unfolding Backoff.retry_loop next_delay
    backoff_gives_up fuel call b slept h = ground (arith, h)

    backoff_goes_on :
        (fuel call : ℕ) (b : ExponentialBackoff) (slept : List ℕ)
        → fails_retryably is_retryable operation call ≡ true
        → b.current_retry < b.policy.max_retries
        → loop (suc fuel) call b slept
          ≡ loop fuel (suc call) (advance b) (
              slept
              ++ (if b.policy.jitter then jittered call b.current_delay else b.current_delay) ∷ [])
    unfolding Backoff.retry_loop next_delay
    backoff_goes_on fuel call b slept h k = ground (arith, h, k)

    module _ {F : Type 0} (into : E → F) (c : RetryConfig) (drawn : ℕ → ℕ → ℕ) where
      -- Both loops stop with the same answer.
      both_stop :
          (x : Option (Result F A × List ℕ)) (y : Option (Result E A × List ℕ)) (r : Result E A)
          (slept slept' : List ℕ)
          → x ≡ some (map_err into r, slept)
          → y ≡ some (r, slept')
          → length slept ≡ length slept'
          → summary x ≡ converted into y
      both_stop x y r slept slept' ex ey l = rw (ex, ey) (ap (λ n. some (map_err into r, n)) l)

      loops_agree :
          (fuel call d : ℕ) (slept slept' : List ℕ) (b : ExponentialBackoff)
          → c.max_retries < 2 ^ 32
          → b.policy.max_retries ≡ c.max_retries
          → b.current_retry ≡ call
          → length slept ≡ length slept'
          → summary (retry_loop into is_retryable operation c drawn fuel call d slept)
            ≡ converted into (loop fuel call b slept')
      unfolding retry_loop Backoff.retry_loop
      loops_agree zero call d slept slept' b small p n l = refl
      loops_agree (suc fuel) call d slept slept' b small p n l =
          elim (Bool-cases (fails_retryably is_retryable operation call)) [
            | inr ends ↦
                both_stop _ _ (operation call) slept slept'
                  (loop_succeeds is_retryable operation into c drawn fuel call d slept ends)
                  (backoff_succeeds fuel call b slept' ends) l
            | inl fails ↦ elim (Bool-cases (leb c.max_retries call)) [
              | inl top ↦
                  both_stop _ _ (operation call) slept slept'
                    (loop_gives_up is_retryable operation into c drawn fuel call d slept
                      (leb→le _ _ top))
                    (backoff_gives_up fuel call b slept' (ground (arith, top, p, n))) l
              | inr more ↦
                  let delay = actual_delay c (drawn call d) d in
                  let delay' =
                    if b.policy.jitter then jittered call b.current_delay else b.current_delay in
                  let later =
                    loops_agree fuel (suc call) (next_delay_ms c d) (slept ++ delay ∷ [])
                      (slept' ++ delay' ∷ []) (advance b) small (unfold advance in p)
                      (unfold advance in ground (arith, more, n, small))
                      (length-append slept (delay ∷ [])
                        ∙ (ap (λ k. k + 1) l ∙ sym (length-append slept' (delay' ∷ [])))) in
                  ap summary (
                    loop_goes_on is_retryable operation into c drawn fuel call d slept fails
                      (ground (arith, more)))
                  ∙ (later
                      ∙ sym (
                          ap (converted into) (
                            backoff_goes_on fuel call b slept' fails (ground (arith, more, p, n)))))
            ]
          ]

      -- For the same number of retries (of 32 bits) and the same test of an error, `with_retry` and
      -- `execute_with_conditional_retry` return the same result after as many delays, whatever the
      -- delays are; `with_retry` converts an error.
      pub retries_agree :
          (policy : RetryPolicy)
          → c.max_retries < 2 ^ 32
          → policy.max_retries ≡ c.max_retries
          → summary (with_retry into is_retryable operation c drawn)
            ≡ converted into (execute_with_conditional_retry is_retryable operation policy jittered)
      unfolding with_retry execute_with_conditional_retry new
      retries_agree policy small p =
          loops_agree (suc c.max_retries) 0 c.initial_delay_ms [] [] (new policy) small p refl refl
          ∙ ap (λ n. converted into (loop (suc n) 0 (new policy) [])) (sym p)
