-- ===== src/Retry/Attempts.antt =====
-- src/error/retry.rs: how often `with_retry` calls the operation, what it returns and how long it
-- sleeps.
use meilibridge.Prelude.{
  ℕ, zero, suc, ◌+◌, ◌/◌, ◌≤◌, ◌<◌, max, ◌≡◌, refl, sym, ◌∙◌, ◌⊎◌, inl, inr, Bool, true, false,
  ◌&&◌, Option, some, List, [], ◌∷◌, ◌++◌, length, length-append, All, All-append, arith,
  Bool-cases, ap, subst,
}
use meilibridge.Prelude.Result.{Result, ok, err, map_err}
use meilibridge.Retry.{RetryConfig, actual_delay, next_delay_ms, retry_loop, with_retry}

-- The longest delay before the jitter: the first one is not capped.
abbrev pub longest : RetryConfig → ℕ
longest c = max c.initial_delay_ms c.max_delay_ms

-- A delay with its jitter, which is at most a quarter of it.
abbrev pub InBounds : RetryConfig → ℕ → Type 0
InBounds c d = d ≤ longest c + longest c / 4

next_delay_ms-bound : (c : RetryConfig) (d : ℕ) → next_delay_ms c d ≤ longest c
unfolding next_delay_ms
next_delay_ms-bound c d = ground arith

actual_delay-bound :
    (c : RetryConfig) (j d : ℕ) → j ≤ d / 4 → d ≤ longest c → InBounds c (actual_delay c j d)
unfolding actual_delay
actual_delay-bound c j d h k = elim (Bool-cases c.jitter) [
  | inl b ↦ rw b (omega (arith, h, k))
  | inr b ↦ rw b (omega (arith, k))
]

module _ {E A : Type 0} (is_retryable : E → Bool) (operation : ℕ → Result E A) where
  abbrev pub fails_retryably : ℕ → Bool
  fails_retryably n = elim (operation n) [ ok a ↦ false | err e ↦ is_retryable e ]

  abbrev pub all_fail : ℕ → Bool
  all_fail zero = true
  all_fail (suc n) = all_fail n && fails_retryably n

  -- What a run returns: every call but the last failed with an error that may be retried, the last
  -- did not or was the last one allowed, and its answer, with the error converted, is the result; a
  -- delay was slept between two calls.
  pub record Retried {F : Type 0} (into : E → F) (c : RetryConfig) (r : Result F A) (slept : List ℕ)
      : Type 0 where
    pub result : r ≡ map_err into (operation (length slept))
    pub before : all_fail (length slept) ≡ true
    pub allowed : length slept ≤ c.max_retries
    pub stopped : (fails_retryably (length slept) ≡ false) ⊎ (length slept ≡ c.max_retries)
    pub delays : All (InBounds c) slept

  module _ {F : Type 0} (into : E → F) (c : RetryConfig) (drawn : ℕ → ℕ → ℕ) where
    abbrev loop : ℕ → ℕ → ℕ → List ℕ → Option (Result F A × List ℕ)
    loop = retry_loop into is_retryable operation c drawn

    abbrev delay_at : ℕ → ℕ → ℕ
    delay_at attempt delay_ms = actual_delay c (drawn attempt delay_ms) delay_ms

    pub loop_succeeds :
        (fuel attempt d : ℕ) (slept : List ℕ)
        → fails_retryably attempt ≡ false
        → loop (suc fuel) attempt d slept ≡ some (map_err into (operation attempt), slept)
    unfolding retry_loop
    loop_succeeds fuel attempt d slept h = ground (arith, h)

    pub loop_gives_up :
        (fuel attempt d : ℕ) (slept : List ℕ)
        → c.max_retries ≤ attempt
        → loop (suc fuel) attempt d slept ≡ some (map_err into (operation attempt), slept)
    unfolding retry_loop
    loop_gives_up fuel attempt d slept h = ground (arith, h)

    pub loop_goes_on :
        (fuel attempt d : ℕ) (slept : List ℕ)
        → fails_retryably attempt ≡ true
        → attempt < c.max_retries
        → loop (suc fuel) attempt d slept
          ≡ loop fuel (suc attempt) (next_delay_ms c d) (slept ++ delay_at attempt d ∷ [])
    unfolding retry_loop
    loop_goes_on fuel attempt d slept h k = ground (arith, h, k)

    stopped-Retried :
        (attempt : ℕ) (slept : List ℕ)
        → length slept ≡ attempt
        → all_fail attempt ≡ true
        → attempt ≤ c.max_retries
        → (fails_retryably attempt ≡ false) ⊎ (attempt ≡ c.max_retries)
        → All (InBounds c) slept
        → Retried into c (map_err into (operation attempt)) slept
    stopped-Retried attempt slept l b allowed stop bounds = record {
      result = ap (λ n. map_err into (operation n)) (sym l);
      before = subst (λ n. all_fail n ≡ true) (sym l) b;
      allowed = omega (arith, l, allowed);
      stopped = subst (λ n. (fails_retryably n ≡ false) ⊎ (n ≡ c.max_retries)) (sym l) stop;
      delays = bounds;
    }

    module _ (quarter : (n d : ℕ) → drawn n d ≤ d / 4) where
      loop-Retried :
          (fuel attempt d : ℕ) (slept : List ℕ)
          → attempt + fuel ≡ c.max_retries
          → length slept ≡ attempt
          → all_fail attempt ≡ true
          → d ≤ longest c
          → All (InBounds c) slept
          → (r : Result F A) × (all : List ℕ) × (loop (suc fuel) attempt d slept ≡ some (r, all))
            × Retried into c r all
      loop-Retried zero attempt d slept f l b k bounds = (
        map_err into (operation attempt),
        slept,
        loop_gives_up zero attempt d slept (omega arith),
        stopped-Retried attempt slept l b (omega arith) (inr (omega arith)) bounds,
      )
      loop-Retried (suc fuel) attempt d slept f l b k bounds =
          elim (Bool-cases (fails_retryably attempt)) [
            | inr ends ↦ (
              map_err into (operation attempt),
              slept,
              loop_succeeds (suc fuel) attempt d slept ends,
              stopped-Retried attempt slept l b (omega arith) (inl ends) bounds,
            )
            | inl fails ↦
                let (r, all, e, done) =
                  loop-Retried fuel (suc attempt) (next_delay_ms c d)
                    (slept ++ delay_at attempt d ∷ []) (omega arith)
                    (length-append slept (delay_at attempt d ∷ []) ∙ omega arith)
                    (ground (arith, b, fails)) (next_delay_ms-bound c d)
                    (All-append (InBounds c) slept (delay_at attempt d ∷ []) bounds
                      (actual_delay-bound c (drawn attempt d) d (quarter attempt d) k, tt)) in
                (r, all, loop_goes_on (suc fuel) attempt d slept fails (omega arith) ∙ e, done)
          ]

      -- A run ends, with at most max_retries calls after the first: every call but the last failed
      -- with an error that may be retried, the last did not or was the last one allowed, and its
      -- answer is returned, an error converted. Between two calls it sleeps at most 5/4 of the
      -- larger of the initial and the maximal delay, if the jitter is at most a quarter of the
      -- delay.
      pub with_retry-Retried :
          (r : Result F A) × (slept : List ℕ) × (with_retry into is_retryable operation c drawn
            ≡ some (r, slept))
          × Retried into c r slept
      unfolding with_retry
      with_retry-Retried =
          loop-Retried c.max_retries 0 c.initial_delay_ms [] (omega arith) refl refl (omega arith)
            tt
