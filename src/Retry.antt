-- ===== src/Retry.antt =====
-- src/error.rs and src/error/retry.rs: the errors, which of them are retried, and `with_retry`. The
-- call number n of an operation answers `operation n`. The new delay (a product with a float) and
-- the random jitter of a retry are arguments, as is the conversion of an error to the crate's; a
-- delay is a number of milliseconds.
pub mod Attempts
pub mod Backoff
pub mod Agreement
mod Tests
use meilibridge.Prelude.{
  ℕ, zero, suc, ◌+◌, ◌-◌, ◌^◌, min, String, Bool, true, false, not, ◌||◌, Option, none, some, List,
  [], ◌∷◌, ◌++◌, ltb, leb, if◌then◌else◌,
}
use meilibridge.Prelude.Texts.{contains_text}
use meilibridge.Prelude.Result.{Result, ok, err}

-- The errors of the libraries are of the type L.
pub data MeiliBridgeError (L : Type 0) : Type 0 where
  config configuration validation source database meilisearch plugin : String → MeiliBridgeError L
  pipeline not_found redis resource_exhausted : String → MeiliBridgeError L
  io serialization yaml env_var : L → MeiliBridgeError L
  channel_send channel_receive : MeiliBridgeError L

unfoldable pub is_temporary : String → Bool
is_temporary msg =
    contains_text msg "timeout"
    || (contains_text msg "connection"
        || (contains_text msg "unavailable" || contains_text msg "Too Many Requests"))

unfoldable pub is_retryable_error : {L : Type 0} → MeiliBridgeError L → Bool
unfolding is_temporary
is_retryable_error (io e) = true
is_retryable_error (database msg) = true
is_retryable_error (meilisearch msg) = is_temporary msg
is_retryable_error _ = false

pub record RetryConfig : Type 0 where
  pub max_retries : ℕ
  pub initial_delay_ms : ℕ
  pub max_delay_ms : ℕ
  pub scale : ℕ → ℕ
  pub jitter : Bool

unfoldable pub default_config : (ℕ → ℕ) → RetryConfig
default_config doubled = record {
  max_retries = 3;
  initial_delay_ms = 1000;
  max_delay_ms = 60000;
  scale = doubled;
  jitter = true;
}

-- `saturating_add` of 64 bits.
abbrev pub saturating_add : ℕ → ℕ → ℕ
saturating_add a b = min (a + b) (2 ^ 64 - 1)

unfoldable pub actual_delay : RetryConfig → ℕ → ℕ → ℕ
actual_delay c drawn delay_ms = if c.jitter then saturating_add delay_ms drawn else delay_ms

unfoldable pub next_delay_ms : RetryConfig → ℕ → ℕ
next_delay_ms c delay_ms =
    let scaled = c.scale delay_ms in if ltb c.max_delay_ms scaled then c.max_delay_ms else scaled

module _ {E F A : Type 0} where
  module _ (into : E → F) (is_retryable : E → Bool) (operation : ℕ → Result E A) where
    -- The loop, from an attempt on; `drawn` gives the jitter of an attempt for a delay, and `slept`
    -- are the delays so far.
    unfoldable pub retry_loop :
        RetryConfig → (ℕ → ℕ → ℕ) → ℕ → ℕ → ℕ → List ℕ → Option (Result F A × List ℕ)
    unfolding actual_delay next_delay_ms
    retry_loop c drawn zero attempt delay_ms slept = none
    retry_loop c drawn (suc fuel) attempt delay_ms slept =
        let rest =
          retry_loop c drawn fuel (suc attempt) (next_delay_ms c delay_ms)
            (slept ++ actual_delay c (drawn attempt delay_ms) delay_ms ∷ []) in
        elim (operation attempt) [
          | ok a ↦ some (ok a, slept)
          | err e ↦
              if not (is_retryable e) || leb c.max_retries attempt
              then some (err (into e), slept)
              else rest
        ]

    -- The result and the delays that were slept. One round more than the retries is enough.
    unfoldable pub with_retry : RetryConfig → (ℕ → ℕ → ℕ) → Option (Result F A × List ℕ)
    unfolding retry_loop
    with_retry c drawn = retry_loop c drawn (suc c.max_retries) 0 c.initial_delay_ms []
