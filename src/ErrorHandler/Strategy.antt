-- ===== src/ErrorHandler/Strategy.antt =====
-- src/recovery/error_handler.rs: what the handler answers to a row of errors of one task.
use meilibridge.Prelude.{
  ℕ, ◌+◌, ◌^◌, ◌≤◌, ◌<◌, String, ◌≡◌, refl, ◌∙◌, ap, List, [], ◌∷◌, length, inc_u32, leb, arith,
  string_eq, if◌then◌else◌, subst, ◌≢◌,
}
use meilibridge.Prelude.Map
use meilibridge.Prelude.Map.{Map, lookup-insert_self}
use meilibridge.ErrorHandler.{
  retry, pause, ErrorType, network, data_validation, not_found, permission, rate_limit, timeout,
  unknown, ErrorContext, ErrorHandler, or_new, record_error, noted, determine_strategy,
  strategy_by_type,
}

-- The errors of one task that a handler has counted since the last success.
abbrev pub consecutive : String → ErrorHandler → ℕ
consecutive t h = (or_new (Map.lookup t h.task_stats)).consecutive_errors

-- The handler after a row of errors of a task.
abbrev pub after_errors : List (ErrorContext × ℕ) → ErrorHandler → ErrorHandler
after_errors [] h = h
after_errors ((c, now) ∷ cs) h = after_errors cs (determine_strategy c now h).1

abbrev pub AllOfTask : String → List (ErrorContext × ℕ) → Type 0
AllOfTask t [] = Unit
AllOfTask t ((c, now) ∷ cs) = (c.task_id ≡ t) × AllOfTask t cs

consecutive-determine_strategy :
    (c : ErrorContext) (now : ℕ) (h : ErrorHandler)
    → consecutive c.task_id (determine_strategy c now h).1 ≡ inc_u32 (consecutive c.task_id h)
unfolding determine_strategy noted record_error
consecutive-determine_strategy c now h =
    ap (λ o. (or_new o).consecutive_errors)
      (lookup-insert_self c.task_id (noted c now h) h.task_stats)

limit-after_errors :
    (cs : List (ErrorContext × ℕ)) (h : ErrorHandler)
    → (after_errors cs h).max_consecutive_errors ≡ h.max_consecutive_errors
unfolding determine_strategy
limit-after_errors [] h = refl
limit-after_errors ((c, now) ∷ cs) h = limit-after_errors cs (determine_strategy c now h).1

strategy-determine_strategy :
    (c d : ErrorContext) (now : ℕ) (h : ErrorHandler) (et : ErrorType)
    → strategy_by_type (determine_strategy d now h).1 et c ≡ strategy_by_type h et c
unfolding determine_strategy strategy_by_type
strategy-determine_strategy c d now h network = refl
strategy-determine_strategy c d now h data_validation = refl
strategy-determine_strategy c d now h not_found = refl
strategy-determine_strategy c d now h permission = refl
strategy-determine_strategy c d now h rate_limit = refl
strategy-determine_strategy c d now h timeout = refl
strategy-determine_strategy c d now h unknown = refl

strategy-after_errors :
    (c : ErrorContext) (cs : List (ErrorContext × ℕ)) (h : ErrorHandler) (et : ErrorType)
    → strategy_by_type (after_errors cs h) et c ≡ strategy_by_type h et c
strategy-after_errors c [] h et = refl
strategy-after_errors c ((d, now) ∷ cs) h et =
    strategy-after_errors c cs (determine_strategy d now h).1 et
    ∙ strategy-determine_strategy c d now h et

consecutive-after_errors :
    (t : String) (cs : List (ErrorContext × ℕ)) (h : ErrorHandler)
    → AllOfTask t cs
    → consecutive t h + length cs < 2 ^ 32
    → consecutive t (after_errors cs h) ≡ consecutive t h + length cs
consecutive-after_errors t [] h a small = omega arith
consecutive-after_errors t ((c, now) ∷ cs) h a small =
    let one : consecutive t (determine_strategy c now h).1 ≡ inc_u32 (consecutive t h) =
      subst (λ x. consecutive x (determine_strategy c now h).1 ≡ inc_u32 (consecutive x h)) a.0
        (consecutive-determine_strategy c now h) in
    let more : inc_u32 (consecutive t h) ≡ consecutive t h + 1 = ground (arith, small) in
    let rest =
      consecutive-after_errors t cs (determine_strategy c now h).1 a.1
        (omega (arith, one, more, small)) in
    omega (arith, rest, one, more)

-- After a row of errors of a task, the next error of the task is answered by a pause if it is the
-- max_consecutive_errors-th since the last success, or a later one, and by the strategy for its type
-- if not, whatever errors of it came before (their number staying below 2 ^ 32).
pub pauses_at_limit :
    (t : String) (cs : List (ErrorContext × ℕ)) (c : ErrorContext) (now : ℕ) (h : ErrorHandler)
    → AllOfTask t cs
    → c.task_id ≡ t
    → consecutive t h + length cs + 1 < 2 ^ 32
    → (determine_strategy c now (after_errors cs h)).0 ≡ (
        if leb h.max_consecutive_errors (consecutive t h + length cs + 1)
        then pause
        else strategy_by_type h c.error_type c)
unfolding determine_strategy noted record_error
pauses_at_limit t cs c now h a same small =
    let before = consecutive-after_errors t cs h a (omega (arith, small)) in
    let here : consecutive c.task_id (after_errors cs h) ≡ consecutive t (after_errors cs h) =
      ap (λ x. consecutive x (after_errors cs h)) same in
    let counted : inc_u32 (consecutive c.task_id (after_errors cs h))
        ≡ consecutive t h + length cs + 1 =
      ground (arith, before, here, small) in
    ground (arith, counted, limit-after_errors cs h, strategy-after_errors c cs h c.error_type)

-- An error that is not of a rate limit is not retried for ever: with two retries or more, and as many
-- as max_retry_count, its strategy is another one.
pub gives_up :
    (h : ErrorHandler) (et : ErrorType) (c : ErrorContext)
    → et ≢ rate_limit
    → 2 ≤ c.retry_count
    → h.max_retry_count ≤ c.retry_count
    → strategy_by_type h et c ≢ retry
unfolding strategy_by_type
gives_up h network c ne two top e = ground (arith, e, top)
gives_up h data_validation c ne two top e = ground (arith, e)
gives_up h not_found c ne two top e = ground (arith, e, two)
gives_up h permission c ne two top e = ground (arith, e)
gives_up h rate_limit c ne two top e = ne refl
gives_up h timeout c ne two top e = ground (arith, e, top)
gives_up h unknown c ne two top e = ground (arith, e, top)
