-- ===== src/Delivery/TwoPhase.antt =====
-- src/delivery/transaction.rs: TwoPhaseCommit. Each method holds the lock on the map throughout. The
-- removal that a commit schedules for five seconds later is the step `forget`.
pub mod States
mod Tests
use meilibridge.Prelude.{
  ℕ, ◌-◌, ◌*◌, ◌^◌, String, Bool, true, false, not, ◌&&◌, Option, none, some, List, [], ◌∷◌, ltb,
  string_eq, if◌then◌else◌,
}
use meilibridge.Prelude.Map
use meilibridge.Prelude.Map.{Map}
use meilibridge.Prelude.Result.{Result, ok, err}
use meilibridge.Models.{Position}
use meilibridge.Delivery.Error.{
  Outcome, TransactionState, started, prepared, committed, aborted, already_exists, not_found,
  invalid_state, not_prepared,
}

pub record Transaction : Type 0 where
  pub id : String
  pub task_id : String
  pub state : TransactionState
  pub position : Option Position
  pub created_at : ℕ
  pub participants : List String

pub record TwoPhaseCommit : Type 0 where
  pub timeout_secs : ℕ
  pub transactions : Map String Transaction

abbrev pub new : ℕ → TwoPhaseCommit
new timeout_secs = record { timeout_secs = timeout_secs; transactions = [] }

abbrev pub new_transaction : String → String → ℕ → Transaction
new_transaction transaction_id task_id now = record {
  id = transaction_id;
  task_id = task_id;
  state = started;
  position = none;
  created_at = now;
  participants = "checkpoint" ∷ "meilisearch" ∷ [];
}

unfoldable pub begin : String → String → ℕ → TwoPhaseCommit → Outcome (Unit {0}) × TwoPhaseCommit
begin transaction_id task_id now c =
    if Map.contains transaction_id c.transactions
    then (err (already_exists transaction_id), c)
    else (
      ok tt,
      record c {
        transactions =
            Map.insert transaction_id (new_transaction transaction_id task_id now) c.transactions;
      },
    )

abbrev pub put : String → Transaction → TwoPhaseCommit → TwoPhaseCommit
put transaction_id t c = record c { transactions = Map.insert transaction_id t c.transactions }

unfoldable pub prepare : String → Position → TwoPhaseCommit → Outcome Bool × TwoPhaseCommit
prepare transaction_id position c = elim (Map.lookup transaction_id c.transactions) [
  | none ↦ (err (not_found transaction_id), c)
  | some t ↦ elim t.state [
    | started ↦
        (ok true, put transaction_id (record t { position = some position; state = prepared }) c)
    | other ↦ (err (invalid_state transaction_id other), c)
  ]
]

unfoldable pub commit : String → TwoPhaseCommit → Outcome (Unit {0}) × TwoPhaseCommit
commit transaction_id c = elim (Map.lookup transaction_id c.transactions) [
  | none ↦ (err (not_found transaction_id), c)
  | some t ↦ elim t.state [
    | prepared ↦ (ok tt, put transaction_id (record t { state = committed }) c)
    | _ ↦ (err (not_prepared transaction_id), c)
  ]
]

-- The scheduled removal of a committed transaction.
unfoldable pub forget : String → TwoPhaseCommit → TwoPhaseCommit
forget transaction_id c = record c { transactions = Map.remove transaction_id c.transactions }

-- The state is set to aborted and the entry removed under one lock.
unfoldable pub abort : String → TwoPhaseCommit → Outcome (Unit {0}) × TwoPhaseCommit
abort transaction_id c =
    (ok tt, record c { transactions = Map.remove transaction_id c.transactions })

-- Times are in nanoseconds; the timeout is one that chrono::Duration holds, so that its cast to an i64
-- leaves it as it is.
abbrev pub is_stale : ℕ → ℕ → Transaction → Bool
is_stale timeout_secs now t =
    ltb (timeout_secs * 10 ^ 9) (now - t.created_at)
    && (elim t.state [ committed ↦ false | _ ↦ true ])

unfoldable pub stale_ids : ℕ → ℕ → Map String Transaction → List String
stale_ids timeout_secs now [] = []
stale_ids timeout_secs now ((id, t) ∷ txns) =
    let others = stale_ids timeout_secs now txns in
    if is_stale timeout_secs now t then id ∷ others else others

unfoldable pub remove_all : List String → Map String Transaction → Map String Transaction
remove_all [] txns = txns
remove_all (id ∷ ids) txns = remove_all ids (Map.remove id txns)

unfoldable pub cleanup_stale_transactions : ℕ → TwoPhaseCommit → TwoPhaseCommit
unfolding stale_ids remove_all
cleanup_stale_transactions now c = record c {
  transactions = remove_all (stale_ids c.timeout_secs now c.transactions) c.transactions;
}
