-- ===== src/Delivery/TwoPhase/States.antt =====
-- src/delivery/transaction.rs: the life of a transaction in the two-phase commit.
use meilibridge.Prelude.{
  ℕ, String, ◌≡◌, refl, Bool, true, false, Option, none, some, List, [], ◌∷◌, arith, string_eq,
  if◌then◌else◌, member,
}
use meilibridge.Prelude.Map
use meilibridge.Prelude.Map.{Map, lookup-insert, lookup-remove}
use meilibridge.Prelude.Result.{ok}
use meilibridge.Models.{Position}
use meilibridge.Delivery.Error.{TransactionState, started, prepared, committed, aborted}
use meilibridge.Delivery.TwoPhase.{
  Transaction, TwoPhaseCommit, begin, prepare, commit, forget, abort, new_transaction, stale_ids,
  remove_all, cleanup_stale_transactions,
}

-- The state of a transaction; `none` where there is no such entry.
abbrev pub state_of : String → TwoPhaseCommit → Option TransactionState
state_of id c = elim (Map.lookup id c.transactions) [ none ↦ none | some t ↦ some t.state ]

-- The protocol: what one step may do to the state of one transaction.
abbrev pub allowed : Option TransactionState → Option TransactionState → Bool
allowed _ none = true
allowed none (some started) = true
allowed (some started) (some started) = true
allowed (some started) (some prepared) = true
allowed (some prepared) (some prepared) = true
allowed (some prepared) (some committed) = true
allowed (some committed) (some committed) = true
allowed (some aborted) (some aborted) = true
allowed _ _ = false

pub data Op : Type 0 where
  begins : String → String → ℕ → Op
  prepares : String → Position → Op
  commits forgets aborts : String → Op
  cleans : ℕ → Op

unfoldable pub step : TwoPhaseCommit → Op → TwoPhaseCommit
step c (begins id task now) = (begin id task now c).1
step c (prepares id position) = (prepare id position c).1
step c (commits id) = (commit id c).1
step c (forgets id) = forget id c
step c (aborts id) = (abort id c).1
step c (cleans now) = cleanup_stale_transactions now c

lookup-remove_all :
    (ids : List String) (k : String) (m : Map String Transaction)
    → Map.lookup k (remove_all ids m) ≡ (if member k ids then none else Map.lookup k m)
unfolding remove_all
lookup-remove_all [] k m = refl
lookup-remove_all (id ∷ ids) k m =
    ground (arith, lookup-remove_all ids k (Map.remove id m), lookup-remove id k m)

module _ (k : String) (c : TwoPhaseCommit) where
  begin-allowed :
      (id task : String) (now : ℕ)
      → allowed (state_of k c) (state_of k (begin id task now c).1) ≡ true
  unfolding begin Map.contains
  begin-allowed id task now = ground (
    arith,
    lookup-insert id k (new_transaction id task now) c.transactions,
    string_eq.eqb_iff id k,
  )

  prepare-allowed :
      (id : String) (p : Position) → allowed (state_of k c) (state_of k (prepare id p c).1) ≡ true
  unfolding prepare
  prepare-allowed id p = grind (arith, lookup-insert, string_eq.eqb_iff id k)

  commit-allowed : (id : String) → allowed (state_of k c) (state_of k (commit id c).1) ≡ true
  unfolding commit
  commit-allowed id = grind (arith, lookup-insert, string_eq.eqb_iff id k)

  remove-allowed : (id : String) → allowed (state_of k c) (state_of k (forget id c)) ≡ true
  unfolding forget
  remove-allowed id = ground (arith, lookup-remove id k c.transactions)

  abort-allowed : (id : String) → allowed (state_of k c) (state_of k (abort id c).1) ≡ true
  unfolding abort
  abort-allowed id = ground (arith, lookup-remove id k c.transactions)

  cleanup-allowed :
      (now : ℕ) → allowed (state_of k c) (state_of k (cleanup_stale_transactions now c)) ≡ true
  unfolding cleanup_stale_transactions
  cleanup-allowed now =
      ground
        (arith, lookup-remove_all (stale_ids c.timeout_secs now c.transactions) k c.transactions)

-- Every step moves each transaction along the protocol only: it stays as it is, or it starts where
-- there was none, or it goes from started to prepared, or from prepared to committed, or it is
-- removed.
pub step-allowed :
    (c : TwoPhaseCommit) (o : Op) (k : String)
    → allowed (state_of k c) (state_of k (step c o)) ≡ true
unfolding step
step-allowed c (begins id task now) k = begin-allowed k c id task now
step-allowed c (prepares id p) k = prepare-allowed k c id p
step-allowed c (commits id) k = commit-allowed k c id
step-allowed c (forgets id) k = remove-allowed k c id
step-allowed c (aborts id) k = abort-allowed k c id
step-allowed c (cleans now) k = cleanup-allowed k c now

-- The vote and the commit succeed exactly from the state before theirs.
pub commit-ok_iff :
    (id : String) (c : TwoPhaseCommit)
    → (((commit id c).0 ≡ ok tt → state_of id c ≡ some prepared)
        × (state_of id c ≡ some prepared → (commit id c).0 ≡ ok tt))
unfolding commit
commit-ok_iff id c = (λ h. ground arith, λ h. ground arith)
