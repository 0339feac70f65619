-- ===== src/Delivery/TwoPhase/Tests.antt =====
-- src/delivery/transaction.rs: the theorems on the two-phase commit at a concrete transaction.
use meilibridge.Prelude.{◌≡◌, refl, true, some}
use meilibridge.Prelude.Map
use meilibridge.Prelude.Result.{ok}
use meilibridge.Models.{postgresql}
use meilibridge.Delivery.Error.{prepared}
use meilibridge.Delivery.TwoPhase
use meilibridge.Delivery.TwoPhase.{TwoPhaseCommit}
use meilibridge.Delivery.TwoPhase.States.{
  state_of, allowed, begins, prepares, commits, step, step-allowed, commit-ok_iff,
}

abbrev running : TwoPhaseCommit
running = step (step (TwoPhase.new 30) (begins "a" "users" 0)) (prepares "a" (postgresql "0/1"))

step-allowed_example :
    allowed (state_of "a" running) (state_of "a" (step running (commits "a"))) ≡ true
step-allowed_example = step-allowed running (commits "a") "a"

commit-ok_iff_example :
    ((TwoPhase.commit "a" running).0 ≡ ok tt → state_of "a" running ≡ some prepared)
    × (state_of "a" running ≡ some prepared → (TwoPhase.commit "a" running).0 ≡ ok tt)
commit-ok_iff_example = commit-ok_iff "a" running

running_prepared : state_of "a" running ≡ some prepared
unfolding step TwoPhase.begin TwoPhase.prepare Map.contains Map.lookup Map.insert
running_prepared = refl
