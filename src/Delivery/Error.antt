-- ===== src/Delivery/Error.antt =====
-- src/error.rs: the errors of the delivery path. A constructor stands for one message of the code.
use meilibridge.Prelude.{ℕ, String}
use meilibridge.Prelude.Result.{Result}

pub data TransactionState : Type 0 where
  started prepared committed aborted : TransactionState

pub data MeiliBridgeError : Type 0 where
  already_exists : String → MeiliBridgeError
  not_found : String → MeiliBridgeError
  invalid_state : String → TransactionState → MeiliBridgeError
  not_prepared : String → MeiliBridgeError
  checkpoint_not_found : String → MeiliBridgeError
  storage_failed : String → MeiliBridgeError
  prepare_failed : MeiliBridgeError
  batch_failed : ℕ → MeiliBridgeError
  destination_failed : String → MeiliBridgeError
  no_response : MeiliBridgeError
  send_failed : MeiliBridgeError

abbrev pub Outcome {ℓ} : Type ℓ → Type ℓ
Outcome A = Result MeiliBridgeError A
