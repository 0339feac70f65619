-- ===== src/ErrorHandler/Tests.antt =====
-- src/recovery/error_handler.rs: the handler with the limits that it has at its creation.
use meilibridge.Prelude.{ℕ, ◌≡◌, refl, string_eq}
use meilibridge.Prelude.Map
use meilibridge.Retry.{io}
use meilibridge.ErrorHandler.{
  ErrorContext, network, dead_letter, retry, new, noted, record_error, determine_strategy,
  strategy_by_type, classify_error,
}

abbrev refused : ErrorContext
refused = record {
  error = "connection refused";
  error_type = network;
  task_id = "users";
  retry_count = 0;
  first_error_time = 0;
  last_error_time = 60;
}

first_retried : (determine_strategy refused 60 new).0 ≡ retry
unfolding determine_strategy noted record_error strategy_by_type Map.lookup
first_retried = refl

third_given_up : (determine_strategy (record refused { retry_count = 3 }) 60 new).0 ≡ dead_letter
unfolding determine_strategy noted record_error strategy_by_type Map.lookup
third_given_up = refl

io_as_network : classify_error {L = ℕ} (io 0) ≡ network
unfolding classify_error
io_as_network = refl
