-- ===== src/Cdc/Tests.antt =====
-- src/pipeline/cdc_coordinator.rs: the theorems on the coordinator, with one task for a table.
use meilibridge.Prelude.{String, ◌≡◌, refl, true, none, [], ◌∷◌, string_eq}
use meilibridge.Prelude.Map
use meilibridge.Models.{CdcEvent, cdc, update}
use meilibridge.Cdc.{
  Attempt, accepted, full, has_dot, last_part, table_name_of, CdcCoordinator, new, receives, step,
  run,
}
use meilibridge.Cdc.Routing.{routes, delivered-receives}
use meilibridge.Cdc.Pausing.{deliveries, lost_after_full}

abbrev change : CdcEvent String
change = record {
  event_type = update;
  table = "users";
  schema_name = "public";
  columns = [];
  timestamp = 0;
  position = none;
}

-- The task is registered without the schema.
abbrev ready : CdcCoordinator String (Unit {0})
ready = record (new String (Unit {0})) { task_channels = ("users", tt) ∷ [] }

abbrev free : String → Attempt
free n = accepted

abbrev stuffed : String → Attempt
stuffed n = full true

delivered-receives_example :
    (step String (Unit {0}) (receives (cdc change) free) ready).delivered
    ≡ routes String (Unit {0}) ready free (cdc change)
delivered-receives_example = delivered-receives String (Unit {0}) (cdc change) free ready

change_routed : routes String (Unit {0}) ready free (cdc change) ≡ ("users", cdc change) ∷ []
unfolding table_name_of has_dot last_part Map.contains Map.lookup
change_routed = refl

-- The first change is sent after a wait, and the second is lost.
lost_after_full_example :
    deliveries String
      (Unit {0})
      "users"
      (run String
        (Unit {0})
        (receives (cdc change) stuffed ∷ receives (cdc change) free ∷ [])
        ready).delivered
    ≡ deliveries String
        (Unit {0})
        "users"
        (step String (Unit {0}) (receives (cdc change) stuffed) ready).delivered
unfolding table_name_of has_dot last_part Map.contains Map.lookup
lost_after_full_example =
    lost_after_full String (Unit {0}) change "users" stuffed true (receives (cdc change) free ∷ [])
      ready refl refl refl refl refl
