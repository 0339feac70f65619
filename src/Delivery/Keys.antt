-- ===== src/Delivery/Keys.antt =====
-- src/pipeline/at_least_once_helpers.rs: the position and the deduplication key of an event. JSON
-- values and what the code does with them (serde_json's `get` and `to_string`) are a parameter.
use meilibridge.Prelude.{String, Option, none, some, string_eq}
use meilibridge.Prelude.Map
use meilibridge.Models.{Position, postgresql, Event, cdc, inserted, updated, deleted, checkpoint}
use meilibridge.Dedup.Key.{DeduplicationKey, with_primary_key}
use meilibridge.Dedup.Key

pub record Json : Type 1 where
  pub Value : Type 0
  pub get : Value → String → Option Value
  pub to_text : Value → String

unfoldable pub extract_position_from_event : {V : Type 0} → Event V → Option Position
extract_position_from_event (cdc e) = e.position
extract_position_from_event (inserted table new_data position) = position
extract_position_from_event (updated table old_data new_data position) = position
extract_position_from_event (deleted table old_data position) = position
extract_position_from_event (checkpoint position) = some position
extract_position_from_event _ = none

unfoldable pub lsn_of : Option Position → String
lsn_of (some (postgresql lsn)) = lsn
lsn_of _ = ""

module _ (js : Json) where
  open js use {Value, get, to_text}

  abbrev with_id : DeduplicationKey → Option Value → DeduplicationKey
  with_id key none = key
  with_id key (some id) = with_primary_key key (to_text id)

  unfoldable pub create_dedup_key_from_event : Event Value → DeduplicationKey
  unfolding lsn_of
  create_dedup_key_from_event (cdc e) =
      with_id (Key.new (lsn_of e.position) none e.table) (Map.lookup "id" e.columns)
  create_dedup_key_from_event (inserted table new_data position) =
      with_id (Key.new (lsn_of position) none table) (get new_data "id")
  create_dedup_key_from_event (updated table old_data new_data position) =
      with_id (Key.new (lsn_of position) none table) (get new_data "id")
  create_dedup_key_from_event (deleted table old_data position) =
      with_id (Key.new (lsn_of position) none table) (get old_data "id")
  create_dedup_key_from_event _ = Key.new "" none ""
