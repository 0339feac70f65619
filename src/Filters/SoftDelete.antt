-- ===== src/Filters/SoftDelete.antt =====
-- src/pipeline/soft_delete.rs: SoftDeleteHandler.
use meilibridge.Prelude.{
  String, ◌≡◌, refl, sym, ◌⊎◌, inl, inr, Bool, true, false, not, ◌&&◌, Option, none, some, any,
  arith, if◌then◌else◌, string_eq, Bool-cases, subst,
}
use meilibridge.Prelude.Map
use meilibridge.Models.{
  Position, Event, EventType, update, cdc, full_sync, inserted, updated, deleted, checkpoint,
  heartbeat,
}
use meilibridge.Config.{SoftDeleteConfig}
use meilibridge.Delivery.Keys.{extract_position_from_event}
use meilibridge.Filters.{JsonValues}

abbrev pub is_update : EventType → Bool
is_update update = true
is_update _ = false

module _ (js : JsonValues) where
  open js use {Value, same, object, get}

  unfoldable pub is_soft_deleted : SoftDeleteConfig Value → Value → Bool
  is_soft_deleted config value = any (λ w. same.eqb value w) config.delete_values

  -- The field is there and marks the row as deleted.
  unfoldable pub marks : SoftDeleteConfig Value → Option Value → Bool
  unfolding is_soft_deleted
  marks config none = false
  marks config (some value) = is_soft_deleted config value

  unfoldable pub transform_event : SoftDeleteConfig Value → Event Value → Option (Event Value)
  unfolding marks
  transform_event config (cdc e) =
      if not (is_update e.event_type)
      then some (cdc e)
      else if not config.handle_on_cdc
      then some (cdc e)
      else if marks config (Map.lookup config.field e.columns)
      then some (deleted e.table (object e.columns) e.position)
      else some (cdc e)
  transform_event config (updated table old_data new_data position) =
      if not config.handle_on_cdc
      then some (updated table old_data new_data position)
      else if marks config (get new_data config.field)
      then some (deleted table old_data position)
      else some (updated table old_data new_data position)
  transform_event config (full_sync table row) =
      if not config.handle_on_full_sync
      then some (full_sync table row)
      else if marks config (get row config.field)
      then none
      else some (full_sync table row)
  transform_event config event = some event

  abbrev pub table_of : Event Value → Option String
  table_of (cdc e) = some e.table
  table_of (full_sync table row) = some table
  table_of (inserted table row position) = some table
  table_of (updated table old_data new_data position) = some table
  table_of (deleted table old_data position) = some table
  table_of (checkpoint position) = none
  table_of heartbeat = none

  abbrev pub is_deletion : Event Value → Bool
  is_deletion (deleted table row position) = true
  is_deletion event = false

  -- The event brings a row that is marked as deleted, where the configuration looks for it.
  abbrev pub brings_deleted : SoftDeleteConfig Value → Event Value → Bool
  brings_deleted config (cdc e) =
      is_update e.event_type
      && (config.handle_on_cdc && marks config (Map.lookup config.field e.columns))
  brings_deleted config (updated table old_data new_data position) =
      config.handle_on_cdc && marks config (get new_data config.field)
  brings_deleted config (full_sync table row) =
      config.handle_on_full_sync && marks config (get row config.field)
  brings_deleted config event = false

  -- What may come of an event: nothing, of a record that is marked as deleted; or an event that is
  -- no longer so marked and that the handler leaves as it is, with the table and the position of
  -- the first, which is the first itself or a deletion in place of a marked one.
  abbrev pub Outcome : SoftDeleteConfig Value → Event Value → Option (Event Value) → Type 0
  Outcome config e none = brings_deleted config e ≡ true
  Outcome config e (some e') =
      (brings_deleted config e' ≡ false)
      × ((table_of e' ≡ table_of e)
          × ((extract_position_from_event e' ≡ extract_position_from_event e)
              × ((transform_event config e' ≡ some e')
                  × ((e' ≡ e) ⊎ ((brings_deleted config e ≡ true) × (is_deletion e' ≡ true))))))

  -- An event that is not marked passes unchanged.
  passes_unmarked :
      (config : SoftDeleteConfig Value) (e : Event Value)
      → brings_deleted config e ≡ false
      → transform_event config e ≡ some e
  unfolding transform_event
  passes_unmarked config (cdc e) h = ground (arith, h)
  passes_unmarked config (updated t o n p) h = ground (arith, h)
  passes_unmarked config (full_sync t v) h = ground (arith, h)
  passes_unmarked config (inserted t v p) h = refl
  passes_unmarked config (deleted t v p) h = refl
  passes_unmarked config (checkpoint p) h = refl
  passes_unmarked config heartbeat h = refl

  unmarked-Outcome :
      (config : SoftDeleteConfig Value) (e : Event Value)
      → brings_deleted config e ≡ false
      → Outcome config e (transform_event config e)
  unmarked-Outcome config e h =
      rw (passes_unmarked config e h) (h, (refl, (refl, (passes_unmarked config e h, inl refl))))

  -- A deletion that the handler puts in place of a marked event.
  replaced-Outcome :
      (config : SoftDeleteConfig Value) (e : Event Value) (t : String) (v : Value)
      (p : Option Position)
      → transform_event config e ≡ some (deleted t v p)
      → table_of e ≡ some t
      → extract_position_from_event e ≡ p
      → brings_deleted config e ≡ true
      → Outcome config e (transform_event config e)
  unfolding transform_event extract_position_from_event
  replaced-Outcome config e t v p to table position h =
      rw to (refl, (sym table, (sym position, (refl, inr (h, refl)))))

  -- The handler drops an event only if it is marked as deleted; an event that it passes on is not
  -- marked, is left alone by a second pass, has the table and the position of the first, and is either
  -- the first itself or, in place of a marked one, a deletion.
  pub transform_event-Outcome :
      (config : SoftDeleteConfig Value) (e : Event Value)
      → Outcome config e (transform_event config e)
  unfolding transform_event extract_position_from_event
  transform_event-Outcome config e = elim (Bool-cases (brings_deleted config e)) [
    | inl h ↦ marked e h
    | inr h ↦ unmarked-Outcome config e h
  ]
    where
      marked :
          (x : Event Value)
          → brings_deleted config x ≡ true
          → Outcome config x (transform_event config x)
      marked (cdc c) h =
          replaced-Outcome config (cdc c) c.table (object c.columns) c.position (ground (arith, h))
            refl refl h
      marked (updated t o n p) h =
          replaced-Outcome config (updated t o n p) t o p (ground (arith, h)) refl refl h
      marked (full_sync t v) h =
          let gone : transform_event config (full_sync t v) ≡ none = ground (arith, h) in
          subst (Outcome config (full_sync t v)) (sym gone) h
      marked (inserted t v p) h = absurd (ground (arith, h))
      marked (deleted t v p) h = absurd (ground (arith, h))
      marked (checkpoint p) h = absurd (ground (arith, h))
      marked heartbeat h = absurd (ground (arith, h))
