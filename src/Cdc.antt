-- ===== src/Cdc.antt =====
-- src/pipeline/cdc_coordinator.rs: CdcCoordinator, one event or one control call at a time. The
-- channels belong to tokio: how the channel of a task takes an event is an argument, and `delivered`
-- is the history of the events that the channels took, each with the name it was registered under.
pub mod Routing
pub mod Pausing
mod Tests
use Prim.Native.Char.{code}
use Prim.Native.String.{◌++◌ as str_append}
use meilibridge.Prelude.{
  ℕ, String, Bool, true, false, ◌&&◌, ◌||◌, not, Option, none, some, List, [], ◌∷◌, ◌++◌, member,
  filter, nat_eqb, string_eq, ◌==◌, if◌then◌else◌,
}
use meilibridge.Prelude.Map
use meilibridge.Prelude.Texts.{is_empty, insert_text}
use meilibridge.Prelude.Map.{Map}
use meilibridge.Prelude.Result.{Result, ok, err}
use meilibridge.Models.{Event, CdcEvent, cdc}

-- How a channel takes an event: at once; or it is full, and the blocking send that follows succeeds
-- or not; or its receiver is gone.
pub data Attempt : Type 0 where
  accepted closed : Attempt
  full : Bool → Attempt

abbrev pub takes : Attempt → Bool
takes accepted = true
takes closed = false
takes (full sent) = sent

unfoldable pub has_dot : String → Bool
has_dot String.[] = false
has_dot (String.◌∷◌ ch rest) = nat_eqb (code ch) b'.' || has_dot rest

-- `split('.').next_back()`: the text after the last dot.
unfoldable pub last_part : String → String
unfolding has_dot
last_part String.[] = String.[]
last_part (String.◌∷◌ ch rest) =
    let later = last_part rest in
    if has_dot rest then later else if nat_eqb (code ch) b'.' then rest else String.◌∷◌ ch rest

-- "table" without a schema, and "schema.table" with one.
unfoldable pub table_name_of : {V : Type 0} → CdcEvent V → String
unfolding is_empty
table_name_of e =
    if is_empty e.schema_name then e.table else str_append e.schema_name (str_append "." e.table)

module _ (V : Type 0) (Channel : Type 0) where
  pub record CdcCoordinator : Type 0 where
    pub task_channels : Map String Channel
    pub is_paused : Bool
    pub paused_tables : List String
    pub delivered : List (String × Event V)

  abbrev pub new : CdcCoordinator
  new = record { task_channels = []; is_paused = false; paused_tables = []; delivered = [] }

  unfoldable pub register_task : String → Channel → CdcCoordinator → CdcCoordinator
  register_task table_name tx c = record c {
    task_channels = Map.insert table_name tx c.task_channels;
  }

  unfoldable pub unregister_task : String → CdcCoordinator → CdcCoordinator
  unregister_task table_name c = record c { task_channels = Map.remove table_name c.task_channels }

  unfoldable pub pause_all : CdcCoordinator → CdcCoordinator
  pause_all c = record c { is_paused = true }

  unfoldable pub resume_all : CdcCoordinator → CdcCoordinator
  resume_all c = record c { is_paused = false }

  unfoldable pub pause_table : String → CdcCoordinator → CdcCoordinator
  pause_table table_name c = record c { paused_tables = insert_text table_name c.paused_tables }

  unfoldable pub resume_table : String → CdcCoordinator → CdcCoordinator
  resume_table table_name c = record c {
    paused_tables = filter (λ t. not (t == table_name)) c.paused_tables;
  }

  abbrev pub deliver : String → Event V → Bool → CdcCoordinator → CdcCoordinator
  deliver table_name event sent c =
      if sent then record c { delivered = c.delivered ++ (table_name, event) ∷ [] } else c

  -- `try_send`, with the pause and the blocking send on a full channel.
  unfoldable pub send_to : String → Event V → Attempt → CdcCoordinator → CdcCoordinator
  unfolding pause_table
  send_to table_name event accepted c = deliver table_name event true c
  send_to table_name event (full sent) c = deliver table_name event sent (pause_table table_name c)
  send_to table_name event closed c = c

  unfoldable pub send_if_registered :
      String → Event V → (String → Attempt) → CdcCoordinator → CdcCoordinator
  unfolding send_to
  send_if_registered table_name event answer c = elim (Map.lookup table_name c.task_channels) [
    | none ↦ c
    | some tx ↦ send_to table_name event (answer table_name) c
  ]

  abbrev pub is_table_paused : String → CdcCoordinator → Bool
  is_table_paused table_name c =
      member table_name c.paused_tables
      || (has_dot table_name && member (last_part table_name) c.paused_tables)

  unfoldable pub distribute_to :
      String → Event V → (String → Attempt) → CdcCoordinator → CdcCoordinator
  unfolding send_if_registered
  distribute_to table_name event answer c =
      if is_table_paused table_name c
      then c
      else (let sent = send_if_registered table_name event answer c in
          if has_dot table_name
          then send_if_registered (last_part table_name) event answer sent
          else sent)

  -- Only events of the change stream are distributed.
  unfoldable pub distribute_event : Event V → (String → Attempt) → CdcCoordinator → CdcCoordinator
  unfolding distribute_to table_name_of
  distribute_event (cdc e) answer c = distribute_to (table_name_of e) (cdc e) answer c
  distribute_event _ answer c = c

  -- One item of the stream: an error is only logged.
  unfoldable pub on_item :
      {E : Type 0} → Result E (Event V) → (String → Attempt) → CdcCoordinator → CdcCoordinator
  unfolding distribute_event
  on_item (err e) answer c = c
  on_item (ok event) answer c = if c.is_paused then c else distribute_event event answer c

  -- What happens to a coordinator, in the order of its locks.
  pub data Op : Type 0 where
    receives : Event V → (String → Attempt) → Op
    pauses_all resumes_all : Op
    pauses resumes unregisters : String → Op
    registers : String → Channel → Op

  unfoldable pub step : Op → CdcCoordinator → CdcCoordinator
  unfolding on_item
  step (receives event answer) c = on_item {E = Unit {0}} (ok event) answer c
  step pauses_all c = pause_all c
  step resumes_all c = resume_all c
  step (pauses t) c = pause_table t c
  step (resumes t) c = resume_table t c
  step (registers t tx) c = register_task t tx c
  step (unregisters t) c = unregister_task t c

  unfoldable pub run : List Op → CdcCoordinator → CdcCoordinator
  run [] c = c
  run (o ∷ os) c = run os (step o c)
