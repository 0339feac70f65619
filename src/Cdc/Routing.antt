-- ===== src/Cdc/Routing.antt =====
-- src/pipeline/cdc_coordinator.rs: to which channels an event goes.
use mathlib.Core.List.{append_assoc, append-nil}
use meilibridge.Prelude.{
  String, ◌≡◌, refl, sym, Bool, true, false, ◌&&◌, ◌||◌, List, [], ◌∷◌, ◌++◌, map, any, filter,
  member, arith, string_eq, if◌then◌else◌, Bool-cases, inl, inr,
}
use meilibridge.Prelude.Map
use meilibridge.Models.{Event, cdc, full_sync, inserted, updated, deleted, checkpoint, heartbeat}
use meilibridge.Cdc.{
  Attempt, takes, has_dot, last_part, table_name_of, CdcCoordinator, pause_table,
  send_if_registered, distribute_to, distribute_event, on_item, step, receives,
}

module _ (V Channel : Type 0) where
  -- The names under which tasks for a table may be registered.
  abbrev pub names_of : String → List String
  names_of t = if has_dot t then t ∷ last_part t ∷ [] else t ∷ []

  -- Whether events of the table are skipped.
  abbrev pub skips : CdcCoordinator V Channel → String → Bool
  skips c t = c.is_paused || any (λ n. member n c.paused_tables) (names_of t)

  abbrev pub is_taken : CdcCoordinator V Channel → (String → Attempt) → String → Bool
  is_taken c answer n = Map.contains n c.task_channels && takes (answer n)

  -- The deliveries that one event gives rise to.
  abbrev pub routes :
      CdcCoordinator V Channel → (String → Attempt) → Event V → List (String × Event V)
  routes c answer (cdc e) =
      if skips c (table_name_of e)
      then []
      else map (λ n. (n, cdc e)) (filter (is_taken c answer) (names_of (table_name_of e)))
  routes c answer _ = []

  abbrev sent_one : String → Event V → Bool → List (String × Event V)
  sent_one n e b = if b then (n, e) ∷ [] else []

  delivered-send_if_registered :
      (n : String) (e : Event V) (answer : String → Attempt) (c : CdcCoordinator V Channel)
      → (send_if_registered V Channel n e answer c).delivered
        ≡ c.delivered ++ sent_one n e (is_taken c answer n)
  unfolding send_if_registered Map.contains pause_table
  delivered-send_if_registered n e answer c = ground (arith, append-nil c.delivered)

  pub channels-send_if_registered :
      (n : String) (e : Event V) (answer : String → Attempt) (c : CdcCoordinator V Channel)
      → (send_if_registered V Channel n e answer c).task_channels ≡ c.task_channels
  unfolding send_if_registered pause_table
  channels-send_if_registered n e answer c = ground arith

  -- Both sends, one after the other.
  two_sends :
      (n n' : String) (e : Event V) (answer : String → Attempt) (c : CdcCoordinator V Channel)
      → (send_if_registered V Channel n' e answer
          (send_if_registered V Channel n e answer c)).delivered
        ≡ c.delivered
          ++ (sent_one n e (is_taken c answer n) ++ sent_one n' e (is_taken c answer n'))
  two_sends n n' e answer c =
      rw
        (
          delivered-send_if_registered n' e answer (send_if_registered V Channel n e answer c),
          channels-send_if_registered n e answer c,
          delivered-send_if_registered n e answer c,
        )
        (append_assoc c.delivered (sent_one n e (is_taken c answer n))
          (sent_one n' e (is_taken c answer n')))

  one_route :
      (n : String) (e : Event V) (p : String → Bool)
      → map (λ m. (m, e)) (filter p (n ∷ [])) ≡ sent_one n e (p n)
  one_route n e p = ground arith

  two_routes :
      (n n' : String) (e : Event V) (p : String → Bool)
      → map (λ m. (m, e)) (filter p (n ∷ n' ∷ [])) ≡ sent_one n e (p n) ++ sent_one n' e (p n')
  two_routes n n' e p = ground arith

  distribute_to-routes :
      (t : String) (e : Event V) (answer : String → Attempt) (c : CdcCoordinator V Channel)
      → (distribute_to V Channel t e answer c).delivered
        ≡ c.delivered
          ++ (if any (λ n. member n c.paused_tables) (names_of t)
              then []
              else map (λ n. (n, e)) (filter (is_taken c answer) (names_of t)))
  unfolding distribute_to
  distribute_to-routes t e answer c = ground (
    arith,
    append-nil c.delivered,
    delivered-send_if_registered t e answer c,
    two_sends t (last_part t) e answer c,
    one_route t e (is_taken c answer),
    two_routes t (last_part t) e (is_taken c answer),
  )

  skipped-routes :
      (e : Event V) (answer : String → Attempt) (c : CdcCoordinator V Channel)
      → c.is_paused ≡ true
      → routes c answer e ≡ []
  skipped-routes (cdc e) answer c h = rw h
  skipped-routes (full_sync t d) answer c h = refl
  skipped-routes (inserted t d p) answer c h = refl
  skipped-routes (updated t d d' p) answer c h = refl
  skipped-routes (deleted t d p) answer c h = refl
  skipped-routes (checkpoint p) answer c h = refl
  skipped-routes heartbeat answer c h = refl

  distributed-routes :
      (e : Event V) (answer : String → Attempt) (c : CdcCoordinator V Channel)
      → c.is_paused ≡ false
      → (distribute_event V Channel e answer c).delivered ≡ c.delivered ++ routes c answer e
  unfolding distribute_event
  distributed-routes (cdc e) answer c h =
      simp h (distribute_to-routes (table_name_of e) (cdc e) answer c)
  distributed-routes (full_sync t d) answer c h = sym (append-nil c.delivered)
  distributed-routes (inserted t d p) answer c h = sym (append-nil c.delivered)
  distributed-routes (updated t d d' p) answer c h = sym (append-nil c.delivered)
  distributed-routes (deleted t d p) answer c h = sym (append-nil c.delivered)
  distributed-routes (checkpoint p) answer c h = sym (append-nil c.delivered)
  distributed-routes heartbeat answer c h = sym (append-nil c.delivered)

  -- An event of the change stream is delivered, after all that was delivered before, to the channels
  -- that are registered for its full table name and for the name without the schema, in this order,
  -- as far as they take it; to none while the coordinator or one of these names is paused. No other
  -- kind of event is delivered at all.
  pub delivered-receives :
      (e : Event V) (answer : String → Attempt) (c : CdcCoordinator V Channel)
      → (step V Channel (receives e answer) c).delivered ≡ c.delivered ++ routes c answer e
  unfolding step on_item
  delivered-receives e answer c = elim (Bool-cases c.is_paused) [
    | inl p ↦ simp (p, skipped-routes e answer c p, append-nil)
    | inr p ↦ simp p (distributed-routes e answer c p)
  ]
