-- ===== src/Cdc/Pausing.antt =====
-- src/pipeline/cdc_coordinator.rs: what becomes of a table once it is paused.
use mathlib.Core.List.{append-nil}
use meilibridge.Prelude.{
  String, ◌≡◌, refl, ◌∙◌, Bool, true, false, not, ◌&&◌, List, [], ◌∷◌, ◌++◌, map, any, filter,
  member, arith, string_eq, ◌==◌, Bool-cases, inl, inr,
}
use meilibridge.Prelude.Map
use meilibridge.Prelude.Map.{Map}
use meilibridge.Prelude.Result.{ok}
use meilibridge.Models.{
  Event, CdcEvent, cdc, full_sync, inserted, updated, deleted, checkpoint, heartbeat,
}
use meilibridge.Cdc.{
  Attempt, full, last_part, table_name_of, insert_text, CdcCoordinator, pause_table, resume_table,
  pause_all, resume_all, register_task, unregister_task, send_if_registered, distribute_to,
  distribute_event, on_item, Op, receives, pauses_all, resumes_all, pauses, resumes, registers,
  unregisters, step, run,
}
use meilibridge.Cdc.Routing.{
  names_of, skips, is_taken, routes, channels-send_if_registered, delivered-receives,
}

module _ (V Channel : Type 0) where
  -- The events that were delivered under one name.
  abbrev pub deliveries : String → List (String × Event V) → List (String × Event V)
  deliveries t = filter (λ d. d.0 == t)

  deliveries-append :
      (t : String) (xs ys : List (String × Event V))
      → deliveries t (xs ++ ys) ≡ deliveries t xs ++ deliveries t ys
  deliveries-append t [] ys = refl
  deliveries-append t (x ∷ xs) ys = ground (arith, deliveries-append t xs ys)

  member-insert_text :
      (t n : String) (ts : List String) → member t ts ≡ true → member t (insert_text n ts) ≡ true
  member-insert_text t n ts h = ground (arith, h)

  member-filter_ne :
      (t n : String) (ts : List String)
      → not (n == t) ≡ true
      → member t ts ≡ true
      → member t (filter (λ x. not (x == n)) ts) ≡ true
  member-filter_ne t n [] ne h = h
  member-filter_ne t n (x ∷ ts) ne h = ground (
    arith,
    member-filter_ne t n ts ne,
    string_eq.eqb_iff x n,
    string_eq.eqb_iff x t,
    string_eq.eqb_iff n t,
  )

  -- A paused table stays paused whatever is sent.
  send_if_registered-paused :
      (t n : String) (e : Event V) (answer : String → Attempt) (c : CdcCoordinator V Channel)
      → member t c.paused_tables ≡ true
      → member t (send_if_registered V Channel n e answer c).paused_tables ≡ true
  unfolding send_if_registered pause_table
  send_if_registered-paused t n e answer c h = ground (arith, h)

  distribute_to-paused :
      (t n : String) (e : Event V) (answer : String → Attempt) (c : CdcCoordinator V Channel)
      → member t c.paused_tables ≡ true
      → member t (distribute_to V Channel n e answer c).paused_tables ≡ true
  unfolding distribute_to
  distribute_to-paused t n e answer c h =
      let once = send_if_registered-paused t n e answer c h in
      let twice =
        send_if_registered-paused t (last_part n) e answer
          (send_if_registered V Channel n e answer c) once in
      ground arith

  on_item-paused :
      (t : String) (e : Event V) (answer : String → Attempt) (c : CdcCoordinator V Channel)
      → member t c.paused_tables ≡ true
      → member t (on_item V Channel {E = Unit {0}} (ok e) answer c).paused_tables ≡ true
  unfolding on_item distribute_event
  on_item-paused t (cdc e) answer c h =
      ground (arith, distribute_to-paused t (table_name_of e) (cdc e) answer c h)
  on_item-paused t (full_sync _ _) answer c h = ground arith
  on_item-paused t (inserted _ _ _) answer c h = ground arith
  on_item-paused t (updated _ _ _ _) answer c h = ground arith
  on_item-paused t (deleted _ _ _) answer c h = ground arith
  on_item-paused t (checkpoint _) answer c h = ground arith
  on_item-paused t heartbeat answer c h = ground arith

  -- The operation does not resume the table.
  abbrev pub keeps : String → Op V Channel → Bool
  keeps t (resumes n) = not (n == t)
  keeps t _ = true

  abbrev pub all_keep : String → List (Op V Channel) → Bool
  all_keep t [] = true
  all_keep t (o ∷ os) = keeps t o && all_keep t os

  step-paused :
      (t : String) (o : Op V Channel) (c : CdcCoordinator V Channel)
      → keeps t o ≡ true
      → member t c.paused_tables ≡ true
      → member t (step V Channel o c).paused_tables ≡ true
  unfolding step pause_table resume_table pause_all resume_all register_task unregister_task
  step-paused t (receives e answer) c k h = on_item-paused t e answer c h
  step-paused t pauses_all c k h = h
  step-paused t resumes_all c k h = h
  step-paused t (pauses n) c k h = member-insert_text t n c.paused_tables h
  step-paused t (resumes n) c k h = member-filter_ne t n c.paused_tables k h
  step-paused t (registers n tx) c k h = h
  step-paused t (unregisters n) c k h = h

  no_route :
      (t : String) (ns : List String) (p : String → Bool) (e : Event V)
      → member t ns ≡ false
      → deliveries t (map (λ n. (n, e)) (filter p ns)) ≡ []
  no_route t [] p e h = refl
  no_route t (n ∷ ns) p e h = ground (arith, no_route t ns p e)

  any-member :
      (t : String) (ns ps : List String)
      → any (λ n. member n ps) ns ≡ false
      → member t ps ≡ true
      → member t ns ≡ false
  any-member t [] ps h m = refl
  any-member t (n ∷ ns) ps h m = ground (arith, any-member t ns ps, string_eq.eqb_iff n t)

  routes-paused :
      (t : String) (e : Event V) (answer : String → Attempt) (c : CdcCoordinator V Channel)
      → member t c.paused_tables ≡ true
      → deliveries t (routes V Channel c answer e) ≡ []
  routes-paused t (cdc e) answer c h = elim (Bool-cases (skips V Channel c (table_name_of e))) [
    | inl s ↦ rw s
    | inr s ↦ rw s (
        no_route t (names_of V Channel (table_name_of e)) (is_taken V Channel c answer) (cdc e) (
          any-member t (names_of V Channel (table_name_of e)) c.paused_tables (ground (arith, s))
            h))
  ]
  routes-paused t (full_sync _ _) answer c h = refl
  routes-paused t (inserted _ _ _) answer c h = refl
  routes-paused t (updated _ _ _ _) answer c h = refl
  routes-paused t (deleted _ _ _) answer c h = refl
  routes-paused t (checkpoint _) answer c h = refl
  routes-paused t heartbeat answer c h = refl

  step-deliveries :
      (t : String) (o : Op V Channel) (c : CdcCoordinator V Channel)
      → member t c.paused_tables ≡ true
      → deliveries t (step V Channel o c).delivered ≡ deliveries t c.delivered
  unfolding pause_table resume_table pause_all resume_all register_task unregister_task
  step-deliveries t (receives e answer) c h =
      rw
        (
          delivered-receives V Channel e answer c,
          deliveries-append t c.delivered (routes V Channel c answer e),
          routes-paused t e answer c h,
        )
        (append-nil (deliveries t c.delivered))
  step-deliveries t pauses_all c h = unfold step in refl
  step-deliveries t resumes_all c h = unfold step in refl
  step-deliveries t (pauses n) c h = unfold step in refl
  step-deliveries t (resumes n) c h = unfold step in refl
  step-deliveries t (registers n tx) c h = unfold step in refl
  step-deliveries t (unregisters n) c h = unfold step in refl

  -- Once a table is paused, no event is delivered under its name until it is resumed by name,
  -- whatever else happens, a resumption of the whole coordinator among it.
  pub paused_until_resumed :
      (t : String) (os : List (Op V Channel)) (c : CdcCoordinator V Channel)
      → member t c.paused_tables ≡ true
      → all_keep t os ≡ true
      → (deliveries t (run V Channel os c).delivered ≡ deliveries t c.delivered)
        × (member t (run V Channel os c).paused_tables ≡ true)
  unfolding run
  paused_until_resumed t [] c h k = (refl, h)
  paused_until_resumed t (o ∷ os) c h k =
      let later =
        paused_until_resumed t os (step V Channel o c) (step-paused t o c (ground arith) h)
          (ground arith) in
      (later.0 ∙ step-deliveries t o c h, later.1)

  sends_full :
      (t : String) (e : Event V) (answer : String → Attempt) (b : Bool)
      (c : CdcCoordinator V Channel)
      → Map.contains t c.task_channels ≡ true
      → answer t ≡ full b
      → member t (send_if_registered V Channel t e answer c).paused_tables ≡ true
  unfolding send_if_registered pause_table Map.contains
  sends_full t e answer b c h a = ground (arith, h, a, string_eq.eqb_iff t t)

  distributes_full :
      (t n : String) (e : Event V) (answer : String → Attempt) (b : Bool)
      (c : CdcCoordinator V Channel)
      → any (λ x. member x c.paused_tables) (names_of V Channel n) ≡ false
      → member t (names_of V Channel n) ≡ true
      → Map.contains t c.task_channels ≡ true
      → answer t ≡ full b
      → member t (distribute_to V Channel n e answer c).paused_tables ≡ true
  unfolding distribute_to
  distributes_full t n e answer b c free own h a = elim (Bool-cases (n == t)) [
    | inl same ↦
        let n-is-t : n ≡ t = (string_eq.eqb_iff n t).0 same in
        let first = sends_full t e answer b c h a in
        let second =
          send_if_registered-paused t (last_part n) e answer
            (send_if_registered V Channel t e answer c) first in
        ground (arith, free, n-is-t, first, second)
    | inr other ↦
        let sent = send_if_registered V Channel n e answer c in
        let again : Map.contains t sent.task_channels ≡ true =
          rw (channels-send_if_registered V Channel n e answer c) h in
        let second = sends_full t e answer b sent again a in
        ground (arith, free, own, other, second, string_eq.eqb_iff (last_part n) t)
  ]

  first_full :
      (e : CdcEvent V) (t : String) (answer : String → Attempt) (b : Bool)
      (c : CdcCoordinator V Channel)
      → skips V Channel c (table_name_of e) ≡ false
      → member t (names_of V Channel (table_name_of e)) ≡ true
      → Map.contains t c.task_channels ≡ true
      → answer t ≡ full b
      → member t (step V Channel (receives (cdc e) answer) c).paused_tables ≡ true
  unfolding step on_item distribute_event
  first_full e t answer b c free own h a =
      let d =
        distributes_full t (table_name_of e) (cdc e) answer b c (ground (arith, free)) own h a in
      ground (arith, free, d)

  -- Once the full channel of a table has refused an event at first, whether or not the blocking send
  -- that follows succeeds, no later event is delivered under this name until the table is resumed by
  -- name, though the channel may be empty again.
  pub lost_after_full :
      (e : CdcEvent V) (t : String) (answer : String → Attempt) (b : Bool)
      (os : List (Op V Channel)) (c : CdcCoordinator V Channel)
      → skips V Channel c (table_name_of e) ≡ false
      → member t (names_of V Channel (table_name_of e)) ≡ true
      → Map.contains t c.task_channels ≡ true
      → answer t ≡ full b
      → all_keep t os ≡ true
      → deliveries t (run V Channel (receives (cdc e) answer ∷ os) c).delivered
        ≡ deliveries t (step V Channel (receives (cdc e) answer) c).delivered
  unfolding run
  lost_after_full e t answer b os c free own h a k =
      let paused : member t (step V Channel (receives (cdc e) answer) c).paused_tables ≡ true =
        first_full e t answer b c free own h a in
      (paused_until_resumed t os (step V Channel (receives (cdc e) answer) c) paused k).0
