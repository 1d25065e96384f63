-- ===== src/Server/Handlers/Events.antt =====
-- The lifetime of an event id: the creating and the destroying handler of server/runtime_server.c.
use x_remote_runtime.Prelude.{
  ℕ, ◌≡◌, inl, inr, arith, List, [], ◌∷◌, none, some, ◌==◌, if◌then◌else◌, Option-cases,
}
use x_remote_runtime.Protocol.Words.{read_u32, read_u64, write_u64}
use x_remote_runtime.Server.Table.{Table, new_slot, remove, update}
use x_remote_runtime.Server.Table.Slots.{find-filled, find-remove}
use x_remote_runtime.Server.Handlers.Sessions.{IsValid, find_next}
use x_remote_runtime.Server.Backend.{Driver, event_create, context_sync, event_destroy}
use x_remote_runtime.Server.Session.{World, Response, EventEntry, find_event, ok, ask}
use x_remote_runtime.Server.Events.{
  event_in_slot, blank_event, handle_create_event, handle_destroy_event,
}

module _ (d : Driver) (w : World) (p : List ℕ) (v : IsValid w.session) where
  abbrev created : EventEntry
  created = record { event = (ask d (event_create (read_u32 p)) w).value; flags = read_u32 p }

  -- The reply is an id that was not in use, and the id stands for `x` afterwards; the others are as before.
  abbrev Creates : World × Response → EventEntry → Type 0
  Creates r x =
      (r.1.payload ≡ write_u64 [] w.session.next_event_id)
      × (find_event w.session w.session.next_event_id ≡ none)
      × ((j : ℕ)
          → find_event r.0.session j
            ≡ (if w.session.next_event_id == j then some x else find_event w.session j))

  handle_create_event_filled :
      (table : Table EventEntry)
      → new_slot w.session.next_event_id blank_event w.session.events ≡ some table
      → (handle_create_event d w p).1.status ≡ ok
      → ((handle_create_event d w p).1.payload ≡ write_u64 [] w.session.next_event_id)
        × ((handle_create_event d w p).0.session.events
            ≡ update w.session.next_event_id (λ _. created) table)
  unfolding handle_create_event event_in_slot
  handle_create_event_filled table e h = ground arith

  handle_create_event_slot :
      (handle_create_event d w p).1.status ≡ ok
      → (table : Table EventEntry) × (new_slot w.session.next_event_id blank_event w.session.events
          ≡ some table)
  unfolding handle_create_event
  handle_create_event_slot h =
      elim (Option-cases (new_slot w.session.next_event_id blank_event w.session.events)) [
        | inl e ↦ ground (arith, e)
        | inr r ↦ r
      ]

  handle_create_event-Creates :
      (handle_create_event d w p).1.status ≡ ok → Creates (handle_create_event d w p) (created)
  unfolding find_event
  handle_create_event-Creates h =
      let (table, e) = handle_create_event_slot h in
      let (sent, filled) = handle_create_event_filled table e h in
      let next = find_next w.session.events v.events in
      (
        sent,
        next,
        λ j. rw filled (
            find-filled w.session.next_event_id j blank_event (λ _. created) w.session.events next
              e),
      )

  -- A successful `OP_CREATE_EVENT` in a valid session replies an id that was not in use. It stands for
  -- the driver's new event and the flags asked for afterwards, and no other id changes.
  find_event-handle_create_event :
      (handle_create_event d w p).1.status ≡ ok → Creates (handle_create_event d w p) created
  find_event-handle_create_event h = handle_create_event-Creates h

  handle_destroy_event_found :
      (handle_destroy_event d w p).1.status ≡ ok
      → (x : EventEntry) × (find_event w.session (read_u64 p) ≡ some x)
        × ((handle_destroy_event d w p).0.session.events ≡ remove (read_u64 p) w.session.events)
        × ((handle_destroy_event d w p).0.calls ≡ event_destroy x.event ∷ context_sync ∷ w.calls)
  unfolding handle_destroy_event
  handle_destroy_event_found h = elim (Option-cases (find_event w.session (read_u64 p))) [
    | inl e ↦ ground (arith, e)
    | inr (x, e) ↦ (x, e, ground arith, ground arith)
  ]

  -- A successful `OP_DESTROY_EVENT` in a valid session has waited for the context and then destroyed the
  -- event, and these are its only driver calls. Its id was known and is not any longer; no other id
  -- changes.
  pub find_event-handle_destroy_event :
      (handle_destroy_event d w p).1.status ≡ ok
      → (x : EventEntry) × (find_event w.session (read_u64 p) ≡ some x)
        × ((handle_destroy_event d w p).0.calls ≡ event_destroy x.event ∷ context_sync ∷ w.calls)
        × ((j : ℕ)
            → find_event (handle_destroy_event d w p).0.session j
              ≡ (if read_u64 p == j then none else find_event w.session j))
  unfolding find_event
  find_event-handle_destroy_event h =
      let (x, found, gone, calls) = handle_destroy_event_found h in
      (
        x,
        found,
        calls,
        λ j. rw gone (find-remove (read_u64 p) j w.session.events v.events.distinct),
      )
