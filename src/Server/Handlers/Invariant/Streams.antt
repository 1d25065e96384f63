-- ===== src/Server/Handlers/Invariant/Streams.antt =====
-- The stream and event handlers of server/runtime_server.c and the invariant of the session.
use x_remote_runtime.Prelude.{ℕ, ◌≡◌, ◌⊎◌, inl, inr, arith, List, drop, some, Bool-cases}
use x_remote_runtime.Protocol.Words.{read_u32, read_u64}
use x_remote_runtime.Server.Backend.{
  Driver, BackendCall, stream_create, stream_create_priority, event_create, succeeds,
}
use x_remote_runtime.Server.Table.{Table, new_slot, remove}
use x_remote_runtime.Server.Session.{World, EventEntry, ask}
use x_remote_runtime.Server.Streams.{
  stream_in_slot, handle_create_stream, handle_create_stream_priority, handle_destroy_stream,
}
use x_remote_runtime.Server.Events.{
  event_in_slot, blank_event, handle_create_event, handle_destroy_event,
}
use x_remote_runtime.Server.Handlers.Sessions.{
  IsValid, HasIds, IsValidAfter, IsValid-found, new_slot-IsTable, remove-IsTable, update-IsTable,
  with_streams-IsValid, with_events-IsValid,
}

module _ (d : Driver) (w : World) (v : IsValid w.session) where
  destroy_stream_cases :
      (p : List ℕ)
      → ((handle_destroy_stream d w p).0.session ≡ w.session)
        ⊎ ((handle_destroy_stream d w p).0.session
            ≡ (record w.session { streams = remove (read_u64 p) w.session.streams }))
  unfolding handle_destroy_stream
  destroy_stream_cases p = ground arith

  pub destroy_stream-IsValid : (p : List ℕ) → IsValidAfter (handle_destroy_stream d w p)
  destroy_stream-IsValid p = elim (destroy_stream_cases p) [
    | inl q ↦ rw q v
    | inr q ↦
        rw q (with_streams-IsValid v (remove-IsTable w.session.streams v.streams (read_u64 p)))
  ]

  destroy_event_cases :
      (p : List ℕ)
      → ((handle_destroy_event d w p).0.session ≡ w.session)
        ⊎ ((handle_destroy_event d w p).0.session
            ≡ (record w.session { events = remove (read_u64 p) w.session.events }))
  unfolding handle_destroy_event
  destroy_event_cases p = ground arith

  pub destroy_event-IsValid : (p : List ℕ) → IsValidAfter (handle_destroy_event d w p)
  destroy_event-IsValid p = elim (destroy_event_cases p) [
    | inl q ↦ rw q v
    | inr q ↦ rw q (with_events-IsValid v (remove-IsTable w.session.events v.events (read_u64 p)))
  ]

  module _ (ids : HasIds w.session) where
    stream_in_slot-IsValid :
        (c : BackendCall) {table : Table ℕ}
        → new_slot w.session.next_stream_id 0 w.session.streams ≡ some table
        → IsValidAfter (stream_in_slot d c w table)
    unfolding stream_in_slot
    stream_in_slot-IsValid c {table} e =
        let t = new_slot-IsTable w.session.streams v.streams 0 ids.stream e in
        elim (Bool-cases (succeeds (ask d c w).result)) [
          | inl ok ↦
              rw ok (with_streams-IsValid v (update-IsTable table t w.session.next_stream_id _))
          | inr bad ↦
              rw bad (with_streams-IsValid v (remove-IsTable table t w.session.next_stream_id))
        ]

    create_stream_cases :
        (p : List ℕ) (table : Table ℕ)
        → new_slot w.session.next_stream_id 0 w.session.streams ≡ some table
        → ((handle_create_stream d w p).0.session ≡ w.session)
          ⊎ (handle_create_stream d w p ≡ stream_in_slot d (stream_create (read_u32 p)) w table)
    unfolding handle_create_stream
    create_stream_cases p table e = ground arith

    pub create_stream-IsValid : (p : List ℕ) → IsValidAfter (handle_create_stream d w p)
    unfolding handle_create_stream
    create_stream-IsValid p =
        IsValid-found (handle_create_stream d w p)
          (new_slot w.session.next_stream_id 0 w.session.streams) v (λ e. ground arith)
          λ table e. elim (create_stream_cases p table e) [
            | inl q ↦ rw q v
            | inr q ↦ rw q (stream_in_slot-IsValid _ e)
          ]

    create_stream_priority_cases :
        (p : List ℕ) (table : Table ℕ)
        → new_slot w.session.next_stream_id 0 w.session.streams ≡ some table
        → ((handle_create_stream_priority d w p).0.session ≡ w.session)
          ⊎ (handle_create_stream_priority d w p
              ≡ stream_in_slot d
                  (stream_create_priority (read_u32 p) (read_u32 (drop 4 p)))
                  w
                  table)
    unfolding handle_create_stream_priority
    create_stream_priority_cases p table e = ground arith

    pub create_stream_priority-IsValid :
        (p : List ℕ) → IsValidAfter (handle_create_stream_priority d w p)
    unfolding handle_create_stream_priority
    create_stream_priority-IsValid p =
        IsValid-found (handle_create_stream_priority d w p)
          (new_slot w.session.next_stream_id 0 w.session.streams) v (λ e. ground arith)
          λ table e. elim (create_stream_priority_cases p table e) [
            | inl q ↦ rw q v
            | inr q ↦ rw q (stream_in_slot-IsValid _ e)
          ]

    event_in_slot-IsValid :
        (flags : ℕ) {table : Table EventEntry}
        → new_slot w.session.next_event_id blank_event w.session.events ≡ some table
        → IsValidAfter (event_in_slot d flags w table)
    unfolding event_in_slot
    event_in_slot-IsValid flags {table} e =
        let t = new_slot-IsTable w.session.events v.events blank_event ids.event e in
        elim (Bool-cases (succeeds (ask d (event_create flags) w).result)) [
          | inl ok ↦
              rw ok (with_events-IsValid v (update-IsTable table t w.session.next_event_id _))
          | inr bad ↦
              rw bad (with_events-IsValid v (remove-IsTable table t w.session.next_event_id))
        ]

    create_event_cases :
        (p : List ℕ) (table : Table EventEntry)
        → new_slot w.session.next_event_id blank_event w.session.events ≡ some table
        → ((handle_create_event d w p).0.session ≡ w.session)
          ⊎ (handle_create_event d w p ≡ event_in_slot d (read_u32 p) w table)
    unfolding handle_create_event
    create_event_cases p table e = ground arith

    pub create_event-IsValid : (p : List ℕ) → IsValidAfter (handle_create_event d w p)
    unfolding handle_create_event
    create_event-IsValid p =
        IsValid-found (handle_create_event d w p)
          (new_slot w.session.next_event_id blank_event w.session.events) v (λ e. ground arith)
          λ table e. elim (create_event_cases p table e) [
            | inl q ↦ rw q v
            | inr q ↦ rw q (event_in_slot-IsValid _ e)
          ]
