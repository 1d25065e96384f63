-- ===== src/Server/Handlers/Streams.antt =====
-- The lifetime of a stream id: the creating and the destroying handlers of server/runtime_server.c.
use x_remote_runtime.Prelude.{
  ℕ, ◌≡◌, inl, inr, arith, List, [], ◌∷◌, drop, none, some, ◌==◌, if◌then◌else◌, Option-cases,
}
use x_remote_runtime.Protocol.Words.{read_u32, read_u64, write_u64}
use x_remote_runtime.Server.Table.{Table, new_slot, remove, update}
use x_remote_runtime.Server.Table.Slots.{find-filled, find-remove}
use x_remote_runtime.Server.Handlers.Sessions.{IsValid, find_next}
use x_remote_runtime.Server.Backend.{
  Driver, stream_create, stream_create_priority, stream_sync, stream_destroy,
}
use x_remote_runtime.Server.Session.{World, Response, find_stream, ok, ask}
use x_remote_runtime.Server.Streams.{
  stream_in_slot, handle_create_stream, handle_create_stream_priority, handle_destroy_stream,
}

module _ (d : Driver) (w : World) (p : List ℕ) (v : IsValid w.session) where
  -- The reply is an id that was not in use, and the id stands for `x` afterwards; the others are as before.
  abbrev Creates : World × Response → ℕ → Type 0
  Creates r x =
      (r.1.payload ≡ write_u64 [] w.session.next_stream_id)
      × (find_stream w.session w.session.next_stream_id ≡ none)
      × ((j : ℕ)
          → find_stream r.0.session j
            ≡ (if w.session.next_stream_id == j then some x else find_stream w.session j))

  handle_create_stream_filled :
      (table : Table ℕ)
      → new_slot w.session.next_stream_id 0 w.session.streams ≡ some table
      → (handle_create_stream d w p).1.status ≡ ok
      → ((handle_create_stream d w p).1.payload ≡ write_u64 [] w.session.next_stream_id)
        × ((handle_create_stream d w p).0.session.streams
            ≡ update w.session.next_stream_id
                (λ _. (ask d (stream_create (read_u32 p)) w).value)
                table)
  unfolding handle_create_stream stream_in_slot
  handle_create_stream_filled table e h = ground arith

  handle_create_stream_slot :
      (handle_create_stream d w p).1.status ≡ ok
      → (table : Table ℕ) × (new_slot w.session.next_stream_id 0 w.session.streams ≡ some table)
  unfolding handle_create_stream
  handle_create_stream_slot h =
      elim (Option-cases (new_slot w.session.next_stream_id 0 w.session.streams)) [
        | inl e ↦ ground (arith, e)
        | inr r ↦ r
      ]

  handle_create_stream-Creates :
      (handle_create_stream d w p).1.status ≡ ok
      → Creates (handle_create_stream d w p) ((ask d (stream_create (read_u32 p)) w).value)
  unfolding find_stream
  handle_create_stream-Creates h =
      let (table, e) = handle_create_stream_slot h in
      let (sent, filled) = handle_create_stream_filled table e h in
      let next = find_next w.session.streams v.streams in
      (
        sent,
        next,
        λ j. rw filled (
            find-filled w.session.next_stream_id j 0
              (λ _. (ask d (stream_create (read_u32 p)) w).value) w.session.streams next e),
      )

  handle_create_stream_priority_filled :
      (table : Table ℕ)
      → new_slot w.session.next_stream_id 0 w.session.streams ≡ some table
      → (handle_create_stream_priority d w p).1.status ≡ ok
      → ((handle_create_stream_priority d w p).1.payload ≡ write_u64 [] w.session.next_stream_id)
        × ((handle_create_stream_priority d w p).0.session.streams
            ≡ update w.session.next_stream_id
                (λ _. (ask d (stream_create_priority (read_u32 p) (read_u32 (drop 4 p))) w).value)
                table)
  unfolding handle_create_stream_priority stream_in_slot
  handle_create_stream_priority_filled table e h = ground arith

  handle_create_stream_priority_slot :
      (handle_create_stream_priority d w p).1.status ≡ ok
      → (table : Table ℕ) × (new_slot w.session.next_stream_id 0 w.session.streams ≡ some table)
  unfolding handle_create_stream_priority
  handle_create_stream_priority_slot h =
      elim (Option-cases (new_slot w.session.next_stream_id 0 w.session.streams)) [
        | inl e ↦ ground (arith, e)
        | inr r ↦ r
      ]

  handle_create_stream_priority-Creates :
      (handle_create_stream_priority d w p).1.status ≡ ok
      → Creates
          (handle_create_stream_priority d w p)
          ((ask d (stream_create_priority (read_u32 p) (read_u32 (drop 4 p))) w).value)
  unfolding find_stream
  handle_create_stream_priority-Creates h =
      let (table, e) = handle_create_stream_priority_slot h in
      let (sent, filled) = handle_create_stream_priority_filled table e h in
      let next = find_next w.session.streams v.streams in
      (
        sent,
        next,
        λ j. rw filled (
            find-filled w.session.next_stream_id j 0
              (λ _. (ask d (stream_create_priority (read_u32 p) (read_u32 (drop 4 p))) w).value)
              w.session.streams next e),
      )

  -- A successful `OP_CREATE_STREAM` in a valid session replies an id that was not in use. It stands for
  -- the driver's new stream afterwards, and no other id changes.
  find_stream-handle_create_stream :
      (handle_create_stream d w p).1.status ≡ ok
      → Creates (handle_create_stream d w p) ((ask d (stream_create (read_u32 p)) w).value)
  find_stream-handle_create_stream h = handle_create_stream-Creates h

  -- A successful `OP_CREATE_STREAM_PRIORITY` in a valid session replies an id that was not in use. It stands for
  -- the driver's new stream, of the priority asked for, afterwards, and no other id changes.
  find_stream-handle_create_stream_priority :
      (handle_create_stream_priority d w p).1.status ≡ ok
      → Creates
          (handle_create_stream_priority d w p)
          ((ask d (stream_create_priority (read_u32 p) (read_u32 (drop 4 p))) w).value)
  find_stream-handle_create_stream_priority h = handle_create_stream_priority-Creates h

  handle_destroy_stream_found :
      (handle_destroy_stream d w p).1.status ≡ ok
      → (x : ℕ) × (find_stream w.session (read_u64 p) ≡ some x)
        × ((handle_destroy_stream d w p).0.session.streams ≡ remove (read_u64 p) w.session.streams)
        × ((handle_destroy_stream d w p).0.calls ≡ stream_destroy x ∷ stream_sync x ∷ w.calls)
  unfolding handle_destroy_stream
  handle_destroy_stream_found h = elim (Option-cases (find_stream w.session (read_u64 p))) [
    | inl e ↦ ground (arith, e)
    | inr (x, e) ↦ (x, e, ground arith, ground arith)
  ]

  -- A successful `OP_DESTROY_STREAM` in a valid session has waited for the stream and then destroyed it,
  -- and these are its only driver calls. Its id was known and is not any longer; no other id changes.
  pub find_stream-handle_destroy_stream :
      (handle_destroy_stream d w p).1.status ≡ ok
      → (x : ℕ) × (find_stream w.session (read_u64 p) ≡ some x)
        × ((handle_destroy_stream d w p).0.calls ≡ stream_destroy x ∷ stream_sync x ∷ w.calls)
        × ((j : ℕ)
            → find_stream (handle_destroy_stream d w p).0.session j
              ≡ (if read_u64 p == j then none else find_stream w.session j))
  unfolding find_stream
  find_stream-handle_destroy_stream h =
      let (x, found, gone, calls) = handle_destroy_stream_found h in
      (
        x,
        found,
        calls,
        λ j. rw gone (find-remove (read_u64 p) j w.session.streams v.streams.distinct),
      )
