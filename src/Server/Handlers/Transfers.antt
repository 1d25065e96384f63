-- ===== src/Server/Handlers/Transfers.antt =====
-- The lifetime of a transfer id: the submissions and the consuming wait of server/runtime_server.c.
use x_remote_runtime.Prelude.{
  ℕ, ◌≡◌, ◌≢◌, ◌⊎◌, inl, inr, refl, arith, List, [], drop, none, some, ◌==◌, if◌then◌else◌,
  Option-cases,
}
use x_remote_runtime.Protocol.Words.{read_u64, write_u64}
use x_remote_runtime.Server.Backend.{Driver, event_sync}
use x_remote_runtime.Server.Table.{Table, new_slot, remove}
use x_remote_runtime.Server.Table.Slots.{find-filled, find-remove, find-given_back}
use x_remote_runtime.Server.Session.{
  World, Response, TransferEntry, TransferKind, h2d, d2h, find_allocation, find_transfer,
  resolve_stream_id, ok, ask, add_u64, with_session,
}
use x_remote_runtime.Server.Transfers.{
  submit, submit_copy, new_transfer, took_transfer, is_h2d, handle_h2d_async_submit,
  handle_d2h_async_submit, handle_transfer_wait,
}
use x_remote_runtime.Server.Transfers.Stages.{submit_copy-Submitted, submit_cases}
use x_remote_runtime.Server.Handlers.Sessions.{IsValid, find_next}

abbrev request : TransferKind → List ℕ → TransferEntry
request k p = new_transfer k (read_u64 p) (read_u64 (drop 16 p)) (read_u64 (drop 24 p))

-- A submission has replied the next id, under which its request is now found, or it has left every id
-- as it was.
abbrev pub IsSubmitted : TransferKind → List ℕ → World → World × Response → Type 0
IsSubmitted k p w r =
    ((r.1.status ≡ ok)
      × (r.1.payload ≡ write_u64 [] w.session.next_transfer_id)
      × (event : ℕ) × (buffer : ℕ) × ((j : ℕ)
          → find_transfer r.0.session j ≡ (
              if w.session.next_transfer_id == j
              then some (record (request k p) { done_event = event; host_buffer = buffer })
              else find_transfer w.session j)))
    ⊎ ((r.1.status ≢ ok) × ((j : ℕ) → find_transfer r.0.session j ≡ find_transfer w.session j))

module _ (d : Driver) (w : World) (v : IsValid w.session) where
  submit_copy-IsSubmitted :
      (k : TransferKind) (p : List ℕ) (device stream : ℕ) {table : Table TransferEntry}
      → new_slot w.session.next_transfer_id (request k p) w.session.transfers ≡ some table
      → IsSubmitted k p w (
          submit_copy d w.session.next_transfer_id table
            (request k p)
            (drop 32 p)
            device
            stream
            (with_session w (took_transfer w.session table)))
  unfolding find_transfer
  submit_copy-IsSubmitted k p device stream {table} q =
      let next = find_next w.session.transfers v.transfers in
      elim (submit_copy-Submitted d w.session.next_transfer_id table (request k p) (drop 32 p)
        device stream (with_session w (took_transfer w.session table))) [
          | inl (bad, r) ↦ inr (
            ground arith,
            λ j. rw r (
                find-given_back w.session.next_transfer_id j (request k p) w.session.transfers next
                  q),
          )
          | inr (good, sent, event, buffer, r) ↦ inl (
            good,
            sent,
            event,
            buffer,
            λ j. rw r (
                find-filled w.session.next_transfer_id j (request k p) _ w.session.transfers next
                  q),
          )
        ]

  refused :
      (k : TransferKind) (p : List ℕ) (r : World × Response)
      → r.1.status ≢ ok
      → r.0.session ≡ w.session
      → IsSubmitted k p w r
  refused k p r bad same = inr (bad, λ j. rw same refl)

  submit-IsSubmitted : (k : TransferKind) (p : List ℕ) → IsSubmitted k p w (submit d k w p)
  unfolding submit
  submit-IsSubmitted k p = elim (Option-cases (find_allocation w.session (read_u64 p))) [
    | inl e ↦ refused k p (submit d k w p) (ground arith) (ground arith)
    | inr (a, e1) ↦ elim (Option-cases (resolve_stream_id w.session (read_u64 (drop 16 p)))) [
      | inl e ↦ refused k p (submit d k w p) (ground arith) (ground arith)
      | inr (stream, e2) ↦
          elim (Option-cases
            (new_slot w.session.next_transfer_id (request k p) w.session.transfers)) [
              | inl e ↦ refused k p (submit d k w p) (ground arith) (ground arith)
              | inr (table, e3) ↦ elim (submit_cases d w k p a stream e1 e2 table e3) [
                | inl (bad, same) ↦ refused k p (submit d k w p) bad same
                | inr q ↦
                    rw q
                      (submit_copy-IsSubmitted k p (add_u64 a.ptr (read_u64 (drop 8 p))) stream e3)
              ]
            ]
    ]
  ]

  h2d_cases :
      (p : List ℕ)
      → (((handle_h2d_async_submit d w p).1.status ≢ ok)
          × ((handle_h2d_async_submit d w p).0.session ≡ w.session))
        ⊎ (handle_h2d_async_submit d w p ≡ submit d h2d w p)
  unfolding handle_h2d_async_submit
  h2d_cases p = ground arith

  d2h_cases :
      (p : List ℕ)
      → (((handle_d2h_async_submit d w p).1.status ≢ ok)
          × ((handle_d2h_async_submit d w p).0.session ≡ w.session))
        ⊎ (handle_d2h_async_submit d w p ≡ submit d d2h w p)
  unfolding handle_d2h_async_submit
  d2h_cases p = ground arith

  -- In a valid session a successful asynchronous submission, of an upload or of a download, replies an
  -- id under which a transfer with the request's allocation, stream and byte count is found from then
  -- on, and changes what no other id stands for. One that fails, at whichever step, leaves every id as
  -- it was: the slot it took is free again.
  pub submits-IsSubmitted :
      (p : List ℕ)
      → IsSubmitted h2d p w (handle_h2d_async_submit d w p)
        × IsSubmitted d2h p w (handle_d2h_async_submit d w p)
  submits-IsSubmitted p = (
    elim (h2d_cases p) [
      | inl (bad, same) ↦ refused h2d p (handle_h2d_async_submit d w p) bad same
      | inr q ↦ rw q (submit-IsSubmitted h2d p)
    ],
    elim (d2h_cases p) [
      | inl (bad, same) ↦ refused d2h p (handle_d2h_async_submit d w p) bad same
      | inr q ↦ rw q (submit-IsSubmitted d2h p)
    ],
  )

  wait_found :
      (p : List ℕ)
      → (handle_transfer_wait d w p).1.status ≡ ok
      → (e : TransferEntry) × (find_transfer w.session (read_u64 p) ≡ some e)
        × ((handle_transfer_wait d w p).1.payload
            ≡ (if is_h2d e.kind then [] else (ask d (event_sync e.done_event) w).bytes))
        × ((handle_transfer_wait d w p).0.session.transfers
            ≡ remove (read_u64 p) w.session.transfers)
  unfolding handle_transfer_wait
  wait_found p h = elim (Option-cases (find_transfer w.session (read_u64 p))) [
    | inl e ↦ ground (arith, e)
    | inr (a, e) ↦ (a, e, ground arith, ground arith)
  ]

  -- A successful wait in a valid session consumes the transfer: its id was known and is not any longer,
  -- and no other id changes. The reply holds what the finished download put into its buffer, and
  -- nothing for an upload.
  pub find_transfer-handle_transfer_wait :
      (p : List ℕ)
      → (handle_transfer_wait d w p).1.status ≡ ok
      → (e : TransferEntry) × (find_transfer w.session (read_u64 p) ≡ some e)
        × ((handle_transfer_wait d w p).1.payload
            ≡ (if is_h2d e.kind then [] else (ask d (event_sync e.done_event) w).bytes))
        × ((j : ℕ)
            → find_transfer (handle_transfer_wait d w p).0.session j
              ≡ (if read_u64 p == j then none else find_transfer w.session j))
  unfolding find_transfer
  find_transfer-handle_transfer_wait p h =
      let (e, found, sent, gone) = wait_found p h in
      (
        e,
        found,
        sent,
        λ j. rw gone (find-remove (read_u64 p) j w.session.transfers v.transfers.distinct),
      )
