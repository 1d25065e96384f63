-- ===== src/Server/Transfers/Stages.antt =====
-- The stages of a submission of server/runtime_server.c, from its first test to its reply.
use x_remote_runtime.Prelude.{
  ℕ, ◌≡◌, ◌≢◌, ◌⊎◌, inl, inr, refl, arith, List, [], drop, some, Bool-cases,
}
use x_remote_runtime.Protocol.Words.{read_u64, write_u64}
use x_remote_runtime.Server.Backend.{
  Driver, host_alloc, event_create, event_record, stream_sync, succeeds,
}
use x_remote_runtime.Server.Table.{Table, new_slot, remove, update}
use x_remote_runtime.Server.Session.{
  World, Response, ok, cuda_error, TransferEntry, TransferKind, Allocation, find_allocation,
  resolve_stream_id, ask, called, add_u64, with_session,
}
use x_remote_runtime.Server.Transfers.{
  submit_record, submit_issue, submit_event, submit_copy, submit, new_transfer, took_transfer,
  copy_call, give_up,
}

module _ (d : Driver) (id : ℕ) (table : Table TransferEntry) where
  give_up-session :
      (e : TransferEntry) (w : World)
      → (give_up id table e w).0.session ≡ (record w.session { transfers = remove id table })
  give_up-session e w = ground arith

  -- What a stage of a submission leaves of the entry `e`: nothing, or the entry with its event and its
  -- buffer under the id that it replies.
  abbrev pub Submitted : TransferEntry → World → World × Response → Type 0
  Submitted e w r =
      ((r.1.status ≡ cuda_error)
        × (r.0.session ≡ (record w.session { transfers = remove id table })))
      ⊎ ((r.1.status ≡ ok)
          × (r.1.payload ≡ write_u64 [] id)
          × (event : ℕ) × (buffer : ℕ) × (r.0.session ≡ (record w.session {
            transfers =
                update id (λ _. record e { done_event = event; host_buffer = buffer }) table;
          })))

  submit_record-Submitted :
      (e : TransferEntry) (s : ℕ) (w : World) → Submitted e w (submit_record d id table e s w)
  unfolding submit_record
  submit_record-Submitted e s w =
      elim (Bool-cases (succeeds (ask d (event_record e.done_event s) w).result)) [
        | inl q ↦ inr (rw (q, submit_record) (refl, refl, e.done_event, e.host_buffer, refl))
        | inr q ↦ inl (
            rw (q, submit_record)
              (
                refl,
                give_up-session e (called (stream_sync s) (called (event_record e.done_event s) w)),
              ))
      ]

  submit_issue-Submitted :
      (e : TransferEntry) (l : List ℕ) (p s : ℕ) (w : World)
      → Submitted e w (submit_issue d id table e l p s w)
  unfolding submit_issue
  submit_issue-Submitted e l p s w =
      elim (Bool-cases (succeeds (ask d (copy_call e l p s) w).result)) [
        | inl q ↦ rw (q, submit_issue) (submit_record-Submitted e s (called (copy_call e l p s) w))
        | inr q ↦
            inl (rw (q, submit_issue) (refl, give_up-session e (called (copy_call e l p s) w)))
      ]

  submit_event-Submitted :
      (e : TransferEntry) (l : List ℕ) (p s : ℕ) (w : World)
      → Submitted e w (submit_event d id table e l p s w)
  unfolding submit_event
  submit_event-Submitted e l p s w =
      elim (Bool-cases (succeeds (ask d (event_create d.event_default) w).result)) [
        | inl q ↦
            rw (q, submit_event)
              (submit_issue-Submitted _ l p s (called (event_create d.event_default) w))
        | inr q ↦ inl (
            rw (q, submit_event)
              (refl, give_up-session e (called (event_create d.event_default) w)))
      ]

  pub submit_copy-Submitted :
      (e : TransferEntry) (l : List ℕ) (p s : ℕ) (w : World)
      → Submitted e w (submit_copy d id table e l p s w)
  unfolding submit_copy
  submit_copy-Submitted e l p s w =
      elim (Bool-cases (succeeds (ask d (host_alloc e.bytes) w).result)) [
        | inl q ↦
            rw (q, submit_copy) (submit_event-Submitted _ l p s (called (host_alloc e.bytes) w))
        | inr q ↦
            inl (rw (q, submit_copy) (refl, give_up-session e (called (host_alloc e.bytes) w)))
      ]

module _ (d : Driver) (w : World) where
  pub submit_cases :
      (k : TransferKind) (p : List ℕ) (a : Allocation) (stream : ℕ)
      → find_allocation w.session (read_u64 p) ≡ some a
      → resolve_stream_id w.session (read_u64 (drop 16 p)) ≡ some stream
      → (table : Table TransferEntry)
      → new_slot w.session.next_transfer_id
          (new_transfer k (read_u64 p) (read_u64 (drop 16 p)) (read_u64 (drop 24 p)))
          w.session.transfers
        ≡ some table
      → (((submit d k w p).1.status ≢ ok) × ((submit d k w p).0.session ≡ w.session))
        ⊎ (submit d k w p
            ≡ submit_copy d w.session.next_transfer_id table
                (new_transfer k (read_u64 p) (read_u64 (drop 16 p)) (read_u64 (drop 24 p)))
                (drop 32 p)
                (add_u64 a.ptr (read_u64 (drop 8 p)))
                stream
                (with_session w (took_transfer w.session table)))
  unfolding submit
  submit_cases k p a stream e1 e2 table e3 = ground arith
