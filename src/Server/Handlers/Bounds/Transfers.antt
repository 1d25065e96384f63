-- ===== src/Server/Handlers/Bounds/Transfers.antt =====
-- The memory that the asynchronous copies of server/runtime_server.c touch.
use x_remote_runtime.Prelude.{
  ℕ, ◌+◌, ◌≤◌, ◌≡◌, ◌⊎◌, inl, inr, refl, arith, List, length, drop, length-drop, some, true,
  Bool-cases, ◌==◌,
}
use x_remote_runtime.Protocol.Words.{read_u64}
use x_remote_runtime.Server.Backend.{
  Driver, BackendCall, host_alloc, event_create, event_record, succeeds,
}
use x_remote_runtime.Server.Table.{Table, new_slot}
use x_remote_runtime.Server.Session.{
  World, Response, ServerSession, TransferEntry, TransferKind, h2d, d2h, Allocation,
  find_allocation, resolve_stream_id, ask, with_session, add_u64,
}
use x_remote_runtime.Server.Transfers.{
  submit_copy, submit, submit_record, submit_issue, submit_event, copy_call, give_up, is_h2d,
  took_transfer, new_transfer, handle_h2d_async_submit, handle_d2h_async_submit,
}
use x_remote_runtime.Server.Handlers.Calls.{InAllocation, IsSafe, Ran, RanSafely, Ran-found}

module _ (s : ServerSession) (old : List BackendCall) where
  abbrev Continues : World → Type 0
  Continues w = Ran (IsSafe s) old w.calls

  give_up-Continues :
      (id : ℕ) (table : Table TransferEntry) (e : TransferEntry) (w : World)
      → Continues w
      → Continues (give_up id table e w).0
  give_up-Continues id table e w h = elim (Bool-cases (e.done_event == 0)) [
    | inl p ↦ elim (Bool-cases (e.host_buffer == 0)) [
      | inl q ↦ rw (p, q) h
      | inr q ↦ rw (p, q) (Ran.more tt h)
    ]
    | inr p ↦ elim (Bool-cases (e.host_buffer == 0)) [
      | inl q ↦ rw (p, q) (Ran.more tt h)
      | inr q ↦ rw (p, q) (Ran.more tt (Ran.more tt h))
    ]
  ]

  module _ (d : Driver) (id : ℕ) (table : Table TransferEntry) (staged : List ℕ)
      (device stream : ℕ) where
    submit_record-Continues :
        (e : TransferEntry) (w : World)
        → Continues w
        → Continues (submit_record d id table e stream w).0
    unfolding submit_record
    submit_record-Continues e w h =
        elim (Bool-cases (succeeds (ask d (event_record e.done_event stream) w).result)) [
          | inl ok ↦ rw ok (Ran.more tt h)
          | inr bad ↦ rw bad (give_up-Continues id table e _ (Ran.more tt (Ran.more tt h)))
        ]

    abbrev IsSafeCopy : TransferEntry → Type 0
    IsSafeCopy e = IsSafe s (copy_call e staged device stream)

    submit_issue-Continues :
        (e : TransferEntry) (w : World)
        → IsSafeCopy e
        → Continues w
        → Continues (submit_issue d id table e staged device stream w).0
    unfolding submit_issue
    submit_issue-Continues e w safe h =
        elim (Bool-cases (succeeds (ask d (copy_call e staged device stream) w).result)) [
          | inl ok ↦ rw ok (submit_record-Continues e _ (Ran.more safe h))
          | inr bad ↦ rw bad (give_up-Continues id table e _ (Ran.more safe h))
        ]

    submit_event-Continues :
        (e : TransferEntry) (w : World)
        → ((event : ℕ) → IsSafeCopy (record e { done_event = event }))
        → Continues w
        → Continues (submit_event d id table e staged device stream w).0
    unfolding submit_event
    submit_event-Continues e w safe h =
        elim (Bool-cases (succeeds (ask d (event_create d.event_default) w).result)) [
          | inl ok ↦ rw ok (
              submit_issue-Continues _ _ (safe (ask d (event_create d.event_default) w).value)
                (Ran.more tt h))
          | inr bad ↦ rw bad (give_up-Continues id table e _ (Ran.more tt h))
        ]

    submit_copy-Continues :
        (e : TransferEntry) (w : World)
        → ((buffer event : ℕ) → IsSafeCopy (record e { host_buffer = buffer; done_event = event }))
        → Continues w
        → Continues (submit_copy d id table e staged device stream w).0
    unfolding submit_copy
    submit_copy-Continues e w safe h =
        elim (Bool-cases (succeeds (ask d (host_alloc e.bytes) w).result)) [
          | inl ok ↦ rw ok (
              submit_event-Continues _ _ (safe (ask d (host_alloc e.bytes) w).value)
                (Ran.more tt h))
          | inr bad ↦ rw bad (give_up-Continues id table e _ (Ran.more tt h))
        ]

copy_call-IsSafe :
    (s : ServerSession) (e : TransferEntry) (staged : List ℕ) (device stream : ℕ)
    → InAllocation s device e.bytes
    → (is_h2d e.kind ≡ true → length staged ≡ e.bytes)
    → IsSafe s (copy_call e staged device stream)
copy_call-IsSafe s e staged device stream inside fits = elim (Bool-cases (is_h2d e.kind)) [
  | inl h ↦ rw (h, fits h) inside
  | inr h ↦ rw h inside
]

module _ (d : Driver) (w : World) (p : List ℕ) (kind : TransferKind) where
  abbrev entry : TransferEntry
  entry = new_transfer kind (read_u64 p) (read_u64 (drop 16 p)) (read_u64 (drop 24 p))

  abbrev copied : Allocation → ℕ → Table TransferEntry → World × Response
  copied a stream table =
      submit_copy d w.session.next_transfer_id table entry (drop 32 p)
        (add_u64 a.ptr (read_u64 (drop 8 p))) stream
        (with_session w (took_transfer w.session table))

  submit_cases :
      (a : Allocation) (stream : ℕ) (table : Table TransferEntry)
      → find_allocation w.session (read_u64 p) ≡ some a
      → resolve_stream_id w.session (read_u64 (drop 16 p)) ≡ some stream
      → new_slot w.session.next_transfer_id entry w.session.transfers ≡ some table
      → ((submit d kind w p).0 ≡ w)
        ⊎ ((read_u64 (drop 8 p) + read_u64 (drop 24 p) ≤ a.size)
            × ((submit d kind w p).0 ≡ (copied a stream table).0))
  unfolding submit
  submit_cases a stream table e r t = ground arith

  -- `fits` is what the caller has tested of the length of an upload.
  submit-RanSafely :
      (is_h2d kind ≡ true → length (drop 32 p) ≡ read_u64 (drop 24 p))
      → RanSafely w (submit d kind w p).0
  unfolding submit
  submit-RanSafely fits =
      Ran-found (find_allocation w.session (read_u64 p)) (λ e. ground arith)
        λ a e.
          Ran-found (resolve_stream_id w.session (read_u64 (drop 16 p))) (λ r. ground arith)
            λ stream r.
              Ran-found (new_slot w.session.next_transfer_id entry w.session.transfers)
                (λ t. ground arith)
                λ table t. elim (submit_cases a stream table e r t) [
                  | inl same ↦ rw same Ran.done
                  | inr (bound, q) ↦ rw q (
                      submit_copy-Continues w.session w.calls d w.session.next_transfer_id table
                        (drop 32 p) (add_u64 a.ptr (read_u64 (drop 8 p))) stream entry _
                        (λ buffer event.
                          copy_call-IsSafe w.session
                            (record entry { host_buffer = buffer; done_event = event }) (drop 32 p)
                            _ stream (_, _, a, e, refl, bound) fits)
                        Ran.done)
                ]

module _ (d : Driver) (w : World) (p : List ℕ) where
  h2d_async_cases :
      ((handle_h2d_async_submit d w p).0 ≡ w)
      ⊎ (((handle_h2d_async_submit d w p).0 ≡ (submit d h2d w p).0)
          × (length (drop 32 p) ≡ read_u64 (drop 24 p)))
  unfolding handle_h2d_async_submit
  h2d_async_cases = ground (arith, length-drop 32 p)

  d2h_async_cases :
      ((handle_d2h_async_submit d w p).0 ≡ w)
      ⊎ ((handle_d2h_async_submit d w p).0 ≡ (submit d d2h w p).0)
  unfolding handle_d2h_async_submit
  d2h_async_cases = ground arith

  pub h2d_async_submit-RanSafely : RanSafely w (handle_h2d_async_submit d w p).0
  h2d_async_submit-RanSafely = elim h2d_async_cases [
    | inl q ↦ rw q Ran.done
    | inr (q, fits) ↦ rw q (submit-RanSafely d w p h2d (λ _. fits))
  ]

  pub d2h_async_submit-RanSafely : RanSafely w (handle_d2h_async_submit d w p).0
  d2h_async_submit-RanSafely = elim d2h_async_cases [
    | inl q ↦ rw q Ran.done
    | inr q ↦ rw q (submit-RanSafely d w p d2h (λ h. cc))
  ]
