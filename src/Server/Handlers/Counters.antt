-- ===== src/Server/Handlers/Counters.antt =====
-- How fast the id counters of a session of server/runtime_server.c grow.
use x_remote_runtime.Prelude.{
  ℕ, ◌+◌, ◌≤◌, ◌≡◌, inl, inr, arith, List, true, false, Bool-cases, ◌==◌, Option-cases,
}
use x_remote_runtime.Protocol.Words.{read_u64}
use x_remote_runtime.Server.Backend.{Driver, context_sync, mem_free}
use x_remote_runtime.Server.Session.{
  World, ServerSession, Allocation, TransferKind, called, find_allocation,
}
use x_remote_runtime.Server.GraphMemory.Sessions.{
  graph_allocation_freed-session, retire_graph_memory-session,
}
use x_remote_runtime.Server.Memory.Alloc.{
  alloc_in_slot, handle_alloc, pitched_memory, alloc_pitched_in_slot, handle_alloc_pitched,
  forget_allocation, handle_free, handle_sync,
}
use x_remote_runtime.Server.Streams.{
  stream_in_slot, handle_create_stream, handle_create_stream_priority, handle_destroy_stream,
}
use x_remote_runtime.Server.Events.{event_in_slot, handle_create_event, handle_destroy_event}
use x_remote_runtime.Server.Transfers.{
  submit_copy, submit_event, submit_issue, submit_record, submit, handle_h2d_async_submit,
  handle_d2h_async_submit, handle_transfer_wait,
}
use x_remote_runtime.Server.Handlers.{Opcode, handler}
use x_remote_runtime.Server.Handlers.Invariant.Frees.{free_cases}
use x_remote_runtime.Server.Handlers.Invariant.Same.{
  h2d-session, d2h-session, d2d-session, d2d_async-session, memset-session, memset_async-session,
  memset_2d-session, stream_scalar-session, stream_query-session, stream_sync-session,
  event_record-session, event_query-session, event_sync-session, event_elapsed-session,
  stream_wait_event-session, transfer_query-session, launch-session,
}

-- No counter has grown by more than one.
pub record IsNext (s s' : ServerSession) : Type 0 where
  pub alloc : s'.next_alloc_id ≤ s.next_alloc_id + 1
  pub stream : s'.next_stream_id ≤ s.next_stream_id + 1
  pub event : s'.next_event_id ≤ s.next_event_id + 1
  pub transfer : s'.next_transfer_id ≤ s.next_transfer_id + 1

module _ (d : Driver) (w : World) where
  forget_allocation-IsNext :
      (id : ℕ) (a : Allocation) → IsNext w.session (forget_allocation d id a w).session
  unfolding forget_allocation
  forget_allocation-IsNext id a = elim (Bool-cases (a.graph_id == 0)) [
    | inl plain ↦ rw plain (ground arith)
    | inr mapped ↦
        (let (execs, e) = graph_allocation_freed-session d id 0 false w in
          rw (mapped, e) (ground arith))
  ]

module _ (d : Driver) (w : World) (p : List ℕ) where
  alloc-IsNext : IsNext w.session (handle_alloc d w p).0.session
  unfolding handle_alloc alloc_in_slot
  alloc-IsNext = ground arith

  alloc_pitched-IsNext : IsNext w.session (handle_alloc_pitched d w p).0.session
  unfolding handle_alloc_pitched alloc_pitched_in_slot pitched_memory
  alloc_pitched-IsNext = ground arith

  create_stream-IsNext : IsNext w.session (handle_create_stream d w p).0.session
  unfolding handle_create_stream stream_in_slot
  create_stream-IsNext = ground arith

  create_stream_priority-IsNext : IsNext w.session (handle_create_stream_priority d w p).0.session
  unfolding handle_create_stream_priority stream_in_slot
  create_stream_priority-IsNext = ground arith

  destroy_stream-IsNext : IsNext w.session (handle_destroy_stream d w p).0.session
  unfolding handle_destroy_stream
  destroy_stream-IsNext = ground arith

  create_event-IsNext : IsNext w.session (handle_create_event d w p).0.session
  unfolding handle_create_event event_in_slot
  create_event-IsNext = ground arith

  destroy_event-IsNext : IsNext w.session (handle_destroy_event d w p).0.session
  unfolding handle_destroy_event
  destroy_event-IsNext = ground arith

  submit-IsNext : (k : TransferKind) → IsNext w.session (submit d k w p).0.session
  unfolding submit submit_copy submit_event submit_issue submit_record
  submit-IsNext k = ground arith

  transfer_wait-IsNext : IsNext w.session (handle_transfer_wait d w p).0.session
  unfolding handle_transfer_wait
  transfer_wait-IsNext = ground arith

  sync-IsNext : IsNext w.session (handle_sync d w p).0.session
  unfolding handle_sync
  sync-IsNext =
      let (execs, e) = retire_graph_memory-session d true (called context_sync w) in
      ground (arith, e)

  free-IsNext : IsNext w.session (handle_free d w p).0.session
  unfolding handle_free
  free-IsNext = elim (Option-cases (find_allocation w.session (read_u64 p))) [
    | inl missing ↦ ground arith
    | inr (a, found) ↦ elim (free_cases d w p a found) [
      | inl same ↦ ground arith
      | inr forgets ↦ rw forgets (
          forget_allocation-IsNext d (called (mem_free a.ptr) (called context_sync w)) (read_u64 p)
            a)
    ]
  ]

  -- A handler that leaves the session alone.
  IsNext-same : (s : ServerSession) → s ≡ w.session → IsNext w.session s
  IsNext-same s e = rw e (ground arith)

  h2d_async_submit-IsNext : IsNext w.session (handle_h2d_async_submit d w p).0.session
  unfolding handle_h2d_async_submit
  h2d_async_submit-IsNext = ground (arith, submit-IsNext TransferKind.h2d)

  d2h_async_submit-IsNext : IsNext w.session (handle_d2h_async_submit d w p).0.session
  unfolding handle_d2h_async_submit
  d2h_async_submit-IsNext = ground (arith, submit-IsNext TransferKind.d2h)

-- No handler makes an id counter grow by more than one.
pub handler-IsNext :
    (d : Driver) (op : Opcode) (w : World) (p : List ℕ)
    → IsNext w.session (handler d op w p).0.session
unfolding handler
handler-IsNext d Opcode.alloc w p = alloc-IsNext d w p
handler-IsNext d Opcode.alloc_pitched w p = alloc_pitched-IsNext d w p
handler-IsNext d Opcode.free w p = free-IsNext d w p
handler-IsNext d Opcode.sync w p = sync-IsNext d w p
handler-IsNext d Opcode.h2d w p = IsNext-same d w p _ (h2d-session d w p)
handler-IsNext d Opcode.d2h w p = IsNext-same d w p _ (d2h-session d w p)
handler-IsNext d Opcode.d2d w p = IsNext-same d w p _ (d2d-session d w p)
handler-IsNext d Opcode.d2d_async w p = IsNext-same d w p _ (d2d_async-session d w p)
handler-IsNext d Opcode.memset w p = IsNext-same d w p _ (memset-session d w p)
handler-IsNext d Opcode.memset_async w p = IsNext-same d w p _ (memset_async-session d w p)
handler-IsNext d Opcode.memset_2d w p = IsNext-same d w p _ (memset_2d-session d w p false)
handler-IsNext d Opcode.memset_2d_async w p = IsNext-same d w p _ (memset_2d-session d w p true)
handler-IsNext d Opcode.create_stream w p = create_stream-IsNext d w p
handler-IsNext d Opcode.create_stream_priority w p = create_stream_priority-IsNext d w p
handler-IsNext d Opcode.stream_get_flags w p =
    IsNext-same d w p _ (stream_scalar-session d w p false)
handler-IsNext d Opcode.stream_get_priority w p =
    IsNext-same d w p _ (stream_scalar-session d w p true)
handler-IsNext d Opcode.stream_query w p = IsNext-same d w p _ (stream_query-session d w p)
handler-IsNext d Opcode.stream_sync w p = IsNext-same d w p _ (stream_sync-session d w p)
handler-IsNext d Opcode.destroy_stream w p = destroy_stream-IsNext d w p
handler-IsNext d Opcode.create_event w p = create_event-IsNext d w p
handler-IsNext d Opcode.event_record w p = IsNext-same d w p _ (event_record-session d w p)
handler-IsNext d Opcode.event_query w p = IsNext-same d w p _ (event_query-session d w p)
handler-IsNext d Opcode.event_sync w p = IsNext-same d w p _ (event_sync-session d w p)
handler-IsNext d Opcode.event_elapsed w p = IsNext-same d w p _ (event_elapsed-session d w p)
handler-IsNext d Opcode.stream_wait_event w p =
    IsNext-same d w p _ (stream_wait_event-session d w p)
handler-IsNext d Opcode.destroy_event w p = destroy_event-IsNext d w p
handler-IsNext d Opcode.h2d_async_submit w p = h2d_async_submit-IsNext d w p
handler-IsNext d Opcode.d2h_async_submit w p = d2h_async_submit-IsNext d w p
handler-IsNext d Opcode.transfer_query w p = IsNext-same d w p _ (transfer_query-session d w p)
handler-IsNext d Opcode.transfer_wait w p = transfer_wait-IsNext d w p
handler-IsNext d Opcode.launch w p = IsNext-same d w p _ (launch-session d w p)
