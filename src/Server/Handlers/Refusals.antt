-- ===== src/Server/Handlers/Refusals.antt =====
-- The requests that a handler of server/runtime_server.c refuses.
use x_remote_runtime.Prelude.{ℕ, List, Bool, true, false, ◌≡◌, ◌⊎◌, refl, arith}
use x_remote_runtime.Server.Backend.{Driver}
use x_remote_runtime.Server.Session.{
  World, Response, ProtocolStatus, bad_request, not_found, no_resource, TransferKind, h2d, d2h,
}
use x_remote_runtime.Server.Memory.Alloc.{
  alloc_in_slot, alloc_pitched_in_slot, pitched_memory, handle_alloc, handle_alloc_pitched,
  handle_free, handle_sync,
}
use x_remote_runtime.Server.Memory.Copy.{handle_h2d, handle_d2h, handle_d2d, handle_d2d_async}
use x_remote_runtime.Server.Memory.Fill.{handle_memset, handle_memset_async, handle_memset_2d}
use x_remote_runtime.Server.Streams.{
  stream_in_slot, handle_create_stream, handle_create_stream_priority, handle_stream_scalar,
  handle_stream_query, handle_stream_sync, handle_destroy_stream,
}
use x_remote_runtime.Server.Events.{
  event_in_slot, handle_create_event, handle_event_record, handle_event_query, handle_event_sync,
  handle_event_elapsed, handle_stream_wait_event, handle_destroy_event,
}
use x_remote_runtime.Server.Transfers.{
  submit_copy, submit_event, submit_issue, submit_record, submit, handle_h2d_async_submit,
  handle_d2h_async_submit, handle_transfer_query, handle_transfer_wait,
}
use x_remote_runtime.Server.Launches.{
  Decoded, refused, decoded, DecodedKernelLaunch, decode_kernel_launch, handle_launch_generic,
}
use x_remote_runtime.Server.Handlers.{Opcode, handler}

-- The statuses of a request that is turned down before anything is done for it.
abbrev pub IsRefusal : ProtocolStatus → Type 0
IsRefusal s = (s ≡ bad_request) ⊎ (s ≡ not_found) ⊎ (s ≡ no_resource)

-- Such a reply leaves the session as it was, and has made no driver call.
abbrev pub RefusesCleanly : World → World × Response → Type 0
RefusesCleanly w r = IsRefusal r.1.status → r.0 ≡ w

module _ (d : Driver) (w : World) (p : List ℕ) where
  alloc-refuses : RefusesCleanly w (handle_alloc d w p)
  unfolding handle_alloc alloc_in_slot
  alloc-refuses h = ground arith

  alloc_pitched-refuses : RefusesCleanly w (handle_alloc_pitched d w p)
  unfolding handle_alloc_pitched alloc_pitched_in_slot pitched_memory
  alloc_pitched-refuses h = ground arith

  free-refuses : RefusesCleanly w (handle_free d w p)
  unfolding handle_free
  free-refuses h = ground arith

  sync-refuses : RefusesCleanly w (handle_sync d w p)
  unfolding handle_sync
  sync-refuses h = ground arith

  h2d-refuses : RefusesCleanly w (handle_h2d d w p)
  unfolding handle_h2d
  h2d-refuses h = ground arith

  d2h-refuses : RefusesCleanly w (handle_d2h d w p)
  unfolding handle_d2h
  d2h-refuses h = ground arith

  d2d-refuses : RefusesCleanly w (handle_d2d d w p)
  unfolding handle_d2d
  d2d-refuses h = ground arith

  d2d_async-refuses : RefusesCleanly w (handle_d2d_async d w p)
  unfolding handle_d2d_async
  d2d_async-refuses h = ground arith

  memset-refuses : RefusesCleanly w (handle_memset d w p)
  unfolding handle_memset
  memset-refuses h = ground arith

  memset_async-refuses : RefusesCleanly w (handle_memset_async d w p)
  unfolding handle_memset_async
  memset_async-refuses h = ground arith

  memset_2d-refuses : (b : Bool) → RefusesCleanly w (handle_memset_2d d b w p)
  unfolding handle_memset_2d
  memset_2d-refuses b h = ground arith

  create_stream-refuses : RefusesCleanly w (handle_create_stream d w p)
  unfolding handle_create_stream stream_in_slot
  create_stream-refuses h = ground arith

  create_stream_priority-refuses : RefusesCleanly w (handle_create_stream_priority d w p)
  unfolding handle_create_stream_priority stream_in_slot
  create_stream_priority-refuses h = ground arith

  stream_scalar-refuses : (b : Bool) → RefusesCleanly w (handle_stream_scalar d b w p)
  unfolding handle_stream_scalar
  stream_scalar-refuses b h = ground arith

  stream_query-refuses : RefusesCleanly w (handle_stream_query d w p)
  unfolding handle_stream_query
  stream_query-refuses h = ground arith

  stream_sync-refuses : RefusesCleanly w (handle_stream_sync d w p)
  unfolding handle_stream_sync
  stream_sync-refuses h = ground arith

  destroy_stream-refuses : RefusesCleanly w (handle_destroy_stream d w p)
  unfolding handle_destroy_stream
  destroy_stream-refuses h = ground arith

  create_event-refuses : RefusesCleanly w (handle_create_event d w p)
  unfolding handle_create_event event_in_slot
  create_event-refuses h = ground arith

  event_record-refuses : RefusesCleanly w (handle_event_record d w p)
  unfolding handle_event_record
  event_record-refuses h = ground arith

  event_query-refuses : RefusesCleanly w (handle_event_query d w p)
  unfolding handle_event_query
  event_query-refuses h = ground arith

  event_sync-refuses : RefusesCleanly w (handle_event_sync d w p)
  unfolding handle_event_sync
  event_sync-refuses h = ground arith

  event_elapsed-refuses : RefusesCleanly w (handle_event_elapsed d w p)
  unfolding handle_event_elapsed
  event_elapsed-refuses h = ground arith

  stream_wait_event-refuses : RefusesCleanly w (handle_stream_wait_event d w p)
  unfolding handle_stream_wait_event
  stream_wait_event-refuses h = ground arith

  destroy_event-refuses : RefusesCleanly w (handle_destroy_event d w p)
  unfolding handle_destroy_event
  destroy_event-refuses h = ground arith

  submit-refuses : (k : TransferKind) → RefusesCleanly w (submit d k w p)
  unfolding submit submit_copy submit_event submit_issue submit_record
  submit-refuses k h = ground arith

  h2d_async_submit-refuses : RefusesCleanly w (handle_h2d_async_submit d w p)
  unfolding handle_h2d_async_submit
  h2d_async_submit-refuses h = ground (arith, submit-refuses h2d)

  d2h_async_submit-refuses : RefusesCleanly w (handle_d2h_async_submit d w p)
  unfolding handle_d2h_async_submit
  d2h_async_submit-refuses h = ground (arith, submit-refuses d2h)

  transfer_query-refuses : RefusesCleanly w (handle_transfer_query d w p)
  unfolding handle_transfer_query
  transfer_query-refuses h = ground arith

  transfer_wait-refuses : RefusesCleanly w (handle_transfer_wait d w p)
  unfolding handle_transfer_wait
  transfer_wait-refuses h = ground arith

  -- What was decoded is launched, which is no refusal.
  launch-refuses : RefusesCleanly w (handle_launch_generic d w p)
  unfolding handle_launch_generic
  launch-refuses = go (decode_kernel_launch false w.session p) refl
    where
      go :
          (r : Decoded DecodedKernelLaunch)
          → decode_kernel_launch false w.session p ≡ r
          → RefusesCleanly w (handle_launch_generic d w p)
      go (refused status) e = rw (e, handle_launch_generic) (λ h. refl)
      go (decoded l) e = rw (e, handle_launch_generic) (λ h. ground (arith, h))

-- A reply `ST_BAD_REQUEST`, `ST_NOT_FOUND` or `ST_NO_RESOURCE` of a handler that `Opcode` names, which are
-- those that the modelled `serve_session` runs, leaves the session unchanged, and no driver call was made
-- for the request.
pub handler-refuses :
    (d : Driver) (op : Opcode) (w : World) (p : List ℕ)
    → IsRefusal (handler d op w p).1.status
    → (handler d op w p).0 ≡ w
unfolding handler
handler-refuses d Opcode.alloc w p h = alloc-refuses d w p h
handler-refuses d Opcode.alloc_pitched w p h = alloc_pitched-refuses d w p h
handler-refuses d Opcode.free w p h = free-refuses d w p h
handler-refuses d Opcode.sync w p h = sync-refuses d w p h
handler-refuses d Opcode.h2d w p h = h2d-refuses d w p h
handler-refuses d Opcode.d2h w p h = d2h-refuses d w p h
handler-refuses d Opcode.d2d w p h = d2d-refuses d w p h
handler-refuses d Opcode.d2d_async w p h = d2d_async-refuses d w p h
handler-refuses d Opcode.memset w p h = memset-refuses d w p h
handler-refuses d Opcode.memset_async w p h = memset_async-refuses d w p h
handler-refuses d Opcode.memset_2d w p h = memset_2d-refuses d w p false h
handler-refuses d Opcode.memset_2d_async w p h = memset_2d-refuses d w p true h
handler-refuses d Opcode.create_stream w p h = create_stream-refuses d w p h
handler-refuses d Opcode.create_stream_priority w p h = create_stream_priority-refuses d w p h
handler-refuses d Opcode.stream_get_flags w p h = stream_scalar-refuses d w p false h
handler-refuses d Opcode.stream_get_priority w p h = stream_scalar-refuses d w p true h
handler-refuses d Opcode.stream_query w p h = stream_query-refuses d w p h
handler-refuses d Opcode.stream_sync w p h = stream_sync-refuses d w p h
handler-refuses d Opcode.destroy_stream w p h = destroy_stream-refuses d w p h
handler-refuses d Opcode.create_event w p h = create_event-refuses d w p h
handler-refuses d Opcode.event_record w p h = event_record-refuses d w p h
handler-refuses d Opcode.event_query w p h = event_query-refuses d w p h
handler-refuses d Opcode.event_sync w p h = event_sync-refuses d w p h
handler-refuses d Opcode.event_elapsed w p h = event_elapsed-refuses d w p h
handler-refuses d Opcode.stream_wait_event w p h = stream_wait_event-refuses d w p h
handler-refuses d Opcode.destroy_event w p h = destroy_event-refuses d w p h
handler-refuses d Opcode.h2d_async_submit w p h = h2d_async_submit-refuses d w p h
handler-refuses d Opcode.d2h_async_submit w p h = d2h_async_submit-refuses d w p h
handler-refuses d Opcode.transfer_query w p h = transfer_query-refuses d w p h
handler-refuses d Opcode.transfer_wait w p h = transfer_wait-refuses d w p h
handler-refuses d Opcode.launch w p h = launch-refuses d w p h
