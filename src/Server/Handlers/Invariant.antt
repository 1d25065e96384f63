-- ===== src/Server/Handlers/Invariant.antt =====
-- The handlers of server/runtime_server.c and the invariant of the session.
mod Streams
mod Memory
pub mod Frees
mod Transfers
pub mod Same
use x_remote_runtime.Server.Launches.{handle_launch_generic}
use x_remote_runtime.Prelude.{ℕ, List, Bool, true, false, ◌≡◌, arith, refl}
use x_remote_runtime.Server.Backend.{Driver}
use x_remote_runtime.Server.Session.{World, Response, server_session_init}
use x_remote_runtime.Server.Memory.Copy.{handle_h2d, handle_d2h, handle_d2d, handle_d2d_async}
use x_remote_runtime.Server.Memory.Fill.{handle_memset, handle_memset_async, handle_memset_2d}
use x_remote_runtime.Server.Streams.{handle_stream_scalar, handle_stream_query, handle_stream_sync}
use x_remote_runtime.Server.Events.{
  handle_event_record, handle_event_query, handle_event_sync, handle_event_elapsed,
  handle_stream_wait_event,
}
use x_remote_runtime.Server.Transfers.{handle_transfer_query}
use x_remote_runtime.Server.Handlers.{Opcode, handler}
use x_remote_runtime.Server.Handlers.Sessions.{IsTable, IsValid, HasIds, IsValidAfter, IsValid-same}
use x_remote_runtime.Server.Handlers.Invariant.Streams.{
  destroy_stream-IsValid, destroy_event-IsValid, create_stream-IsValid,
  create_stream_priority-IsValid, create_event-IsValid,
}
use x_remote_runtime.Server.Handlers.Invariant.Memory.{alloc-IsValid, alloc_pitched-IsValid}
use x_remote_runtime.Server.Handlers.Invariant.Frees.{free-IsValid, sync-IsValid}
use x_remote_runtime.Server.Handlers.Invariant.Transfers.{
  h2d_async_submit-IsValid, d2h_async_submit-IsValid, transfer_wait-IsValid,
}
use x_remote_runtime.Server.Handlers.Invariant.Same.{
  h2d-session, d2h-session, d2d-session, d2d_async-session, memset-session, memset_async-session,
  memset_2d-session, stream_scalar-session, stream_query-session, stream_sync-session,
  event_record-session, event_query-session, event_sync-session, event_elapsed-session,
  stream_wait_event-session, transfer_query-session, launch-session,
}

-- Every handler that `Opcode` names, which are those that the modelled `serve_session` runs, keeps the
-- session valid, whatever the driver answers and whatever the payload holds, as long as no id counter is
-- about to wrap around. Valid is about the tables of allocations, streams, events and transfers.
pub handler-IsValid :
    (d : Driver) (op : Opcode) (w : World) (p : List ℕ)
    → IsValid w.session
    → HasIds w.session
    → IsValid (handler d op w p).0.session
unfolding handler
handler-IsValid d Opcode.alloc w p v ids = alloc-IsValid d w v ids p
handler-IsValid d Opcode.alloc_pitched w p v ids = alloc_pitched-IsValid d w v ids p
handler-IsValid d Opcode.free w p v ids = free-IsValid d w v p
handler-IsValid d Opcode.sync w p v ids = sync-IsValid d w v p
handler-IsValid d Opcode.h2d w p v ids = IsValid-same (handle_h2d d w p) v (h2d-session d w p)
handler-IsValid d Opcode.d2h w p v ids = IsValid-same (handle_d2h d w p) v (d2h-session d w p)
handler-IsValid d Opcode.d2d w p v ids = IsValid-same (handle_d2d d w p) v (d2d-session d w p)
handler-IsValid d Opcode.d2d_async w p v ids =
    IsValid-same (handle_d2d_async d w p) v (d2d_async-session d w p)
handler-IsValid d Opcode.memset w p v ids =
    IsValid-same (handle_memset d w p) v (memset-session d w p)
handler-IsValid d Opcode.memset_async w p v ids =
    IsValid-same (handle_memset_async d w p) v (memset_async-session d w p)
handler-IsValid d Opcode.memset_2d w p v ids =
    IsValid-same (handle_memset_2d d false w p) v (memset_2d-session d w p false)
handler-IsValid d Opcode.memset_2d_async w p v ids =
    IsValid-same (handle_memset_2d d true w p) v (memset_2d-session d w p true)
handler-IsValid d Opcode.create_stream w p v ids = create_stream-IsValid d w v ids p
handler-IsValid d Opcode.create_stream_priority w p v ids =
    create_stream_priority-IsValid d w v ids p
handler-IsValid d Opcode.stream_get_flags w p v ids =
    IsValid-same (handle_stream_scalar d false w p) v (stream_scalar-session d w p false)
handler-IsValid d Opcode.stream_get_priority w p v ids =
    IsValid-same (handle_stream_scalar d true w p) v (stream_scalar-session d w p true)
handler-IsValid d Opcode.stream_query w p v ids =
    IsValid-same (handle_stream_query d w p) v (stream_query-session d w p)
handler-IsValid d Opcode.stream_sync w p v ids =
    IsValid-same (handle_stream_sync d w p) v (stream_sync-session d w p)
handler-IsValid d Opcode.destroy_stream w p v ids = destroy_stream-IsValid d w v p
handler-IsValid d Opcode.create_event w p v ids = create_event-IsValid d w v ids p
handler-IsValid d Opcode.event_record w p v ids =
    IsValid-same (handle_event_record d w p) v (event_record-session d w p)
handler-IsValid d Opcode.event_query w p v ids =
    IsValid-same (handle_event_query d w p) v (event_query-session d w p)
handler-IsValid d Opcode.event_sync w p v ids =
    IsValid-same (handle_event_sync d w p) v (event_sync-session d w p)
handler-IsValid d Opcode.event_elapsed w p v ids =
    IsValid-same (handle_event_elapsed d w p) v (event_elapsed-session d w p)
handler-IsValid d Opcode.stream_wait_event w p v ids =
    IsValid-same (handle_stream_wait_event d w p) v (stream_wait_event-session d w p)
handler-IsValid d Opcode.destroy_event w p v ids = destroy_event-IsValid d w v p
handler-IsValid d Opcode.h2d_async_submit w p v ids = h2d_async_submit-IsValid d w v ids p
handler-IsValid d Opcode.d2h_async_submit w p v ids = d2h_async_submit-IsValid d w v ids p
handler-IsValid d Opcode.transfer_query w p v ids =
    IsValid-same (handle_transfer_query d w p) v (transfer_query-session d w p)
handler-IsValid d Opcode.transfer_wait w p v ids = transfer_wait-IsValid d w v p
handler-IsValid d Opcode.launch w p v ids =
    IsValid-same (handle_launch_generic d w p) v (launch-session d w p)
