-- ===== src/Server/Handlers.antt =====
-- The registry of server/runtime_server.c (`SERVER_HANDLER_REGISTRY`), as far as the modelled
-- `serve_session` runs its handlers, and what holds of each of those. The handlers of modules are not among
-- them: they are in Server/Modules.
pub mod Refusals
pub mod Calls
pub mod Bounds
pub mod Sessions
pub mod Invariant
pub mod Allocations
pub mod Streams
pub mod Events
pub mod Overlap
pub mod Transfers
pub mod Counters
use x_remote_runtime.Prelude.{ℕ, Option, none, some, true, false}
use x_remote_runtime.Server.Backend.{Driver}
use x_remote_runtime.Server.Session.{Handler}
use x_remote_runtime.Server.Memory.Alloc.{
  handle_alloc, handle_alloc_pitched, handle_free, handle_sync,
}
use x_remote_runtime.Server.Memory.Copy.{handle_h2d, handle_d2h, handle_d2d, handle_d2d_async}
use x_remote_runtime.Server.Memory.Fill.{handle_memset, handle_memset_async, handle_memset_2d}
use x_remote_runtime.Server.Streams.{
  handle_create_stream, handle_create_stream_priority, handle_stream_scalar, handle_stream_query,
  handle_stream_sync, handle_destroy_stream,
}
use x_remote_runtime.Server.Events.{
  handle_create_event, handle_event_record, handle_event_query, handle_event_sync,
  handle_event_elapsed, handle_stream_wait_event, handle_destroy_event,
}
use x_remote_runtime.Server.Transfers.{
  handle_h2d_async_submit, handle_d2h_async_submit, handle_transfer_query, handle_transfer_wait,
}
use x_remote_runtime.Server.Launches.{handle_launch_generic}

pub data Opcode : Type 0 where
  alloc alloc_pitched free sync h2d d2h d2d d2d_async : Opcode
  memset memset_async memset_2d memset_2d_async : Opcode
  create_stream create_stream_priority stream_get_flags stream_get_priority : Opcode
  stream_query stream_sync destroy_stream : Opcode
  create_event event_record event_query event_sync event_elapsed stream_wait_event : Opcode
  destroy_event : Opcode
  h2d_async_submit d2h_async_submit transfer_query transfer_wait launch : Opcode

unfoldable pub handler : Driver → Opcode → Handler
handler d alloc = handle_alloc d
handler d alloc_pitched = handle_alloc_pitched d
handler d free = handle_free d
handler d sync = handle_sync d
handler d h2d = handle_h2d d
handler d d2h = handle_d2h d
handler d d2d = handle_d2d d
handler d d2d_async = handle_d2d_async d
handler d memset = handle_memset d
handler d memset_async = handle_memset_async d
handler d memset_2d = handle_memset_2d d false
handler d memset_2d_async = handle_memset_2d d true
handler d create_stream = handle_create_stream d
handler d create_stream_priority = handle_create_stream_priority d
handler d stream_get_flags = handle_stream_scalar d false
handler d stream_get_priority = handle_stream_scalar d true
handler d stream_query = handle_stream_query d
handler d stream_sync = handle_stream_sync d
handler d destroy_stream = handle_destroy_stream d
handler d create_event = handle_create_event d
handler d event_record = handle_event_record d
handler d event_query = handle_event_query d
handler d event_sync = handle_event_sync d
handler d event_elapsed = handle_event_elapsed d
handler d stream_wait_event = handle_stream_wait_event d
handler d destroy_event = handle_destroy_event d
handler d h2d_async_submit = handle_h2d_async_submit d
handler d d2h_async_submit = handle_d2h_async_submit d
handler d transfer_query = handle_transfer_query d
handler d transfer_wait = handle_transfer_wait d
handler d launch = handle_launch_generic d
