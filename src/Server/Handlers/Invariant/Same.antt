-- ===== src/Server/Handlers/Invariant/Same.antt =====
-- The session after the handlers of server/runtime_server.c that only ask the driver.
use x_remote_runtime.Prelude.{ℕ, List, Bool, false, ◌≡◌, refl, arith}
use x_remote_runtime.Server.Backend.{Driver}
use x_remote_runtime.Server.Session.{World}
use x_remote_runtime.Server.Memory.Copy.{handle_h2d, handle_d2h, handle_d2d, handle_d2d_async}
use x_remote_runtime.Server.Memory.Fill.{handle_memset, handle_memset_async, handle_memset_2d}
use x_remote_runtime.Server.Streams.{handle_stream_scalar, handle_stream_query, handle_stream_sync}
use x_remote_runtime.Server.Events.{
  handle_event_record, handle_event_query, handle_event_sync, handle_event_elapsed,
  handle_stream_wait_event,
}
use x_remote_runtime.Server.Transfers.{handle_transfer_query}
use x_remote_runtime.Server.Launches.{
  Decoded, refused, decoded, DecodedKernelLaunch, decode_kernel_launch, handle_launch_generic,
}

module _ (d : Driver) (w : World) (p : List ℕ) where
  pub h2d-session : (handle_h2d d w p).0.session ≡ w.session
  unfolding handle_h2d
  h2d-session = ground arith

  pub d2h-session : (handle_d2h d w p).0.session ≡ w.session
  unfolding handle_d2h
  d2h-session = ground arith

  pub d2d-session : (handle_d2d d w p).0.session ≡ w.session
  unfolding handle_d2d
  d2d-session = ground arith

  pub d2d_async-session : (handle_d2d_async d w p).0.session ≡ w.session
  unfolding handle_d2d_async
  d2d_async-session = ground arith

  pub memset-session : (handle_memset d w p).0.session ≡ w.session
  unfolding handle_memset
  memset-session = ground arith

  pub memset_async-session : (handle_memset_async d w p).0.session ≡ w.session
  unfolding handle_memset_async
  memset_async-session = ground arith

  pub memset_2d-session : (b : Bool) → (handle_memset_2d d b w p).0.session ≡ w.session
  unfolding handle_memset_2d
  memset_2d-session b = ground arith

  pub stream_scalar-session : (b : Bool) → (handle_stream_scalar d b w p).0.session ≡ w.session
  unfolding handle_stream_scalar
  stream_scalar-session b = ground arith

  pub stream_query-session : (handle_stream_query d w p).0.session ≡ w.session
  unfolding handle_stream_query
  stream_query-session = ground arith

  pub stream_sync-session : (handle_stream_sync d w p).0.session ≡ w.session
  unfolding handle_stream_sync
  stream_sync-session = ground arith

  pub event_record-session : (handle_event_record d w p).0.session ≡ w.session
  unfolding handle_event_record
  event_record-session = ground arith

  pub event_query-session : (handle_event_query d w p).0.session ≡ w.session
  unfolding handle_event_query
  event_query-session = ground arith

  pub event_sync-session : (handle_event_sync d w p).0.session ≡ w.session
  unfolding handle_event_sync
  event_sync-session = ground arith

  pub event_elapsed-session : (handle_event_elapsed d w p).0.session ≡ w.session
  unfolding handle_event_elapsed
  event_elapsed-session = ground arith

  pub stream_wait_event-session : (handle_stream_wait_event d w p).0.session ≡ w.session
  unfolding handle_stream_wait_event
  stream_wait_event-session = ground arith

  pub transfer_query-session : (handle_transfer_query d w p).0.session ≡ w.session
  unfolding handle_transfer_query
  transfer_query-session = ground arith

  pub launch-session : (handle_launch_generic d w p).0.session ≡ w.session
  unfolding handle_launch_generic
  launch-session = go (decode_kernel_launch false w.session p) refl
    where
      go :
          (r : Decoded DecodedKernelLaunch)
          → decode_kernel_launch false w.session p ≡ r
          → (handle_launch_generic d w p).0.session ≡ w.session
      go (refused status) e = rw (e, handle_launch_generic) refl
      go (decoded l) e = rw (e, handle_launch_generic) refl
