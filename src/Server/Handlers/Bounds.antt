-- ===== src/Server/Handlers/Bounds.antt =====
-- The memory that the handlers of server/runtime_server.c touch.
mod Copies
mod Fills
mod Frees
mod Transfers
use x_remote_runtime.Prelude.{ℕ, List, false, true}
use x_remote_runtime.Server.Backend.{Driver}
use x_remote_runtime.Server.Session.{World}
use x_remote_runtime.Server.Handlers.{Opcode, handler}
use x_remote_runtime.Server.Handlers.Calls.{RanSafely}
use Copies.{h2d-RanSafely, d2h-RanSafely, d2d-RanSafely, d2d_async-RanSafely}
use Fills.{memset-RanSafely, memset_async-RanSafely, memset_2d-RanSafely}
use Frees.{free-RanSafely}
use Transfers.{h2d_async_submit-RanSafely, d2h_async_submit-RanSafely}

-- The requests that make the driver copy, fill or free device memory.
pub data MemoryOpcode : Type 0 where
  free h2d d2h d2d d2d_async memset memset_async memset_2d memset_2d_async : MemoryOpcode
  h2d_async_submit d2h_async_submit : MemoryOpcode

abbrev pub opcode : MemoryOpcode → Opcode
opcode MemoryOpcode.free = Opcode.free
opcode MemoryOpcode.h2d = Opcode.h2d
opcode MemoryOpcode.d2h = Opcode.d2h
opcode MemoryOpcode.d2d = Opcode.d2d
opcode MemoryOpcode.d2d_async = Opcode.d2d_async
opcode MemoryOpcode.memset = Opcode.memset
opcode MemoryOpcode.memset_async = Opcode.memset_async
opcode MemoryOpcode.memset_2d = Opcode.memset_2d
opcode MemoryOpcode.memset_2d_async = Opcode.memset_2d_async
opcode MemoryOpcode.h2d_async_submit = Opcode.h2d_async_submit
opcode MemoryOpcode.d2h_async_submit = Opcode.d2h_async_submit

-- Whatever the request holds and the driver answers, each copy, fill and free that a memory handler
-- asks of the driver lies inside an allocation of its session.
pub handler-RanSafely :
    (d : Driver) (op : MemoryOpcode) (w : World) (p : List ℕ)
    → RanSafely w (handler d (opcode op) w p).0
unfolding handler
handler-RanSafely d MemoryOpcode.free w p = free-RanSafely d w p
handler-RanSafely d MemoryOpcode.h2d w p = h2d-RanSafely d w p
handler-RanSafely d MemoryOpcode.d2h w p = d2h-RanSafely d w p
handler-RanSafely d MemoryOpcode.d2d w p = d2d-RanSafely d w p
handler-RanSafely d MemoryOpcode.d2d_async w p = d2d_async-RanSafely d w p
handler-RanSafely d MemoryOpcode.memset w p = memset-RanSafely d w p
handler-RanSafely d MemoryOpcode.memset_async w p = memset_async-RanSafely d w p
handler-RanSafely d MemoryOpcode.memset_2d w p = memset_2d-RanSafely d w p false
handler-RanSafely d MemoryOpcode.memset_2d_async w p = memset_2d-RanSafely d w p true
handler-RanSafely d MemoryOpcode.h2d_async_submit w p = h2d_async_submit-RanSafely d w p
handler-RanSafely d MemoryOpcode.d2h_async_submit w p = d2h_async_submit-RanSafely d w p
