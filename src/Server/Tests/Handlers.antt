-- ===== src/Server/Tests/Handlers.antt =====
-- Runs of the theorems on all handlers of server/runtime_server.c.
use x_remote_runtime.Prelude.{ℕ, ◌≡◌, ap, inl, inr, refl, arith, List, [], ◌∷◌, ◌++◌}
use x_remote_runtime.Protocol.Words.{read_u64, write_u32, write_u64}
use x_remote_runtime.Server.Table.{find, new_slot, update}
use x_remote_runtime.Server.Session.{
  World, Allocation, server_session_init, find_allocation, find_allocation_record, blank_allocation,
}
use x_remote_runtime.Server.Memory.Alloc.{handle_alloc, alloc_in_slot, handle_free}
use x_remote_runtime.Server.Memory.Copy.{handle_d2d, overlaps, outside}
use x_remote_runtime.Server.Handlers.{Opcode, handler}
use x_remote_runtime.Server.Handlers.Sessions.{IsValid}
use x_remote_runtime.Server.Handlers.Refusals.{handler-refuses}
use x_remote_runtime.Server.Handlers.Calls.{RanSafely}
use x_remote_runtime.Server.Handlers.Bounds.{MemoryOpcode, handler-RanSafely}
use x_remote_runtime.Server.Handlers.Invariant.{handler-IsValid}
use x_remote_runtime.Server.Handlers.Overlap.{AreDisjoint, d2d-AreDisjoint}
use x_remote_runtime.Server.Tests.{
  driver, start, word, start-IsValid, start-HasIds, with_allocation,
}

handler-IsValid_example :
    IsValid (handler driver Opcode.create_stream start (write_u32 [] 1)).0.session
handler-IsValid_example =
    handler-IsValid driver Opcode.create_stream start (write_u32 [] 1) start-IsValid start-HasIds

handler-refuses_example : (handler driver Opcode.free start (word 7)).0 ≡ start
unfolding server_session_init handler handle_free find_allocation find_allocation_record find
    write_u64 read_u64
handler-refuses_example = handler-refuses driver Opcode.free start (word 7) (inr (inl refl))

handler-RanSafely_example :
    RanSafely with_allocation
      (handler driver Opcode.h2d with_allocation (word 1 ++ word 8 ++ word 2 ++ 5 ∷ 6 ∷ [])).0
handler-RanSafely_example =
    handler-RanSafely driver MemoryOpcode.h2d with_allocation
      (word 1 ++ word 8 ++ word 2 ++ 5 ∷ 6 ∷ [])

abbrev copy_request : List ℕ
copy_request = word 1 ++ word 0 ++ word 1 ++ word 100 ++ word 100

abbrev block : Allocation
block = record blank_allocation { ptr = 4096; size = 256 }

d2d-AreDisjoint_example : AreDisjoint 0 100 100
unfolding server_session_init handler handle_alloc alloc_in_slot new_slot update find_allocation
    find_allocation_record find write_u64 read_u64 handle_d2d overlaps outside
d2d-AreDisjoint_example =
    d2d-AreDisjoint driver with_allocation copy_request {a = block} refl (omega arith) refl (
      inl λ e.
        let calls : (handle_d2d driver with_allocation copy_request).0.calls
            ≡ with_allocation.calls =
          ap World.calls e in
        ground arith)
