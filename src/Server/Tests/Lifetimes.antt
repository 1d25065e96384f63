-- ===== src/Server/Tests/Lifetimes.antt =====
-- Runs of the theorems on the lifetime of ids of server/runtime_server.c.
use x_remote_runtime.Prelude.{
  ℕ, ◌≡◌, refl, arith, List, [], ◌∷◌, ◌++◌, some, none, if◌then◌else◌, ◌==◌, true, false,
}
use x_remote_runtime.Protocol.Words.{read_u32, read_u64, write_u32, write_u64}
use x_remote_runtime.Server.Backend.{BackendCall}
use x_remote_runtime.Server.Table.{find, new_slot, update}
use x_remote_runtime.Server.Session.{
  World, Allocation, EventEntry, TransferEntry, find_event, h2d, d2h, server_session_init,
  find_allocation, find_allocation_record, find_stream, find_transfer, resolve_stream_id,
  empty_table, GraphEntry, blank_allocation,
}
use x_remote_runtime.Server.Events.{handle_create_event, event_in_slot, handle_destroy_event}
use x_remote_runtime.Server.Handlers.Events.{find_event-handle_destroy_event}
use x_remote_runtime.Server.Memory.Alloc.{handle_alloc, alloc_in_slot, handle_free}
use x_remote_runtime.Server.Streams.{handle_create_stream, stream_in_slot, handle_destroy_stream}
use x_remote_runtime.Server.Transfers.{
  handle_h2d_async_submit, handle_d2h_async_submit, handle_transfer_wait, submit, submit_copy,
  submit_event, submit_issue, submit_record, is_h2d,
}
use x_remote_runtime.Server.Handlers.{Opcode, handler}
use x_remote_runtime.Server.Handlers.Sessions.{IsValid, HasIds}
use x_remote_runtime.Server.Handlers.Invariant.{handler-IsValid}
use x_remote_runtime.Server.Handlers.Allocations.{unmapped_if, find_allocation-handle_free}
use x_remote_runtime.Server.GraphMemory.Owners.{IsOwned}
use x_remote_runtime.Server.Handlers.Transfers.{
  IsSubmitted, submits-IsSubmitted, find_transfer-handle_transfer_wait,
}
use x_remote_runtime.Server.Handlers.Streams.{find_stream-handle_destroy_stream}
use x_remote_runtime.Server.Tests.{
  driver, start, word, start-IsValid, start-HasIds, with_allocation, with_allocation-IsValid,
}

abbrev block : Allocation
block = record blank_allocation { ptr = 4096; size = 256 }

-- One mapped allocation of a graph, whose graph is there.
abbrev of_graph : Allocation
of_graph = record block { graph_id = 5; graph_active = true }

abbrev with_graph : World
with_graph = record start {
  session = record server_session_init {
    allocations = some (1, of_graph) ∷ empty_table Allocation 63;
    next_alloc_id = 2;
    graphs =
        some (5, record { graph = 9; owner_node_id = 0; memory_frozen = false })
        ∷ empty_table GraphEntry 127;
  };
}

with_graph-IsValid : IsValid with_graph.session
unfolding server_session_init find
with_graph-IsValid = record {
  allocations = record {
    distinct = (refl, tt);
    below = (omega arith, omega arith, tt);
    full_length = refl;
    positive = omega arith;
  };
  streams = start-IsValid.streams;
  events = start-IsValid.events;
  transfers = start-IsValid.transfers;
}

find_allocation-handle_free_example :
    (find_allocation (handle_free driver with_graph (word 1)).0.session 1 ≡ none)
    × ((b : Allocation)
        → find_allocation_record with_graph.session 1 ≡ some b
        → (b.graph_id == 0) ≡ false
        → IsOwned with_graph.session 1 b
        → find_allocation_record (handle_free driver with_graph (word 1)).0.session 1
          ≡ some (unmapped_if true b))
unfolding server_session_init write_u64 read_u64 handle_free find_allocation find_allocation_record
    find
find_allocation-handle_free_example =
    find_allocation-handle_free driver with_graph (word 1) 1 with_graph-IsValid refl

abbrev upload : List ℕ
upload = word 1 ++ word 0 ++ word 0 ++ word 2 ++ 5 ∷ 6 ∷ []

submits-IsSubmitted_example :
    IsSubmitted h2d upload with_allocation (handle_h2d_async_submit driver with_allocation upload)
    × IsSubmitted d2h upload with_allocation (handle_d2h_async_submit driver with_allocation upload)
submits-IsSubmitted_example =
    submits-IsSubmitted driver with_allocation with_allocation-IsValid upload

with_allocation-HasIds : HasIds with_allocation.session
unfolding server_session_init handler handle_alloc alloc_in_slot new_slot update write_u64 read_u64
with_allocation-HasIds = record {
  alloc = omega arith;
  stream = omega arith;
  event = omega arith;
  transfer = omega arith;
}

abbrev uploading : World
uploading = (handler driver Opcode.h2d_async_submit with_allocation upload).0

uploading-IsValid : IsValid uploading.session
uploading-IsValid =
    handler-IsValid driver Opcode.h2d_async_submit with_allocation upload with_allocation-IsValid
      with_allocation-HasIds

abbrev sent : TransferEntry
sent = record {
  kind = h2d;
  allocation_id = 1;
  stream_id = 0;
  done_event = 4096;
  host_buffer = 4096;
  bytes = 2;
}

find_transfer-handle_transfer_wait_example :
    (e : TransferEntry) × (find_transfer uploading.session 1 ≡ some e)
    × ((handle_transfer_wait driver uploading (word 1)).1.payload
        ≡ (if is_h2d e.kind then [] else 1 ∷ 2 ∷ []))
    × ((j : ℕ)
        → find_transfer (handle_transfer_wait driver uploading (word 1)).0.session j
          ≡ (if 1 == j then none else find_transfer uploading.session j))
unfolding server_session_init handler handle_alloc alloc_in_slot new_slot update write_u64 read_u64
    find_allocation find_allocation_record find resolve_stream_id handle_h2d_async_submit submit
    submit_copy submit_event submit_issue submit_record handle_transfer_wait find_transfer
find_transfer-handle_transfer_wait_example =
    find_transfer-handle_transfer_wait driver uploading uploading-IsValid (word 1) refl

abbrev flags : List ℕ
flags = write_u32 [] 1

abbrev with_stream : World
with_stream = (handler driver Opcode.create_stream start flags).0

with_stream-IsValid : IsValid with_stream.session
with_stream-IsValid =
    handler-IsValid driver Opcode.create_stream start flags start-IsValid start-HasIds

find_stream-handle_destroy_stream_example :
    (x : ℕ) × (find_stream with_stream.session 1 ≡ some x)
    × ((handle_destroy_stream driver with_stream (word 1)).0.calls
        ≡ BackendCall.stream_destroy x ∷ BackendCall.stream_sync x ∷ with_stream.calls)
    × ((j : ℕ)
        → find_stream (handle_destroy_stream driver with_stream (word 1)).0.session j
          ≡ (if 1 == j then none else find_stream with_stream.session j))
unfolding server_session_init handler handle_create_stream stream_in_slot new_slot update write_u32
    write_u64 read_u32 read_u64 handle_destroy_stream find_stream find
find_stream-handle_destroy_stream_example =
    find_stream-handle_destroy_stream driver with_stream (word 1) with_stream-IsValid refl

abbrev with_event : World
with_event = (handler driver Opcode.create_event start flags).0

with_event-IsValid : IsValid with_event.session
with_event-IsValid =
    handler-IsValid driver Opcode.create_event start flags start-IsValid start-HasIds

find_event-handle_destroy_event_example :
    (x : EventEntry) × (find_event with_event.session 1 ≡ some x)
    × ((handle_destroy_event driver with_event (word 1)).0.calls
        ≡ BackendCall.event_destroy x.event ∷ BackendCall.context_sync ∷ with_event.calls)
    × ((j : ℕ)
        → find_event (handle_destroy_event driver with_event (word 1)).0.session j
          ≡ (if 1 == j then none else find_event with_event.session j))
unfolding server_session_init handler handle_create_event event_in_slot new_slot update write_u32
    write_u64 read_u32 read_u64 handle_destroy_event find_event find
find_event-handle_destroy_event_example =
    find_event-handle_destroy_event driver with_event (word 1) with_event-IsValid refl
