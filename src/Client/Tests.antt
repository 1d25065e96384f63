-- ===== src/Client/Tests.antt =====
-- Calls of src/corex_remote_cuda.c on a small session.
mod Launches
use x_remote_runtime.Prelude.{
  ◌≡◌, ℕ, refl, arith, List, [], ◌∷◌, ◌++◌, some, none, false, ◌+◌, ◌^◌, ◌↔◌, true, inl,
  if◌then◌else◌, ◌==◌,
}
use x_remote_runtime.Protocol.Words.{write_u64, read_u64}
use x_remote_runtime.Server.Backend.{copy_h2d, mem_alloc, memset_d8, succeeds}
use x_remote_runtime.Server.Table.{find, new_slot, update}
use x_remote_runtime.Server.Session.{
  ok, server_session_init, find_allocation, find_allocation_record, Allocation, blank_allocation,
  ask, called, World,
}
use x_remote_runtime.Server.Memory.Alloc.{handle_alloc, alloc_in_slot}
use x_remote_runtime.Server.Handlers.{handler}
use x_remote_runtime.Server.Registry.{
  registry, lookup, g_handlers, generated_apis, generated_schema_error,
}
use x_remote_runtime.Server.Dispatch.{Serving, serve_entry, run_entry, dispatch, serve_session}
use x_remote_runtime.Server.Tests.{driver, start, start-IsValid, with_allocation}
use x_remote_runtime.Server.Tests.Sessions.{backend, serving}
use x_remote_runtime.Client.Rpc.{rpc_request, rpc_receive, replied}
use x_remote_runtime.Client.Rpc.Server.{rpc-serve_session}
use x_remote_runtime.Client.Calls.{remote_alloc, remote_h2d, remote_memset, as_u64}
use x_remote_runtime.Client.Calls.Direct.{direct}
use x_remote_runtime.Client.Arena.{
  Arena, VirtualAllocation, linear_allocation, resolve_remote_ptr, resolve_ok, cuda_malloc,
  cuda_free, pointer_in_remote_arena,
}
use x_remote_runtime.Client.Regions.{checked_2d_extent, cuda_memset}
use x_remote_runtime.Client.Regions.Extent.{Fits, checked_2d_extent_iff}
use x_remote_runtime.Client.Regions.Fills.{cuda_memset-fills}
use x_remote_runtime.Launch.{cuda_success}
use x_remote_runtime.Client.Arena.Regions.{IsArena, cuda_malloc-IsArena}
use x_remote_runtime.Client.Arena.Frees.{cuda_free-IsArena}
use x_remote_runtime.Client.Transfers.{HiddenTransfer, HiddenTransferKind, Slots}
use x_remote_runtime.Client.Transfers.Drains.{Drains}
use x_remote_runtime.Client.Copies.{cuda_memcpy, host_to_device}
use x_remote_runtime.Client.Copies.Uploads.{Uploaded, cuda_memcpy-uploads}
use x_remote_runtime.Client.Arena.Resolve.{Occurs, PointsInto, resolve_remote_ptr_iff}
use x_remote_runtime.Client.Calls.Direct.Memory.{
  after_call, remote_alloc-finds, remote_h2d-copies, remote_memset-fills,
}

-- The 8 bytes of 256.
abbrev size_bytes : List ℕ
size_bytes = 0 ∷ 0 ∷ 0 ∷ 0 ∷ 0 ∷ 0 ∷ 1 ∷ 0 ∷ []

abbrev first_id : List ℕ
first_id = 0 ∷ 0 ∷ 0 ∷ 0 ∷ 0 ∷ 0 ∷ 0 ∷ 1 ∷ []

abbrev with_memory : Serving
with_memory = record { world = with_allocation; capture_graph = 0; capture_allow_alloc = false }

rpc-serve_session_example :
    (rpc_receive 1 5
        (serve_session 2 driver backend (rpc_request 1 5 size_bytes ++ []) serving).sent
      ≡ (replied first_id, (serve_session 1 driver backend [] with_memory).sent))
    × ((serve_session 2 driver backend (rpc_request 1 5 size_bytes ++ []) serving).state
        ≡ (serve_session 1 driver backend [] with_memory).state)
unfolding dispatch run_entry serve_entry g_handlers generated_schema_error registry lookup
    generated_apis handler handle_alloc alloc_in_slot new_slot update server_session_init read_u64
    write_u64
rpc-serve_session_example =
    rpc-serve_session driver backend 1 1 5 size_bytes [] serving with_memory
      (record { status = ok; payload = first_id }) (omega arith) (omega arith) (omega arith)
      (omega arith) (omega arith) (omega arith) refl

remote_alloc-finds_example :
    (1 ≡ server_session_init.next_alloc_id)
    × (find_allocation server_session_init 1 ≡ none)
    × ((j : ℕ)
        → find_allocation (remote_alloc (direct driver backend) 256 serving).0.world.session j ≡ (
            if 1 == j
            then some (record blank_allocation {
              ptr = (ask driver (mem_alloc 256) start).value;
              size = 256;
            })
            else find_allocation server_session_init j))
unfolding remote_alloc as_u64 direct dispatch run_entry serve_entry g_handlers
    generated_schema_error registry lookup generated_apis handler handle_alloc alloc_in_slot
    new_slot update server_session_init read_u64 write_u64
remote_alloc-finds_example =
    remote_alloc-finds driver backend serving 256 1 start-IsValid (omega arith) refl (omega arith)
      refl

abbrev pub memory : Allocation
memory = record blank_allocation { ptr = 4096; size = 256 }

-- An arena that starts at 2 ^ 40, with an allocation of 256 bytes and a free entry.
abbrev pub fresh : Arena
fresh = record { va_arena = 2 ^ 40; va_next = 0; session_generation = 1; allocs = [] }

abbrev pub allocated : VirtualAllocation
allocated = linear_allocation fresh 256 1

abbrev pub arena : Arena
arena = record fresh {
  va_next = 131072;
  allocs = allocated ∷ record allocated { live = false; allocation_id = 0 } ∷ [];
}

arena-IsArena : IsArena arena
arena-IsArena = record {
  apart = (((λ _ dead. absurd (ground (arith, dead))), tt), (tt, tt));
  inside = ((λ _. (omega arith, omega arith)), ((λ dead. absurd (ground (arith, dead))), tt));
  used = omega arith;
  top = omega arith;
}

cuda_malloc-IsArena_example : IsArena (cuda_malloc (direct driver backend) 512 arena serving).arena
cuda_malloc-IsArena_example =
    cuda_malloc-IsArena (direct driver backend) 512 arena serving arena-IsArena

-- A download of 2 bytes of the allocation, for which the server has no transfer.
abbrev pub download : HiddenTransfer
download = record {
  session_generation = 1;
  transfer_id = 7;
  kind = HiddenTransferKind.d2h;
  allocation_id = 1;
  origin_stream_slot = 0;
  origin_stream_seq = 1;
  submit_order = 1;
  host_dst = 64;
  bytes = 2;
  host_pitch = 0;
  width = 0;
  height = 0;
  depth = 0;
  host_slice_pitch = 0;
}

abbrev pub slots : Slots
slots = none ∷ some download ∷ []

cuda_free-IsArena_example :
    IsArena (cuda_free (direct driver backend) (λ _. false) (2 ^ 40) arena slots with_memory).arena
cuda_free-IsArena_example =
    cuda_free-IsArena (direct driver backend) (λ _. false) (2 ^ 40) arena slots with_memory
      arena-IsArena

resolve_remote_ptr_iff_example :
    (resolve_remote_ptr arena (2 ^ 40 + 16) 240 ≡ resolve_ok 1 16)
    ↔ ((a : VirtualAllocation) × Occurs a arena.allocs × PointsInto 1 (2 ^ 40 + 16) 240 1 16 a)
resolve_remote_ptr_iff_example = resolve_remote_ptr_iff arena (2 ^ 40 + 16) 240 1 16 arena-IsArena

checked_2d_extent_iff_example : (checked_2d_extent 16 64 48 4 256 ≡ true) ↔ Fits 16 64 48 4 256
checked_2d_extent_iff_example = checked_2d_extent_iff 16 64 48 4 256

range_PointsInto : PointsInto 1 (2 ^ 40 + 16) 240 1 16 allocated
range_PointsInto = record {
  current = refl;
  mapped = inl refl;
  place = omega arith;
  fits = omega arith;
  names = refl;
}

cuda_memset-fills_example :
    ((cuda_memset (direct driver backend) arena (2 ^ 40 + 16) 511 240 with_memory).0
      ≡ record with_memory {
        world = called (memset_d8 4112 255 240) with_memory.world;
        capture_allow_alloc = false;
      })
    × (succeeds (ask driver (memset_d8 4112 255 240) with_memory.world).result ≡ true
        → (cuda_memset (direct driver backend) arena (2 ^ 40 + 16) 511 240 with_memory).1
          ≡ cuda_success)
unfolding find_allocation find_allocation_record find handler handle_alloc alloc_in_slot new_slot
    update server_session_init read_u64 write_u64
cuda_memset-fills_example =
    cuda_memset-fills driver backend with_memory arena allocated memory (2 ^ 40 + 16) 511 240 16
      arena-IsArena (inl refl) range_PointsInto refl refl (omega arith) (omega arith) (omega arith)
      (omega arith) (omega arith)

upload_PointsInto : PointsInto 1 (2 ^ 40 + 16) 3 1 16 allocated
upload_PointsInto = record {
  current = refl;
  mapped = inl refl;
  place = omega arith;
  fits = omega arith;
  names = refl;
}

cuda_memcpy-uploads_example :
    let r =
      cuda_memcpy
        (direct driver backend)
        arena
        (2 ^ 40 + 16)
        64
        (7 ∷ 8 ∷ 9 ∷ [])
        3
        host_to_device
        with_memory in
    (r.2 ≡ cuda_success → Uploaded driver memory r.0 16 (7 ∷ 8 ∷ 9 ∷ []) with_memory)
    × (((c : ℕ) (bytes : List ℕ) (w : World)
          → succeeds (ask driver (copy_h2d c bytes) w).result ≡ true)
        → r.2 ≡ cuda_success)
unfolding find_allocation find_allocation_record find handler handle_alloc alloc_in_slot new_slot
    update server_session_init read_u64 write_u64 pointer_in_remote_arena
cuda_memcpy-uploads_example =
    cuda_memcpy-uploads driver backend with_memory arena allocated memory (2 ^ 40 + 16) 64 16
      (7 ∷ 8 ∷ 9 ∷ []) arena-IsArena (inl refl) upload_PointsInto refl refl (omega arith)
      (omega arith) (omega arith) (omega arith) (omega arith) (omega arith) refl
