-- ===== src/Client/Tests/Launches.antt =====
-- A kernel launch of the client, src/corex_remote_cuda.c, on a small session of the server.
use x_remote_runtime.Prelude.{
  ℕ, ◌≡◌, ◌≢◌, ◌⊎◌, refl, arith, Option, some, List, [], ◌∷◌, ◌++◌, true, false, if◌then◌else◌,
}
use x_remote_runtime.Launch.{Dim3, cuda_success}
use x_remote_runtime.Protocol.Words.{read_u64, write_u64, be32, be64}
use x_remote_runtime.Metadata.Module.{ArgKind, blank_arg, blank_kernel}
use x_remote_runtime.Server.Backend.{KernelParam, launch, ptr, raw, succeeds}
use x_remote_runtime.Server.Table.{find, new_slot, update}
use x_remote_runtime.Server.Session.{
  KernelEntry, World, ServerSession, ProtocolStatus, ok, cuda_error, find_kernel, find_allocation,
  find_allocation_record, resolve_stream_id, called, ask, server_session_init,
}
use x_remote_runtime.Server.Memory.Alloc.{handle_alloc, alloc_in_slot}
use x_remote_runtime.Server.Handlers.{handler}
use x_remote_runtime.Server.Launches.{
  decoded, decode_kernel_launch, DecodedKernelLaunch, handle_launch_generic, launch_call,
}
use x_remote_runtime.Server.Launches.Safety.{IsLaunch, handle_launch_generic-IsLaunch}
use x_remote_runtime.Server.Tests.{driver, with_allocation}
use x_remote_runtime.Client.Arena.{resolve_in, resolve_entry}
use x_remote_runtime.Client.Launches.{
  KernelHandle, device_ptr, by_value, abi_ready, serialized, serialize_kernel_launch,
  launch_on_stream, resolve_kernel_reference, find_kernel_handle, args_length, launch_header,
}
use x_remote_runtime.Client.Launches.RoundTrip.{Carries}
use x_remote_runtime.Client.Launches.RoundTrip.Whole.{AllCarry, decode-serialize_kernel_launch}
use x_remote_runtime.Client.Launches.Direct.{launch_on_stream-launches}
use x_remote_runtime.Server.Dispatch.{Serving}
use x_remote_runtime.Client.Calls.Direct.{direct}
use x_remote_runtime.Server.Tests.Sessions.{backend}
use x_remote_runtime.Client.Tests.{arena, memory}

-- A kernel with a pointer and a value of 4 bytes.
abbrev entry : KernelEntry
entry = record {
  module_id = 1;
  function = 77;
  name = [];
  metadata = record blank_kernel {
    args =
        record blank_arg { kind = ArgKind.global_buffer; size = 8 }
        ∷ record blank_arg { kind = ArgKind.by_value; size = 4 }
        ∷ [];
  };
  metadata_valid = true;
}

abbrev session : ServerSession
session = record with_allocation.session { kernels = some (9, entry) ∷ [] }

abbrev kernel : KernelHandle
kernel = record {
  handle = 500;
  has_cookie = true;
  session_generation = 1;
  kernel_id = 9;
  module_id = 1;
  live = true;
  is_compiler = false;
  abi_state = abi_ready;
  host_fun = 0;
  args = record { kind = device_ptr; size = 8 } ∷ record { kind = by_value; size = 4 } ∷ [];
  name = [];
}

abbrev line : ℕ → Dim3
line n = record { x = n; y = 1; z = 1 }

-- The pointer 2 ^ 40 + 16, and four bytes.
abbrev values : List (Option (List ℕ))
values = some (16 ∷ 0 ∷ 0 ∷ 0 ∷ 0 ∷ 1 ∷ 0 ∷ 0 ∷ []) ∷ some (1 ∷ 2 ∷ 3 ∷ 4 ∷ []) ∷ []

abbrev params : List KernelParam
params = ptr 4112 ∷ raw (1 ∷ 2 ∷ 3 ∷ 4 ∷ []) ∷ []

values-AllCarry : AllCarry arena session kernel.args values entry.metadata.args params
unfolding resolve_in resolve_entry find_allocation find_allocation_record find handler handle_alloc
    alloc_in_slot new_slot update server_session_init read_u64 write_u64
values-AllCarry =
    AllCarry.one_more
      (Carries.pointer 1 16 memory refl refl (omega arith) (omega arith) refl (omega arith) refl
        refl refl)
      (AllCarry.one_more
        (Carries.value refl (omega arith) (omega arith) (omega arith) refl refl refl)
        AllCarry.no_args)

decode-serialize_kernel_launch_example :
    (payload : List ℕ) × (serialize_kernel_launch false arena
        (kernel ∷ [])
        500
        (line 4)
        (line 32)
        (some values)
        0
        0
      ≡ serialized payload)
    × (decode_kernel_launch false session payload
        ≡ decoded (record {
          kernel = entry;
          stream = 0;
          grid = line 4;
          block = line 32;
          shared_mem = 0;
          params = params;
        }))
unfolding resolve_kernel_reference find_kernel_handle find_kernel find resolve_stream_id args_length
decode-serialize_kernel_launch_example =
    decode-serialize_kernel_launch arena session (kernel ∷ []) kernel entry 500 0 0 0 (line 4)
      (line 32) values params refl refl refl refl (omega arith) refl values-AllCarry
      (λ n e. ground (arith, e)) (omega arith) (omega arith) (omega arith) (omega arith)
      (omega arith)

abbrev waiting : World
waiting = record with_allocation { session = session }

-- The launch as it arrives.
abbrev request : List ℕ
request =
    launch_header 9 0 (line 4) (line 32) 0 2
    ++ (be32 1 ++ be32 16 ++ be64 1 ++ be64 16)
    ++ (be32 5 ++ be32 4 ++ 1 ∷ 2 ∷ 3 ∷ 4 ∷ [])

handle_launch_generic-IsLaunch_example :
    ((status : ProtocolStatus) × (status ≢ ok)
      × (handle_launch_generic driver waiting request
          ≡ (waiting, record { status = status; payload = [] })))
    ⊎ ((l : DecodedKernelLaunch) × IsLaunch session l
        × ((handle_launch_generic driver waiting request).0 ≡ called (launch_call l) waiting)
        × ((handle_launch_generic driver waiting request).1.status
            ≡ (if succeeds (ask driver (launch_call l) waiting).result then ok else cuda_error)))
handle_launch_generic-IsLaunch_example = handle_launch_generic-IsLaunch driver waiting request

abbrev serving : Serving
serving = record { world = waiting; capture_graph = 0; capture_allow_alloc = false }

launch_on_stream-launches_example :
    ((launch_on_stream
        (direct driver backend)
        arena
        (kernel ∷ [])
        500
        (line 4)
        (line 32)
        (some values)
        0
        0
        serving).0
      ≡ record serving {
        world = called (launch 77 (line 4) (line 32) 0 0 params) serving.world;
        capture_allow_alloc = false;
      })
    × (succeeds (ask driver (launch 77 (line 4) (line 32) 0 0 params) serving.world).result ≡ true
        → (launch_on_stream
            (direct driver backend)
            arena
            (kernel ∷ [])
            500
            (line 4)
            (line 32)
            (some values)
            0
            0
            serving).1
          ≡ cuda_success)
unfolding resolve_kernel_reference find_kernel_handle find_kernel find resolve_stream_id args_length
launch_on_stream-launches_example =
    launch_on_stream-launches driver backend serving arena (kernel ∷ []) kernel entry 500 0 0 0
      (line 4) (line 32) values params refl refl refl refl refl (omega arith) refl values-AllCarry
      (λ n e. ground (arith, e)) (omega arith) (omega arith) (omega arith) (omega arith)
      (omega arith)
