-- ===== src/Client/Launches.antt =====
-- Kernel launches of src/corex_remote_cuda.c: the payload of a launch, from the kernel's handle and what
-- the argument pointers point to. Whether graph memory counts is an argument. The failure of malloc is not
-- modelled.
pub mod RoundTrip
pub mod Direct
use x_remote_runtime.Prelude.{
  ℕ, ◌+◌, ◌-◌, ◌^◌, Option, none, some, List, [], ◌∷◌, ◌++◌, Bool, true, false, not, ◌==◌, ◌&&◌,
  ◌||◌, ltb, if◌then◌else◌, length, take,
}
use x_remote_runtime.Protocol.Words.{write_u32, write_u64, load_u64}
use x_remote_runtime.Launch.{
  CudaError, Dim3, cuda_success, error_invalid_value, error_invalid_resource_handle,
  error_not_supported, error_unknown,
}
use x_remote_runtime.Server.Launches.{arg_remote_ptr, arg_raw_value, has_zero}
use x_remote_runtime.Client.Rpc.{map_last_rpc_error}
use x_remote_runtime.Client.Calls.{Wire, call, as_done}
use x_remote_runtime.Client.Arena.{
  Arena, ResolveResult, resolve_ok, resolve_invalid, resolve_oob, resolve_graph_reserved,
  resolve_in,
}
use x_remote_runtime.Client.Regions.{map_resolve_error}

pub data KernelArgKind : Type 0 where
  device_ptr by_value : KernelArgKind

pub record KernelArgDesc : Type 0 where
  pub kind : KernelArgKind
  pub size : ℕ

pub data AbiState : Type 0 where
  abi_unknown abi_ready abi_failed : AbiState

-- `handle` is the address of the entry itself; `args` holds its first `argc` descriptions.
pub record KernelHandle : Type 0 where
  pub handle : ℕ
  pub has_cookie : Bool
  pub session_generation : ℕ
  pub kernel_id : ℕ
  pub module_id : ℕ
  pub live : Bool
  pub is_compiler : Bool
  pub abi_state : AbiState
  pub host_fun : ℕ
  pub args : List KernelArgDesc
  pub name : List ℕ

abbrev pub is_named : ℕ → ℕ → KernelHandle → Bool
is_named generation func h =
    h.has_cookie
    && h.live
    && h.session_generation == generation
    && (h.handle == func || h.is_compiler && h.host_fun == func)

unfoldable pub find_kernel_handle : ℕ → ℕ → List KernelHandle → Option KernelHandle
find_kernel_handle generation func [] = none
find_kernel_handle generation func (h ∷ handles) =
    let later = find_kernel_handle generation func handles in
    if is_named generation func h then some h else later

unfoldable pub resolve_kernel_reference : ℕ → List KernelHandle → ℕ → Option KernelHandle
resolve_kernel_reference generation handles func =
    if func == 0 then none else find_kernel_handle generation func handles

-- An error of the call, or its payload.
pub data Serialized {ℓ} (A : Type ℓ) : Type ℓ where
  rejected : CudaError → Serialized A
  serialized : A → Serialized A

infixl 5 ◌>>=◌ ◌>>◌
abbrev pub ◌>>=◌ {ℓ κ} :
    {A : Type ℓ} {B : Type κ} → Serialized A → (A → Serialized B) → Serialized B
rejected e >>= f = rejected e
serialized a >>= f = f a

abbrev pub ◌>>◌ {ℓ} : {B : Type ℓ} → Serialized (Unit {0}) → Serialized B → Serialized B
m >> k = m >>= λ _. k

abbrev pub insist : Bool → CudaError → Serialized (Unit {0})
insist true e = serialized tt
insist false e = rejected e

abbrev pub given {ℓ} : {A : Type ℓ} → CudaError → Option A → Serialized A
given e none = rejected e
given e (some a) = serialized a

abbrev pub is_ready : AbiState → Bool
is_ready abi_ready = true
is_ready _ = false

-- The bytes of the arguments on the wire. A null pointer among `args` is refused, and so is an array
-- that is too short, which the code cannot see.
unfoldable pub args_length : List KernelArgDesc → List (Option (List ℕ)) → Serialized ℕ
args_length [] values = serialized 0
args_length (desc ∷ descs) [] = rejected error_invalid_value
args_length (desc ∷ descs) (none ∷ values) = rejected error_invalid_value
args_length (desc ∷ descs) (some bytes ∷ values) = do
  rest ← args_length descs values
  serialized (elim desc.kind [ device_ptr ↦ 24 | by_value ↦ 8 + desc.size ] + rest)

-- The device pointer is the first 8 bytes in the order of the host.
unfoldable pub write_device_ptr : Bool → Arena → List ℕ → Serialized (List ℕ)
write_device_ptr graph_resources m bytes =
    elim (resolve_in graph_resources m.session_generation m.allocs (load_u64 bytes) 1) [
      | resolve_ok allocation_id offset ↦
          serialized (
            write_u64 (write_u64 (write_u32 (write_u32 [] arg_remote_ptr) 16) allocation_id) offset)
      | resolve_invalid ↦ rejected (map_resolve_error resolve_invalid)
      | resolve_oob ↦ rejected (map_resolve_error resolve_oob)
      | resolve_graph_reserved ↦ rejected (map_resolve_error resolve_graph_reserved)
    ]

unfoldable pub write_arg : Bool → Arena → KernelArgDesc → List ℕ → Serialized (List ℕ)
write_arg graph_resources m desc bytes = elim desc.kind [
  | device_ptr ↦ write_device_ptr graph_resources m bytes
  | by_value ↦ serialized (write_u32 (write_u32 [] arg_raw_value) desc.size ++ take desc.size bytes)
]

unfoldable pub write_args :
    Bool → Arena → List KernelArgDesc → List (Option (List ℕ)) → Serialized (List ℕ)
write_args graph_resources m [] values = serialized []
write_args graph_resources m (desc ∷ descs) [] = rejected error_invalid_value
write_args graph_resources m (desc ∷ descs) (none ∷ values) = rejected error_invalid_value
write_args graph_resources m (desc ∷ descs) (some bytes ∷ values) = do
  piece ← write_arg graph_resources m desc bytes
  pieces ← write_args graph_resources m descs values
  serialized (piece ++ pieces)

abbrev pub write_dim3 : List ℕ → Dim3 → List ℕ
write_dim3 out v = write_u32 (write_u32 (write_u32 out v.x) v.y) v.z

unfoldable pub launch_header : ℕ → ℕ → Dim3 → Dim3 → ℕ → ℕ → List ℕ
launch_header kernel_id stream_id grid block shared_mem argc =
    write_u32
      (write_u32 (write_dim3 (write_dim3 (write_u64 (write_u64 [] kernel_id) stream_id) grid) block)
        shared_mem)
      argc

abbrev pub args_of : Option (List (Option (List ℕ))) → List (Option (List ℕ))
args_of none = []
args_of (some values) = values

unfoldable pub serialize_kernel_launch :
    Bool
    → Arena
    → List KernelHandle
    → ℕ
    → Dim3
    → Dim3
    → Option (List (Option (List ℕ)))
    → ℕ
    → ℕ
    → Serialized (List ℕ)
serialize_kernel_launch graph_resources m handles func grid block args shared_mem stream_id = do
  kh ←
      given error_invalid_resource_handle
        (resolve_kernel_reference m.session_generation handles func)
  insist (is_ready kh.abi_state) error_not_supported
  insist (not (has_zero grid || has_zero block || ltb (2 ^ 32 - 1) shared_mem)) error_invalid_value
  total ← args_length kh.args (args_of args)
  insist (not (ltb (2 ^ 32 - 1) (48 + total))) error_invalid_value
  pieces ← write_args graph_resources m kh.args (args_of args)
  let payload =
      launch_header kh.kernel_id stream_id grid block shared_mem (length kh.args) ++ pieces
  insist (length payload == 48 + total) error_unknown
  serialized payload

-- The request of a launch, and what comes of it.
unfoldable pub launch_payload : {S : Type 0} → Wire S → List ℕ → S → S × CudaError
launch_payload wire payload s =
    let r = call wire as_done 11 payload s in
    elim r.1 [
      | none ↦ (r.0, map_last_rpc_error (wire 11 payload s).1 error_unknown)
      | some _ ↦ (r.0, cuda_success)
    ]

-- `cudaLaunchKernel` once it has the view of the stream, whose id on the server is an argument.
unfoldable pub launch_on_stream :
    {S : Type 0}
    → Wire S
    → Arena
    → List KernelHandle
    → ℕ
    → Dim3
    → Dim3
    → Option (List (Option (List ℕ)))
    → ℕ
    → ℕ
    → S
    → S × CudaError
launch_on_stream wire m handles func grid block args shared_mem stream_id s =
    elim (serialize_kernel_launch false m handles func grid block args shared_mem stream_id) [
      | rejected e ↦ (s, e)
      | serialized payload ↦ launch_payload wire payload s
    ]
