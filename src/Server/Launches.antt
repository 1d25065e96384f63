-- ===== src/Server/Launches.antt =====
-- Kernel launches of server/runtime_server.c: the arguments of a request are checked against the
-- metadata of the kernel. A buffer is read from its front: a position is what is left of the buffer.
-- The failure of malloc is not modelled. Whether graph memory counts is an argument.
pub mod Refusals
pub mod Safety
use x_remote_runtime.Prelude.{
  ℕ, ◌+◌, ◌^◌, Option, none, some, List, [], ◌∷◌, Bool, true, false, not, ◌==◌, ◌&&◌, ◌||◌, ltb,
  leb, if◌then◌else◌, length, take, drop,
}
use x_remote_runtime.Protocol.Words.{read_u32, read_u64}
use x_remote_runtime.Launch.{Dim3}
use x_remote_runtime.Metadata.Module.{
  ArgKind, ArgMeta, KernelMeta, unknown, global_buffer, by_value,
}
use x_remote_runtime.Server.Backend.{
  Driver, BackendCall, KernelParam, launch, ptr, i32, u64, f32, raw, succeeds,
}
use x_remote_runtime.Server.Session.{
  ServerSession, KernelEntry, World, Response, Handler, ProtocolStatus, ok, bad_request, not_found,
  cuda_error, abi_mismatch, metadata_error, find_kernel, find_allocation, find_allocation_record,
  resolve_stream_id, add_u64, ask, called, reply,
}

-- The status of a request that is refused, or what was read.
pub data Decoded {ℓ} (A : Type ℓ) : Type ℓ where
  refused : ProtocolStatus → Decoded A
  decoded : A → Decoded A

infixl 5 ◌>>=◌ ◌>>◌
abbrev pub ◌>>=◌ {ℓ κ} : {A : Type ℓ} {B : Type κ} → Decoded A → (A → Decoded B) → Decoded B
refused e >>= f = refused e
decoded a >>= f = f a

abbrev pub ◌>>◌ {ℓ} : {B : Type ℓ} → Decoded (Unit {0}) → Decoded B → Decoded B
m >> k = m >>= λ _. k

abbrev pub require : Bool → ProtocolStatus → Decoded (Unit {0})
require true e = decoded tt
require false e = refused e

abbrev pub find_or {ℓ} : {A : Type ℓ} → ProtocolStatus → Option A → Decoded A
find_or e none = refused e
find_or e (some a) = decoded a

abbrev pub arg_remote_ptr : ℕ
arg_remote_ptr = 1

abbrev pub arg_i32 : ℕ
arg_i32 = 2

abbrev pub arg_u64 : ℕ
arg_u64 = 3

abbrev pub arg_f32 : ℕ
arg_f32 = 4

abbrev pub arg_raw_value : ℕ
arg_raw_value = 5

abbrev pub launch_max_args : ℕ
launch_max_args = 32

unfoldable pub wire_arg_payload_size : ℕ → ℕ
wire_arg_payload_size kind =
    if kind == arg_remote_ptr
    then 16
    else if kind == arg_i32
    then 4
    else if kind == arg_u64
    then 8
    else if kind == arg_f32
    then 4
    else 0

unfoldable pub wire_arg_abi_size : ℕ → ℕ → ℕ
wire_arg_abi_size kind payload_size =
    if kind == arg_remote_ptr
    then 8
    else if kind == arg_i32
    then 4
    else if kind == arg_u64
    then 8
    else if kind == arg_f32
    then 4
    else if kind == arg_raw_value
    then payload_size
    else 0

unfoldable pub wire_arg_expected_meta_kind : ℕ → ArgKind
wire_arg_expected_meta_kind kind =
    if kind == arg_remote_ptr
    then global_buffer
    else if kind == arg_i32 || kind == arg_u64 || kind == arg_f32 || kind == arg_raw_value
    then by_value
    else unknown

-- `meta_arg->kind != expected_meta_kind`, where the expected kind is not the unknown one.
unfoldable pub same_known_kind : ArgKind → ArgKind → Bool
same_known_kind global_buffer global_buffer = true
same_known_kind by_value by_value = true
same_known_kind _ _ = false

unfoldable pub has_wire_size : ℕ → ℕ → Bool
has_wire_size kind arg_size =
    if not (kind == arg_raw_value)
    then not (wire_arg_payload_size kind == 0) && arg_size == wire_arg_payload_size kind
    else not (arg_size == 0)

unfoldable pub fits_metadata : ArgMeta → ℕ → ℕ → Bool
fits_metadata meta kind arg_size =
    same_known_kind meta.kind (wire_arg_expected_meta_kind kind)
    && meta.size == wire_arg_abi_size kind arg_size

-- The case ARG_REMOTE_PTR.
unfoldable pub read_remote_ptr : Bool → ServerSession → List ℕ → Decoded KernelParam
read_remote_ptr graph_resources s body = do
  let allocation_id = read_u64 body
  let offset = read_u64 (drop 8 body)
  a ← find_or not_found (
      if graph_resources
      then find_allocation_record s allocation_id
      else find_allocation s allocation_id)
  require (ltb offset a.size) bad_request
  decoded (ptr (add_u64 a.ptr offset))

unfoldable pub read_param : Bool → ServerSession → ℕ → List ℕ → Decoded KernelParam
read_param graph_resources s kind body =
    if kind == arg_remote_ptr
    then read_remote_ptr graph_resources s body
    else if kind == arg_i32
    then decoded (i32 (read_u32 body))
    else if kind == arg_u64
    then decoded (u64 (read_u64 body))
    else if kind == arg_f32
    then decoded (f32 (read_u32 body))
    else if kind == arg_raw_value
    then decoded (raw body)
    else refused bad_request

-- One round of the loop: the parameter, and what is left of the payload.
unfoldable pub decode_arg : Bool → ServerSession → ArgMeta → List ℕ → Decoded (KernelParam × List ℕ)
decode_arg graph_resources s meta rest = do
  require (not (ltb (length rest) 8)) bad_request
  let kind = read_u32 rest
  let arg_size = read_u32 (drop 4 rest)
  let body = drop 8 rest
  require (not (ltb (length body) arg_size)) bad_request
  require (has_wire_size kind arg_size) bad_request
  require (fits_metadata meta kind arg_size) abi_mismatch
  param ← read_param graph_resources s kind (take arg_size body)
  decoded (param, drop arg_size body)

unfoldable pub decode_args :
    Bool → ServerSession → List ArgMeta → List ℕ → Decoded (List KernelParam × List ℕ)
decode_args graph_resources s [] rest = decoded ([], rest)
decode_args graph_resources s (meta ∷ metas) rest = do
  (param, rest') ← decode_arg graph_resources s meta rest
  (params, rest'') ← decode_args graph_resources s metas rest'
  decoded (param ∷ params, rest'')

pub record DecodedKernelLaunch : Type 0 where
  pub kernel : KernelEntry
  pub stream : ℕ
  pub grid : Dim3
  pub block : Dim3
  pub shared_mem : ℕ
  pub params : List KernelParam

abbrev pub read_dim3 : List ℕ → Dim3
read_dim3 bytes = record {
  x = read_u32 bytes;
  y = read_u32 (drop 4 bytes);
  z = read_u32 (drop 8 bytes);
}

abbrev pub has_zero : Dim3 → Bool
has_zero v = v.x == 0 || v.y == 0 || v.z == 0

unfoldable pub decode_kernel_launch : Bool → ServerSession → List ℕ → Decoded DecodedKernelLaunch
decode_kernel_launch graph_resources s payload = do
  require (not (ltb (length payload) 48)) bad_request
  let argc = read_u32 (drop 44 payload)
  require (leb argc launch_max_args) bad_request
  k ← find_or not_found (find_kernel s (read_u64 payload))
  require k.metadata_valid metadata_error
  require (argc == length k.metadata.args) abi_mismatch
  stream ← find_or not_found (resolve_stream_id s (read_u64 (drop 8 payload)))
  (params, rest) ← decode_args graph_resources s k.metadata.args (drop 48 payload)
  require (length rest == 0) bad_request
  let grid = read_dim3 (drop 16 payload)
  let block = read_dim3 (drop 28 payload)
  require (not (has_zero grid || has_zero block)) bad_request
  decoded (record {
    kernel = k;
    stream = stream;
    grid = grid;
    block = block;
    shared_mem = read_u32 (drop 40 payload);
    params = params;
  })

abbrev pub launch_call : DecodedKernelLaunch → BackendCall
launch_call l = launch l.kernel.function l.grid l.block l.shared_mem l.stream l.params

unfoldable pub handle_launch_generic : Driver → Handler
handle_launch_generic d w payload = elim (decode_kernel_launch false w.session payload) [
  | refused status ↦ reply w status
  | decoded l ↦
      reply (called (launch_call l) w)
        (if succeeds (ask d (launch_call l) w).result then ok else cuda_error)
]
