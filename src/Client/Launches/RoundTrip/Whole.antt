-- ===== src/Client/Launches/RoundTrip/Whole.antt =====
-- A whole launch, serialized by src/corex_remote_cuda.c and decoded by server/runtime_server.c.
use x_remote_runtime.Prelude.{
  ℕ, ◌+◌, ◌^◌, ◌≤◌, ◌<◌, ◌≡◌, refl, sym, ap, ◌∙◌, arith, Option, some, List, [], ◌∷◌, ◌++◌, true,
  false, length, length-append,
}
use mathlib.Core.List.{append_assoc, append-nil}
use x_remote_runtime.Protocol.Words.{
  IsU32, IsU64, be32, be64, write_u32-be32, write_u64-be64, read_u32-be32, read_u64-be64,
}
use x_remote_runtime.Launch.{Dim3}
use x_remote_runtime.Metadata.Module.{ArgMeta}
use x_remote_runtime.Server.Backend.{KernelParam}
use x_remote_runtime.Server.Session.{ServerSession, KernelEntry, find_kernel, resolve_stream_id}
use x_remote_runtime.Server.Launches.{decoded, decode_args, decode_kernel_launch, has_zero}
use x_remote_runtime.Client.Arena.{Arena}
use x_remote_runtime.Client.Launches.{
  KernelArgDesc, KernelHandle, serialized, write_args, args_length, launch_header,
  serialize_kernel_launch, resolve_kernel_reference, abi_ready,
}
use x_remote_runtime.Client.Launches.RoundTrip.{Carries, write_arg-Written}

-- Every argument of the launch carries over, in order.
pub data AllCarry (m : Arena) (s : ServerSession)
    : List KernelArgDesc → List (Option (List ℕ)) → List ArgMeta → List KernelParam → Type 0 where
  no_args : AllCarry m s [] [] [] []
  one_more :
      {desc : KernelArgDesc} {bytes : List ℕ} {meta : ArgMeta} {param : KernelParam}
      {descs : List KernelArgDesc} {values : List (Option (List ℕ))} {metas : List ArgMeta}
      {params : List KernelParam}
      → Carries m s desc bytes meta param
      → AllCarry m s descs values metas params
      → AllCarry m s (desc ∷ descs) (some bytes ∷ values) (meta ∷ metas) (param ∷ params)

abbrev WrittenAll :
    (m : Arena) (s : ServerSession)
    → List KernelArgDesc
    → List (Option (List ℕ))
    → List ArgMeta
    → List KernelParam
    → Type 0
WrittenAll m s descs values metas params =
    (pieces : List ℕ) × (write_args false m descs values ≡ serialized pieces)
    × (args_length descs values ≡ serialized (length pieces))
    × ((rest : List ℕ) → decode_args false s metas (pieces ++ rest) ≡ decoded (params, rest))
    × (length metas ≡ length descs)

module _ (m : Arena) (s : ServerSession) where
  write_args-WrittenAll :
      {descs : List KernelArgDesc} {values : List (Option (List ℕ))} {metas : List ArgMeta}
      {params : List KernelParam}
      → AllCarry m s descs values metas params
      → WrittenAll m s descs values metas params
  unfolding write_args args_length decode_args
  write_args-WrittenAll no_args = ([], refl, refl, λ rest. refl, refl)
  write_args-WrittenAll
        (one_more {desc} {bytes} {meta} {param} {descs} {values} {metas} {params} c cs) =
      let (piece, written, size, read) = write_arg-Written m s desc bytes meta param c in
      let (pieces, written_all, size_all, read_all, count) = write_args-WrittenAll cs in
      (
        piece ++ pieces,
        rw (written, written_all) refl,
        rw size_all (ap (serialized) (omega (arith, size, length-append piece pieces))),
        λ rest. rw (append_assoc piece pieces rest, read, read_all) refl,
        omega (arith, count),
      )

-- Three dimensions, none of them zero, that fit 32 bits.
abbrev pub IsDim3 : Dim3 → Type 0
IsDim3 v = (0 < v.x) × IsU32 v.x × (0 < v.y) × IsU32 v.y × (0 < v.z) × IsU32 v.z

IsDim3-has_zero : (v : Dim3) → IsDim3 v → has_zero v ≡ false
IsDim3-has_zero v h = ground (arith, h)

abbrev be_dim3 : Dim3 → List ℕ
be_dim3 v = be32 v.x ++ (be32 v.y ++ be32 v.z)

abbrev header : ℕ → ℕ → Dim3 → Dim3 → ℕ → ℕ → List ℕ
header id stream_id grid block shared_mem argc =
    be64 id
    ++ (be64 stream_id ++ (be_dim3 grid ++ (be_dim3 block ++ (be32 shared_mem ++ be32 argc))))

module _ (id stream_id : ℕ) (grid block : Dim3) (shared_mem argc : ℕ) (i : IsU64 id)
    (st : IsU64 stream_id) (g : IsDim3 grid) (b : IsDim3 block) (sh : IsU32 shared_mem)
    (c : IsU32 argc) where
  launch_header_lem :
      launch_header id stream_id grid block shared_mem argc
      ≡ header id stream_id grid block shared_mem argc
  unfolding launch_header
  launch_header_lem =
      let (gx, x, gy, y, gz, z) = g in
      let (bx, x', by, y', bz, z') = b in
      rw (write_u64-be64 [] id i, write_u64-be64 (be64 id) stream_id st)
        (rw (write_u32-be32 _ grid.x x) (
          rw (write_u32-be32 _ grid.y y) (
            rw (write_u32-be32 _ grid.z z) (
              rw (write_u32-be32 _ block.x x') (
                rw (write_u32-be32 _ block.y y') (
                  rw (write_u32-be32 _ block.z z')
                    (rw (write_u32-be32 _ shared_mem sh) (rw (write_u32-be32 _ argc c) refl))))))))

module _ (m : Arena) (handles : List KernelHandle) (func : ℕ) (kh : KernelHandle) where
  -- What the client serializes.
  serialize-header :
      (stream_id shared_mem : ℕ) (grid block : Dim3) (values : List (Option (List ℕ)))
      (pieces : List ℕ)
      → resolve_kernel_reference m.session_generation handles func ≡ some kh
      → kh.abi_state ≡ abi_ready
      → write_args false m kh.args values ≡ serialized pieces
      → args_length kh.args values ≡ serialized (length pieces)
      → 48 + length pieces < 2 ^ 32
      → length kh.args ≤ 32
      → IsU64 kh.kernel_id
      → IsU64 stream_id
      → IsDim3 grid
      → IsDim3 block
      → IsU32 shared_mem
      → serialize_kernel_launch false m handles func grid block (some values) shared_mem stream_id
        ≡ serialized
            (header kh.kernel_id stream_id grid block shared_mem (length kh.args) ++ pieces)
  unfolding serialize_kernel_launch
  serialize-header stream_id shared_mem grid block values pieces known ready written size small few
        i st g b sh =
      let head =
        launch_header_lem kh.kernel_id stream_id grid block shared_mem (length kh.args) i st g b sh
          (omega arith) in
      let nonzero = IsDim3-has_zero grid g in
      let nonzero' = IsDim3-has_zero block b in ground (arith, head)

module _ (s : ServerSession) (kh : KernelHandle) (k : KernelEntry) where
  -- What the server decodes.
  decode-header :
      (stream_id stream shared_mem : ℕ) (grid block : Dim3) (params : List KernelParam)
      (pieces : List ℕ)
      → find_kernel s kh.kernel_id ≡ some k
      → k.metadata_valid ≡ true
      → length k.metadata.args ≤ 32
      → resolve_stream_id s stream_id ≡ some stream
      → decode_args false s k.metadata.args pieces ≡ decoded (params, [])
      → IsU64 kh.kernel_id
      → IsU64 stream_id
      → IsDim3 grid
      → IsDim3 block
      → IsU32 shared_mem
      → decode_kernel_launch false s
          (header kh.kernel_id stream_id grid block shared_mem (length k.metadata.args) ++ pieces)
        ≡ decoded (record {
          kernel = k;
          stream = stream;
          grid = grid;
          block = block;
          shared_mem = shared_mem;
          params = params;
        })
  unfolding decode_kernel_launch
  decode-header stream_id stream shared_mem grid block params pieces known valid few streams read i
        st g b sh =
      let (gx, x, gy, y, gz, z) = g in
      let (bx, x', by, y', bz, z') = b in
      let argc = length k.metadata.args in
      let after_shared = be32 argc ++ pieces in
      let after_block = be32 shared_mem ++ after_shared in
      let after_grid = be32 block.x ++ (be32 block.y ++ (be32 block.z ++ after_block)) in
      let after_ids = be32 grid.x ++ (be32 grid.y ++ (be32 grid.z ++ after_grid)) in
      ground (
        arith,
        read_u64-be64 kh.kernel_id (be64 stream_id ++ after_ids) i,
        read_u64-be64 stream_id after_ids st,
        read_u32-be32 grid.x (be32 grid.y ++ (be32 grid.z ++ after_grid)) x,
        read_u32-be32 grid.y (be32 grid.z ++ after_grid) y,
        read_u32-be32 grid.z after_grid z,
        read_u32-be32 block.x (be32 block.y ++ (be32 block.z ++ after_block)) x',
        read_u32-be32 block.y (be32 block.z ++ after_block) y',
        read_u32-be32 block.z after_block z',
        read_u32-be32 shared_mem after_shared sh,
        read_u32-be32 argc pieces (omega arith),
      )

-- The request of such a launch, with its length.
pub serialize_carried :
    (m : Arena) (s : ServerSession) (handles : List KernelHandle) (kh : KernelHandle)
    (k : KernelEntry) (func stream_id stream shared_mem : ℕ) (grid block : Dim3)
    (values : List (Option (List ℕ))) (params : List KernelParam)
    → resolve_kernel_reference m.session_generation handles func ≡ some kh
    → kh.abi_state ≡ abi_ready
    → find_kernel s kh.kernel_id ≡ some k
    → k.metadata_valid ≡ true
    → length k.metadata.args ≤ 32
    → resolve_stream_id s stream_id ≡ some stream
    → AllCarry m s kh.args values k.metadata.args params
    → ((n : ℕ) → args_length kh.args values ≡ serialized n → 48 + n < 2 ^ 32)
    → IsU64 kh.kernel_id
    → IsU64 stream_id
    → IsDim3 grid
    → IsDim3 block
    → IsU32 shared_mem
    → (payload : List ℕ) × (serialize_kernel_launch false m handles func grid block
          (some values)
          shared_mem
          stream_id
        ≡ serialized payload)
      × (decode_kernel_launch false s payload
          ≡ decoded (record {
            kernel = k;
            stream = stream;
            grid = grid;
            block = block;
            shared_mem = shared_mem;
            params = params;
          }))
      × ((n : ℕ) × (args_length kh.args values ≡ serialized n) × (length payload ≡ 48 + n))
serialize_carried m s handles kh k func stream_id stream shared_mem grid block values params known
      ready found valid few streams carry short i st g b sh =
    let (pieces, written, size, read, count) = write_args-WrittenAll m s carry in
    let read_all = ap (decode_args false s k.metadata.args) (sym (append-nil pieces)) ∙ read [] in
    (
      header kh.kernel_id stream_id grid block shared_mem (length kh.args) ++ pieces,
      serialize-header m handles func kh stream_id shared_mem grid block values pieces known ready
          written size (short (length pieces) size) (omega (arith, count)) i st g b sh,
      rw (← count) (
          decode-header s kh k stream_id stream shared_mem grid block params pieces found valid few
            streams read_all i st g b sh),
      (length pieces, size, omega arith),
    )

-- A launch of a ready kernel, whose arguments all carry over to the session of the server and whose
-- kernel and stream it knows, is serialized, and the server decodes it to the function, the grid, the
-- block, the shared memory and the stream of the call and, for each argument in order, the address of the
-- server's memory or the bytes that the argument holds.
pub decode-serialize_kernel_launch :
    (m : Arena) (s : ServerSession) (handles : List KernelHandle) (kh : KernelHandle)
    (k : KernelEntry) (func stream_id stream shared_mem : ℕ) (grid block : Dim3)
    (values : List (Option (List ℕ))) (params : List KernelParam)
    → resolve_kernel_reference m.session_generation handles func ≡ some kh
    → kh.abi_state ≡ abi_ready
    → find_kernel s kh.kernel_id ≡ some k
    → k.metadata_valid ≡ true
    → length k.metadata.args ≤ 32
    → resolve_stream_id s stream_id ≡ some stream
    → AllCarry m s kh.args values k.metadata.args params
    → ((n : ℕ) → args_length kh.args values ≡ serialized n → 48 + n < 2 ^ 32)
    → IsU64 kh.kernel_id
    → IsU64 stream_id
    → IsDim3 grid
    → IsDim3 block
    → IsU32 shared_mem
    → (payload : List ℕ) × (serialize_kernel_launch false m handles func grid block
          (some values)
          shared_mem
          stream_id
        ≡ serialized payload)
      × (decode_kernel_launch false s payload
          ≡ decoded (record {
            kernel = k;
            stream = stream;
            grid = grid;
            block = block;
            shared_mem = shared_mem;
            params = params;
          }))
decode-serialize_kernel_launch m s handles kh k func stream_id stream shared_mem grid block values
      params known ready found valid few streams carry short i st g b sh =
    let (payload, sent, read, _) =
      serialize_carried m s handles kh k func stream_id stream shared_mem grid block values params
        known ready found valid few streams carry short i st g b sh in
    (payload, sent, read)
