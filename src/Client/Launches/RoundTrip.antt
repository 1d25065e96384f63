-- ===== src/Client/Launches/RoundTrip.antt =====
-- What the client serializes for a kernel launch, src/corex_remote_cuda.c, and what the server decodes of
-- it, server/runtime_server.c: one argument.
pub mod Whole
use x_remote_runtime.Prelude.{
  ℕ, ◌+◌, ◌^◌, ◌≤◌, ◌<◌, ◌≡◌, refl, arith, Option, none, some, List, [], ◌∷◌, ◌++◌, Bool, true,
  false, not, ◌==◌, ltb, if◌then◌else◌, length, take, drop, length-append, length-take, take-append,
  drop-append,
}
use x_remote_runtime.Protocol.Words.{
  IsU32, IsU64, be32, be64, read_u32, read_u64, write_u32, write_u64, load_u64, write_u32-be32,
  write_u64-be64, read_u32-be32, read_u64-be64,
}
use x_remote_runtime.Metadata.Module.{ArgMeta, ArgKind, global_buffer}
use x_remote_runtime.Server.Backend.{KernelParam, ptr, raw}
use x_remote_runtime.Server.Session.{ServerSession, Allocation, find_allocation, add_u64}
use x_remote_runtime.Server.Launches.{
  decoded, decode_arg, read_param, read_remote_ptr, has_wire_size, wire_arg_payload_size,
  wire_arg_abi_size, wire_arg_expected_meta_kind, fits_metadata, same_known_kind,
}
use x_remote_runtime.Client.Arena.{Arena, resolve_ok, resolve_in}
use x_remote_runtime.Client.Launches.{
  KernelArgDesc, device_ptr, by_value, serialized, write_arg, write_device_ptr,
}

module _ (m : Arena) (s : ServerSession) where
  -- The client's argument, its description on both sides, and the parameter that the driver should get.
  pub data Carries (desc : KernelArgDesc) (bytes : List ℕ) (meta : ArgMeta) (param : KernelParam)
      : Type 0 where
    pointer :
        (id offset : ℕ) (a : Allocation)
        → desc.kind ≡ device_ptr
        → resolve_in false m.session_generation m.allocs (load_u64 bytes) 1 ≡ resolve_ok id offset
        → IsU64 id
        → IsU64 offset
        → find_allocation s id ≡ some a
        → offset < a.size
        → meta.kind ≡ global_buffer
        → meta.size ≡ 8
        → param ≡ ptr (add_u64 a.ptr offset)
        → Carries desc bytes meta param
    value :
        desc.kind ≡ by_value
        → 0 < desc.size
        → IsU32 desc.size
        → desc.size ≤ length bytes
        → meta.kind ≡ ArgKind.by_value
        → meta.size ≡ desc.size
        → param ≡ raw (take desc.size bytes)
        → Carries desc bytes meta param

abbrev pointer_piece : ℕ → ℕ → List ℕ
pointer_piece id offset = be32 1 ++ (be32 16 ++ (be64 id ++ be64 offset))

abbrev value_piece : List ℕ → List ℕ
value_piece bytes = be32 5 ++ (be32 (length bytes) ++ bytes)

write-pointer :
    (id offset : ℕ)
    → IsU64 id
    → IsU64 offset
    → write_u64 (write_u64 (write_u32 (write_u32 [] 1) 16) id) offset ≡ pointer_piece id offset
write-pointer id offset i o =
    rw
      (
        write_u32-be32 [] 1 (omega arith),
        write_u32-be32 (be32 1) 16 (omega arith),
        write_u64-be64 (be32 1 ++ be32 16) id i,
        write_u64-be64 ((be32 1 ++ be32 16) ++ be64 id) offset o,
      )
      refl

write-value :
    (size : ℕ) (bytes : List ℕ)
    → IsU32 size
    → write_u32 (write_u32 [] 5) size ++ bytes ≡ be32 5 ++ (be32 size ++ bytes)
write-value size bytes n =
    rw (write_u32-be32 [] 5 (omega arith), write_u32-be32 (be32 5) size n) refl

module _ (s : ServerSession) (meta : ArgMeta) where
  decode-pointer :
      (id offset : ℕ) (a : Allocation) (rest : List ℕ)
      → IsU64 id
      → IsU64 offset
      → find_allocation s id ≡ some a
      → offset < a.size
      → meta.kind ≡ global_buffer
      → meta.size ≡ 8
      → decode_arg false s meta (pointer_piece id offset ++ rest)
        ≡ decoded (ptr (add_u64 a.ptr offset), rest)
  unfolding decode_arg read_param read_remote_ptr has_wire_size wire_arg_payload_size
      wire_arg_abi_size wire_arg_expected_meta_kind fits_metadata same_known_kind
  decode-pointer id offset a rest i o found inside kind size =
      let first = read_u32-be32 1 (be32 16 ++ (be64 id ++ (be64 offset ++ rest))) (omega arith) in
      let second = read_u32-be32 16 (be64 id ++ (be64 offset ++ rest)) (omega arith) in
      let third = read_u64-be64 id (be64 offset) i in
      let fourth = read_u64-be64 offset [] o in ground (arith, first, second, third, fourth)

  decode-value :
      (bytes rest : List ℕ)
      → 0 < length bytes
      → IsU32 (length bytes)
      → meta.kind ≡ ArgKind.by_value
      → meta.size ≡ length bytes
      → decode_arg false s meta (value_piece bytes ++ rest) ≡ decoded (raw bytes, rest)
  unfolding decode_arg read_param has_wire_size wire_arg_payload_size wire_arg_abi_size
      wire_arg_expected_meta_kind fits_metadata same_known_kind
  decode-value bytes rest some_bytes n kind size =
      let first = read_u32-be32 5 (be32 (length bytes) ++ (bytes ++ rest)) (omega arith) in
      let second = read_u32-be32 (length bytes) (bytes ++ rest) n in
      let front = take-append bytes rest in
      let back = drop-append bytes rest in
      ground (arith, first, second, front, back, length-append bytes rest)

abbrev pub arg_length : KernelArgDesc → ℕ
arg_length desc = elim desc.kind [ device_ptr ↦ 24 | by_value ↦ 8 + desc.size ]

module _ (m : Arena) (s : ServerSession) where
  -- One argument is written as a piece of the announced length, and read back from its front.
  abbrev pub Written :
      (desc : KernelArgDesc) (bytes : List ℕ) (meta : ArgMeta) (param : KernelParam) → Type 0
  Written desc bytes meta param =
      (piece : List ℕ) × (write_arg false m desc bytes ≡ serialized piece)
      × (length piece ≡ arg_length desc)
      × ((rest : List ℕ) → decode_arg false s meta (piece ++ rest) ≡ decoded (param, rest))

  write_arg-pointer :
      (desc : KernelArgDesc) (bytes : List ℕ) (id offset : ℕ)
      → desc.kind ≡ device_ptr
      → resolve_in false m.session_generation m.allocs (load_u64 bytes) 1 ≡ resolve_ok id offset
      → IsU64 id
      → IsU64 offset
      → write_arg false m desc bytes ≡ serialized (pointer_piece id offset)
  unfolding write_arg write_device_ptr
  write_arg-pointer desc bytes id offset k r i o = ground (arith, k, r, write-pointer id offset i o)

  write_arg-value :
      (desc : KernelArgDesc) (bytes : List ℕ)
      → desc.kind ≡ by_value
      → IsU32 desc.size
      → desc.size ≤ length bytes
      → write_arg false m desc bytes ≡ serialized (value_piece (take desc.size bytes))
  unfolding write_arg
  write_arg-value desc bytes k u enough =
      let size = length-take desc.size bytes in
      ground (arith, k, size, write-value desc.size (take desc.size bytes) u)

  pub write_arg-Written :
      (desc : KernelArgDesc) (bytes : List ℕ) (meta : ArgMeta) (param : KernelParam)
      → Carries m s desc bytes meta param
      → Written desc bytes meta param
  write_arg-Written desc bytes meta param (Carries.pointer id offset a k r i o f h mk ms e) = (
    pointer_piece id offset,
    write_arg-pointer desc bytes id offset k r i o,
    rw k refl,
    λ rest. rw e (decode-pointer s meta id offset a rest i o f h mk ms),
  )
  write_arg-Written desc bytes meta param (Carries.value k n u enough mk ms e) =
      let size : length (take desc.size bytes) ≡ desc.size =
        omega (arith, length-take desc.size bytes) in
      (
        value_piece (take desc.size bytes),
        write_arg-value desc bytes k u enough,
        rw k (omega (arith, size)),
        λ rest. rw e (
            decode-value s meta (take desc.size bytes) rest (omega (arith, size))
              (omega (arith, size)) mk (omega (arith, size))),
      )
