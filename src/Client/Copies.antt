-- ===== src/Client/Copies.antt =====
-- `cudaMemcpy` of src/corex_remote_cuda.c while no capture is on: copies between the host and the
-- addresses of the arena go to the server in chunks. The bytes at `src` on the host are an argument, and
-- what is written at `dst` on the host is part of the result.
pub mod Uploads
use x_remote_runtime.Prelude.{
  ℕ, zero, suc, ◌+◌, ◌-◌, ◌*◌, ◌^◌, Option, none, some, List, [], ◌∷◌, ◌++◌, Bool, true, false, not,
  ◌==◌, ◌&&◌, ◌||◌, ltb, if◌then◌else◌, length, take, drop, min,
}
use x_remote_runtime.Launch.{
  CudaError, cuda_success, error_invalid_value, error_invalid_memcpy_direction, error_unknown,
}
use x_remote_runtime.Client.Rpc.{map_last_rpc_error}
use x_remote_runtime.Client.Calls.{Wire, words, remote_h2d, remote_d2h, remote_d2d}
use x_remote_runtime.Client.Arena.{
  Arena, ResolveResult, resolve_ok, resolve_invalid, resolve_oob, resolve_graph_reserved,
  resolve_remote_ptr, pointer_in_remote_arena,
}
use x_remote_runtime.Client.Regions.{map_resolve_error}

pub data MemcpyKind : Type 0 where
  host_to_host host_to_device device_to_host device_to_device default_kind other_kind : MemcpyKind

abbrev pub copy_chunk : ℕ
copy_chunk = 16 * 1024 * 1024

-- The peer's state, the bytes written on the host in order, and the error, if there is one.
pub record Copied (S : Type 0) : Type 0 where
  pub peer : S
  pub written : List ℕ
  pub error : Option CudaError

abbrev pub finish : {S : Type 0} → Copied S → S × List ℕ × CudaError
finish r = (r.peer, r.written, elim r.error [ none ↦ cuda_success | some e ↦ e ])

abbrev pub stop : {S : Type 0} → S → CudaError → S × List ℕ × CudaError
stop s e = (s, [], e)

-- The direction of `cudaMemcpyDefault`.
unfoldable pub direction : Arena → ℕ → ℕ → MemcpyKind → MemcpyKind
direction m dst src default_kind =
    if pointer_in_remote_arena m dst
    then (if pointer_in_remote_arena m src then device_to_device else host_to_device)
    else (if pointer_in_remote_arena m src then device_to_host else host_to_host)
direction m dst src kind = kind

module _ {S : Type 0} (wire : Wire S) where
  -- What `map_last_rpc_error` makes of the call that has failed.
  abbrev pub upload_error : ℕ → ℕ → List ℕ → S → CudaError
  upload_error id offset piece s =
      map_last_rpc_error (wire 2 (words (id ∷ offset ∷ length piece ∷ []) ++ piece) s).1
        error_unknown

  -- The loop of an upload: `host` is what is left of the bytes, `offset` is `remote.byte_offset + done`.
  -- The fuel is a round for each byte.
  unfoldable pub upload_chunks : ℕ → ℕ → ℕ → List ℕ → S → Copied S
  upload_chunks zero id offset host s = record {
    peer = s;
    written = [];
    error = some error_unknown;
  }
  upload_chunks (suc fuel) id offset [] s = record { peer = s; written = []; error = none }
  upload_chunks (suc fuel) id offset (x ∷ host) s =
      let piece = take copy_chunk (x ∷ host) in
      let r = remote_h2d wire id offset piece s in
      elim r.1 [
        | none ↦ record {
          peer = r.0;
          written = [];
          error = some (
              map_last_rpc_error (wire 2 (words (id ∷ offset ∷ length piece ∷ []) ++ piece) s).1
                error_unknown);
        }
        | some _ ↦ upload_chunks fuel id (offset + length piece) (drop copy_chunk (x ∷ host)) r.0
      ]

  -- The loop of a download, with `left` bytes to go.
  unfoldable pub download_chunks : ℕ → ℕ → ℕ → ℕ → S → Copied S
  download_chunks zero id offset left s = record {
    peer = s;
    written = [];
    error = some error_unknown;
  }
  download_chunks (suc fuel) id offset zero s = record { peer = s; written = []; error = none }
  download_chunks (suc fuel) id offset (suc left) s =
      let chunk = min copy_chunk (suc left) in
      let r = remote_d2h wire id offset chunk s in
      elim r.1 [
        | none ↦ record {
          peer = r.0;
          written = [];
          error =
              some
                (map_last_rpc_error (wire 5 (words (id ∷ offset ∷ chunk ∷ [])) s).1 error_unknown);
        }
        | some bytes ↦
            (let more = download_chunks fuel id (offset + chunk) (suc left - chunk) r.0 in
              record more { written = bytes ++ more.written })
      ]

  unfoldable pub move_chunks : ℕ → ℕ → ℕ → ℕ → ℕ → ℕ → S → Copied S
  move_chunks zero dst dst_offset src src_offset left s = record {
    peer = s;
    written = [];
    error = some error_unknown;
  }
  move_chunks (suc fuel) dst dst_offset src src_offset zero s = record {
    peer = s;
    written = [];
    error = none;
  }
  move_chunks (suc fuel) dst dst_offset src src_offset (suc left) s =
      let chunk = min copy_chunk (suc left) in
      let r = remote_d2d wire dst dst_offset src src_offset chunk s in
      elim r.1 [
        | none ↦ record {
          peer = r.0;
          written = [];
          error = some (
              map_last_rpc_error
                (wire 28 (words (dst ∷ dst_offset ∷ src ∷ src_offset ∷ chunk ∷ [])) s).1
                error_unknown);
        }
        | some _ ↦
            move_chunks fuel dst (dst_offset + chunk) src (src_offset + chunk) (suc left - chunk)
              r.0
      ]

  unfoldable pub copy_to_device : Arena → ℕ → ℕ → List ℕ → S → S × List ℕ × CudaError
  copy_to_device m dst src host s =
      let count = length host in
      if pointer_in_remote_arena m src
      then stop s error_invalid_value
      else elim (resolve_remote_ptr m dst count) [
        | resolve_ok id offset ↦ finish (upload_chunks (suc count) id offset host s)
        | resolve_invalid ↦ stop s (map_resolve_error resolve_invalid)
        | resolve_oob ↦ stop s (map_resolve_error resolve_oob)
        | resolve_graph_reserved ↦ stop s (map_resolve_error resolve_graph_reserved)
      ]

  unfoldable pub copy_to_host : Arena → ℕ → ℕ → ℕ → S → S × List ℕ × CudaError
  copy_to_host m dst src count s =
      if pointer_in_remote_arena m dst
      then stop s error_invalid_value
      else elim (resolve_remote_ptr m src count) [
        | resolve_ok id offset ↦ finish (download_chunks (suc count) id offset count s)
        | resolve_invalid ↦ stop s (map_resolve_error resolve_invalid)
        | resolve_oob ↦ stop s (map_resolve_error resolve_oob)
        | resolve_graph_reserved ↦ stop s (map_resolve_error resolve_graph_reserved)
      ]

  unfoldable pub copy_resolved : ResolveResult → ResolveResult → ℕ → S → S × List ℕ × CudaError
  copy_resolved (resolve_ok dst dst_offset) (resolve_ok src src_offset) count s =
      if dst == src && ltb dst_offset (src_offset + count) && ltb src_offset (dst_offset + count)
      then stop s error_invalid_value
      else finish (move_chunks (suc count) dst dst_offset src src_offset count s)
  copy_resolved (resolve_ok dst dst_offset) e count s = stop s (map_resolve_error e)
  copy_resolved e src count s = stop s (map_resolve_error e)

  unfoldable pub copy_on_device : Arena → ℕ → ℕ → ℕ → S → S × List ℕ × CudaError
  copy_on_device m dst src count s =
      if not (pointer_in_remote_arena m dst) || not (pointer_in_remote_arena m src)
      then stop s error_invalid_value
      else copy_resolved (resolve_remote_ptr m dst count) (resolve_remote_ptr m src count) count s

  -- `host` is the `count` bytes at `src`, where that is a pointer of the host.
  unfoldable pub memcpy_in : MemcpyKind → Arena → ℕ → ℕ → List ℕ → ℕ → S → S × List ℕ × CudaError
  memcpy_in host_to_device m dst src host count s = copy_to_device m dst src host s
  memcpy_in device_to_host m dst src host count s = copy_to_host m dst src count s
  memcpy_in host_to_host m dst src host count s =
      if pointer_in_remote_arena m dst || pointer_in_remote_arena m src
      then stop s error_invalid_value
      else (s, host, cuda_success)
  memcpy_in device_to_device m dst src host count s = copy_on_device m dst src count s
  memcpy_in default_kind m dst src host count s = stop s error_invalid_memcpy_direction
  memcpy_in other_kind m dst src host count s = stop s error_invalid_memcpy_direction

  unfoldable pub cuda_memcpy : Arena → ℕ → ℕ → List ℕ → ℕ → MemcpyKind → S → S × List ℕ × CudaError
  cuda_memcpy m dst src host count kind s =
      if count == 0
      then stop s cuda_success
      else if dst == 0 || src == 0
      then stop s error_invalid_value
      else memcpy_in (direction m dst src kind) m dst src host count s
