-- ===== src/Client/Regions.antt =====
-- What src/corex_remote_cuda.c does with a pointer to device memory: cudaMemset while no capture is on,
-- and the test of a rectangle of a pitched allocation.
pub mod Fills
pub mod Extent
use x_remote_runtime.Prelude.{
  ℕ, ◌+◌, ◌-◌, ◌*◌, ◌/◌, ◌%◌, ◌^◌, Option, none, some, List, [], ◌∷◌, ◌++◌, Bool, true, false, not,
  ◌==◌, ◌&&◌, ◌||◌, ltb, if◌then◌else◌,
}
use x_remote_runtime.Protocol.Words.{write_u32}
use x_remote_runtime.Launch.{
  CudaError, cuda_success, error_invalid_value, error_invalid_device_pointer, error_not_supported,
  error_unknown,
}
use x_remote_runtime.Client.Rpc.{map_last_rpc_error}
use x_remote_runtime.Client.Calls.{Wire, words, remote_memset}
use x_remote_runtime.Client.Arena.{
  VirtualAllocation, Arena, is_current, ResolveResult, resolve_ok, resolve_invalid, resolve_oob,
  resolve_graph_reserved, resolve_remote_ptr,
}

unfoldable pub map_resolve_error : ResolveResult → CudaError
map_resolve_error resolve_graph_reserved = error_not_supported
map_resolve_error resolve_oob = error_invalid_value
map_resolve_error resolve_invalid = error_invalid_device_pointer
map_resolve_error (resolve_ok id offset) = error_invalid_device_pointer

module _ {S : Type 0} (wire : Wire S) where
  unfoldable pub memset_at : ℕ → ℕ → ℕ → ℕ → S → S × CudaError
  memset_at id offset value count s =
      let r = remote_memset wire id offset value count s in
      elim r.1 [
        | none ↦ (
          r.0,
          map_last_rpc_error
              (wire 29 (words (id ∷ offset ∷ []) ++ write_u32 [] value ++ words (count ∷ [])) s).1
              error_unknown,
        )
        | some _ ↦ (r.0, cuda_success)
      ]

  -- The value is the 32 bits of an int.
  unfoldable pub cuda_memset : Arena → ℕ → ℕ → ℕ → S → S × CudaError
  cuda_memset m ptr value count s =
      if count == 0
      then (s, cuda_success)
      else if ptr == 0
      then (s, error_invalid_value)
      else elim (resolve_remote_ptr m ptr count) [
        | resolve_ok id offset ↦ memset_at id offset (value % 256) count s
        | resolve_invalid ↦ (s, map_resolve_error resolve_invalid)
        | resolve_oob ↦ (s, map_resolve_error resolve_oob)
        | resolve_graph_reserved ↦ (s, map_resolve_error resolve_graph_reserved)
      ]

-- Whether the rectangle is inside. No product or sum here wraps around, since the tests before bound it.
unfoldable pub checked_2d_extent : ℕ → ℕ → ℕ → ℕ → ℕ → Bool
checked_2d_extent offset pitch width height allocation_size =
    if height == 0 || width == 0 || pitch == 0 || ltb pitch width || ltb allocation_size offset
    then false
    else if ltb ((allocation_size - offset) / pitch) (height - 1)
    then false
    else (let row = offset + (height - 1) * pitch in not (ltb (allocation_size - row) width))

-- What `resolve_remote_2d_region` makes of an entry whose range has the address.
unfoldable pub resolve_2d_entry : VirtualAllocation → ℕ → ℕ → ℕ → ℕ → ResolveResult
resolve_2d_entry a value pitch width height =
    if not (a.graph_id == 0) && not a.graph_active
    then resolve_graph_reserved
    else (let off = value - a.virtual_base in
        if not (checked_2d_extent off pitch width height a.size)
        then resolve_oob
        else resolve_ok a.allocation_id off)

unfoldable pub resolve_2d_in : ℕ → List VirtualAllocation → ℕ → ℕ → ℕ → ℕ → ResolveResult
resolve_2d_in generation [] value pitch width height = resolve_invalid
resolve_2d_in generation (a ∷ allocs) value pitch width height =
    let later = resolve_2d_in generation allocs value pitch width height in
    if not (is_current generation a)
    then later
    else if ltb value a.virtual_base || ltb a.size (value - a.virtual_base)
    then later
    else resolve_2d_entry a value pitch width height

unfoldable pub resolve_remote_2d_region : Arena → ℕ → ℕ → ℕ → ℕ → ResolveResult
resolve_remote_2d_region m value pitch width height =
    if value == 0 || width == 0 || height == 0 || pitch == 0 || ltb pitch width
    then resolve_invalid
    else resolve_2d_in m.session_generation m.allocs value pitch width height
