-- ===== src/Client/Arena.antt =====
-- The virtual addresses of src/corex_remote_cuda.c: device pointers of the program are addresses in one
-- reserved arena, each allocation has a span of it, and spans are never used again. The runtime is
-- connected and captures no graph, and no transfer is pending. `mmap` has given the arena: its base is a
-- field. Dead entries stay in the table, which has a fixed number of them.
pub mod Regions
pub mod Frees
pub mod Resolve
pub mod Settles
use x_remote_runtime.Prelude.{
  ℕ, suc, ◌+◌, ◌-◌, ◌*◌, ◌/◌, ◌%◌, ◌^◌, Option, none, some, List, [], ◌∷◌, Bool, true, false, not,
  ◌==◌, ◌&&◌, ◌||◌, ltb, if◌then◌else◌, guard, ◌>>=◌, ◌>>◌, zero,
}
use Prim.Native.Nat.{bit_and}
use x_remote_runtime.Launch.{
  CudaError, cuda_success, error_invalid_value, error_memory_allocation,
  error_invalid_device_pointer, error_not_supported, error_unknown,
}
use x_remote_runtime.Server.Memory.Alloc.{size_max}
use x_remote_runtime.Client.Rpc.{map_last_rpc_error}
use x_remote_runtime.Client.Transfers.{
  HiddenTransfer, Slots, Drained, drain_allocation_transfers_blocking,
}
use x_remote_runtime.Client.Calls.{Wire, words, remote_alloc, remote_free}

abbrev pub arena_bytes : ℕ
arena_bytes = 2 ^ 36

abbrev pub va_alignment : ℕ
va_alignment = 2 ^ 16

abbrev pub guard_bytes : ℕ
guard_bytes = 2 ^ 16

pub record VirtualAllocation : Type 0 where
  pub live : Bool
  pub session_generation : ℕ
  pub virtual_base : ℕ
  pub size : ℕ
  pub allocation_id : ℕ
  pub parent_module_id : ℕ
  pub graph_id : ℕ
  pub graph_active : Bool
  pub graph_paired : Bool
  pub host_symbol : ℕ
  pub layout_kind : ℕ
  pub logical_width_bytes : ℕ
  pub logical_height : ℕ
  pub logical_depth : ℕ
  pub pitch : ℕ
  pub slice_pitch : ℕ

pub record Arena : Type 0 where
  pub va_arena : ℕ
  pub va_next : ℕ
  pub session_generation : ℕ
  pub allocs : List VirtualAllocation

-- `(value + mask) & ~mask` for the mask of a power of two.
unfoldable pub align_up_size : ℕ → ℕ → Option ℕ
align_up_size value alignment = do
  guard (not (alignment == 0))
  guard (bit_and alignment (alignment - 1) == 0)
  guard (not (ltb (size_max - (alignment - 1)) value))
  some ((value + (alignment - 1)) / alignment * alignment)

-- The entry of the first dead slot is replaced. A pointer to a slot is its place in the table.
unfoldable pub find_free_slot : List VirtualAllocation → Option ℕ
find_free_slot [] = none
find_free_slot (a ∷ allocs) =
    let later = find_free_slot allocs in if a.live then (do i ← later; some (suc i)) else some 0

unfoldable pub put_at : ℕ → VirtualAllocation → List VirtualAllocation → List VirtualAllocation
put_at i a [] = []
put_at zero a (b ∷ allocs) = a ∷ allocs
put_at (suc i) a (b ∷ allocs) = b ∷ put_at i a allocs

abbrev pub is_current : ℕ → VirtualAllocation → Bool
is_current generation a = a.live && a.session_generation == generation

unfoldable pub find_exact_live_base : ℕ → List VirtualAllocation → ℕ → Option VirtualAllocation
find_exact_live_base generation [] value = none
find_exact_live_base generation (a ∷ allocs) value =
    let later = find_exact_live_base generation allocs value in
    if is_current generation a && a.virtual_base == value then some a else later

pub data ResolveResult : Type 0 where
  resolve_ok : ℕ → ℕ → ResolveResult
  resolve_invalid resolve_oob resolve_graph_reserved : ResolveResult

-- What `resolve_remote_ptr_mode` makes of an entry whose range has the address.
unfoldable pub resolve_entry : Bool → VirtualAllocation → ℕ → ℕ → ResolveResult
resolve_entry graph_resources a value access_bytes =
    if not graph_resources && not (a.graph_id == 0) && not a.graph_active
    then resolve_graph_reserved
    else (let offset = value - a.virtual_base in
        if ltb a.size offset || ltb (a.size - offset) access_bytes
        then resolve_oob
        else if ltb 0 access_bytes && offset == a.size
        then resolve_oob
        else resolve_ok a.allocation_id offset)

-- The loop over the entries. An address is a uintptr_t of 64 bits.
unfoldable pub resolve_in : Bool → ℕ → List VirtualAllocation → ℕ → ℕ → ResolveResult
resolve_in graph_resources generation [] value access_bytes = resolve_invalid
resolve_in graph_resources generation (a ∷ allocs) value access_bytes =
    let later = resolve_in graph_resources generation allocs value access_bytes in
    if not (is_current generation a)
    then later
    else if ltb value a.virtual_base || ltb ((a.virtual_base + a.size) % 2 ^ 64) value
    then later
    else resolve_entry graph_resources a value access_bytes

unfoldable pub resolve_remote_ptr : Arena → ℕ → ℕ → ResolveResult
resolve_remote_ptr m value access_bytes =
    resolve_in false m.session_generation m.allocs value access_bytes

unfoldable pub pointer_in_remote_arena : Arena → ℕ → Bool
pointer_in_remote_arena m value =
    not (value == 0)
    && not (m.va_arena == 0)
    && not (ltb value m.va_arena)
    && ltb (value - m.va_arena) arena_bytes

-- The slot and the span for an allocation, if there is room.
unfoldable pub prepare_linear_identity : Arena → ℕ → Option (ℕ × ℕ)
prepare_linear_identity m size = do
  slot ← find_free_slot m.allocs
  aligned_size ← align_up_size size va_alignment
  guard (not (ltb (size_max - guard_bytes) aligned_size))
  let span = aligned_size + guard_bytes
  guard (not (ltb arena_bytes m.va_next || ltb (arena_bytes - m.va_next) span))
  some (slot, span)

abbrev pub linear_allocation : Arena → ℕ → ℕ → VirtualAllocation
linear_allocation m size allocation_id = record {
  live = true;
  session_generation = m.session_generation;
  virtual_base = m.va_arena + m.va_next;
  size = size;
  allocation_id = allocation_id;
  parent_module_id = 0;
  graph_id = 0;
  graph_active = false;
  graph_paired = false;
  host_symbol = 0;
  layout_kind = 0;
  logical_width_bytes = size;
  logical_height = 1;
  logical_depth = 1;
  pitch = size;
  slice_pitch = size;
}

-- The arena afterwards, and the device pointer.
unfoldable pub commit_linear_identity : Arena → ℕ → ℕ → ℕ → ℕ → Arena × ℕ
commit_linear_identity m slot size allocation_id span = (
  record m {
    allocs = put_at slot (linear_allocation m size allocation_id) m.allocs;
    va_next = m.va_next + span;
  },
  m.va_arena + m.va_next,
)

-- The result of a call: the arena, the peer's state, the error, and the pointer that is written.
pub record Result (S : Type 0) : Type 0 where
  pub arena : Arena
  pub peer : S
  pub error : CudaError
  pub ptr : ℕ

module _ {S : Type 0} (wire : Wire S) where
  unfoldable pub allocate_at : Arena → ℕ → ℕ → ℕ → S → Result S
  allocate_at m size slot span s =
      let r = remote_alloc wire size s in
      elim r.1 [
        | none ↦ record {
          arena = m;
          peer = r.0;
          error = map_last_rpc_error (wire 1 (words (size ∷ [])) s).1 error_memory_allocation;
          ptr = 0;
        }
        | some allocation_id ↦
            (let c = commit_linear_identity m slot size allocation_id span in
              record { arena = c.0; peer = r.0; error = cuda_success; ptr = c.1 })
      ]

  unfoldable pub cuda_malloc : ℕ → Arena → S → Result S
  cuda_malloc size m s =
      if size == 0
      then record { arena = m; peer = s; error = error_invalid_value; ptr = 0 }
      else elim (prepare_linear_identity m size) [
        | none ↦ record { arena = m; peer = s; error = error_memory_allocation; ptr = 0 }
        | some (slot, span) ↦ allocate_at m size slot span s
      ]

-- A write to the entry that `find_exact_live_base` returns.
unfoldable pub change_base :
    ℕ
    → (VirtualAllocation → VirtualAllocation)
    → List VirtualAllocation
    → ℕ
    → List VirtualAllocation
change_base generation f [] value = []
change_base generation f (a ∷ allocs) value =
    let later = change_base generation f allocs value in
    if is_current generation a && a.virtual_base == value then f a ∷ allocs else a ∷ later

abbrev pub tombstone : VirtualAllocation → VirtualAllocation
tombstone a = record a { live = false; allocation_id = 0 }

-- `retire_client_graph_allocations`; `owned` says whether a graph or an executable of the client still
-- names the allocation.
unfoldable pub retire_allocs :
    (VirtualAllocation → Bool) → ℕ → List VirtualAllocation → List VirtualAllocation
retire_allocs owned generation [] = []
retire_allocs owned generation (a ∷ allocs) =
    let later = retire_allocs owned generation allocs in
    if is_current generation a && not (a.graph_id == 0) && not a.graph_active && not (owned a)
    then tombstone a ∷ later
    else a ∷ later

-- What a confirmed free leaves of the entry `a` at `value`.
unfoldable pub released : (VirtualAllocation → Bool) → Arena → VirtualAllocation → ℕ → Arena
released owned m a value =
    if a.graph_id == 0
    then record m { allocs = change_base m.session_generation tombstone m.allocs value }
    else (let inactive : VirtualAllocation → VirtualAllocation =
          λ b. record b { graph_active = false } in
        record m {
          allocs =
              retire_allocs owned m.session_generation
                (change_base m.session_generation inactive m.allocs value);
        })

-- The result of a free: the arena, the pending transfers, those that were consumed, the peer's state and
-- the error.
pub record Freed (S : Type 0) : Type 0 where
  pub arena : Arena
  pub slots : Slots
  pub consumed : List (HiddenTransfer × List ℕ)
  pub peer : S
  pub error : CudaError

abbrev pub freed : {S : Type 0} → Arena → Drained S → S → CudaError → Freed S
freed m dr s e = record { arena = m; slots = dr.slots; consumed = dr.consumed; peer = s; error = e }

module _ {S : Type 0} (wire : Wire S) (owned : VirtualAllocation → Bool) where
  -- The free on the server, once the transfers of the allocation are drained.
  unfoldable pub free_drained : Arena → VirtualAllocation → ℕ → Drained S → Freed S
  free_drained m a value dr =
      let r = remote_free wire a.allocation_id dr.peer in
      elim r.1 [
        | none ↦
            freed m dr r.0
              (map_last_rpc_error (wire 6 (words (a.allocation_id ∷ [])) dr.peer).1 error_unknown)
        | some _ ↦ freed (released owned m a value) dr r.0 cuda_success
      ]

  unfoldable pub free_entry : Arena → VirtualAllocation → ℕ → Slots → S → Freed S
  free_entry m a value slots s =
      let kept : Drained S = record { slots = slots; peer = s; consumed = []; error = none } in
      let dr = drain_allocation_transfers_blocking wire a.allocation_id slots s in
      if not (a.parent_module_id == 0)
      then freed m kept s error_invalid_device_pointer
      else if not (a.graph_id == 0) && not a.graph_active
      then freed m kept s error_not_supported
      else elim dr.error [ some e ↦ freed m dr dr.peer e | none ↦ free_drained m a value dr ]

  unfoldable pub cuda_free : ℕ → Arena → Slots → S → Freed S
  cuda_free value m slots s =
      let kept : Drained S = record { slots = slots; peer = s; consumed = []; error = none } in
      if value == 0
      then freed m kept s cuda_success
      else elim (find_exact_live_base m.session_generation m.allocs value) [
        | none ↦ freed m kept s error_invalid_device_pointer
        | some a ↦ free_entry m a value slots s
      ]
