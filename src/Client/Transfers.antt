-- ===== src/Client/Transfers.antt =====
-- The pending transfers of src/corex_remote_cuda.c: an asynchronous copy stays in a table of the client
-- until it is consumed, which is when a download reaches the host. A slot that is not live is `none`: the
-- code zeroes it. A pointer to a slot is its place. The loops that drain the table run on fuel.
pub mod Oldest
pub mod Waits
pub mod Settled
pub mod Drains
use x_remote_runtime.Prelude.{
  ℕ, zero, suc, ◌+◌, ◌*◌, ◌%◌, ◌^◌, Option, none, some, List, [], ◌∷◌, ◌++◌, Bool, true, false, not,
  ◌==◌, ◌&&◌, ltb, leb, if◌then◌else◌, length, take, drop,
}
use x_remote_runtime.Launch.{CudaError, cuda_success, error_memory_allocation, error_unknown}
use x_remote_runtime.Client.Rpc.{map_last_rpc_error}
use x_remote_runtime.Client.Calls.{
  Wire, words, remote_sync, remote_stream_sync, remote_transfer_query, remote_transfer_wait,
}

pub data HiddenTransferKind : Type 0 where
  h2d d2h h2d_2d d2h_2d h2d_3d d2h_3d : HiddenTransferKind

pub record HiddenTransfer : Type 0 where
  pub session_generation : ℕ
  pub transfer_id : ℕ
  pub kind : HiddenTransferKind
  pub allocation_id : ℕ
  pub origin_stream_slot : ℕ
  pub origin_stream_seq : ℕ
  pub submit_order : ℕ
  pub host_dst : ℕ
  pub bytes : ℕ
  pub host_pitch : ℕ
  pub width : ℕ
  pub height : ℕ
  pub depth : ℕ
  pub host_slice_pitch : ℕ

abbrev pub Slots : Type 0
Slots = List (Option HiddenTransfer)

-- Writes to the host, an address and the bytes there, in order.
abbrev pub Writes : Type 0
Writes = List (ℕ × List ℕ)

unfoldable pub find_free_hidden_transfer : Slots → Option ℕ
find_free_hidden_transfer [] = none
find_free_hidden_transfer (none ∷ slots) = some 0
find_free_hidden_transfer (some t ∷ slots) = elim (find_free_hidden_transfer slots) [
  | none ↦ none
  | some i ↦ some (suc i)
]

unfoldable pub live_hidden_transfer_count : Slots → ℕ
live_hidden_transfer_count [] = 0
live_hidden_transfer_count (none ∷ slots) = live_hidden_transfer_count slots
live_hidden_transfer_count (some t ∷ slots) = suc (live_hidden_transfer_count slots)

-- A frontier has a cell for each stream slot, and one more for the default stream.
unfoldable pub frontier_at : ℕ → List ℕ → Option ℕ
frontier_at i [] = none
frontier_at zero (seq ∷ frontier) = some seq
frontier_at (suc i) (seq ∷ frontier) = frontier_at i frontier

unfoldable pub transfer_covered_by_frontier : List ℕ → HiddenTransfer → Bool
transfer_covered_by_frontier frontier t = elim (frontier_at t.origin_stream_slot frontier) [
  | none ↦ false
  | some seq ↦ leb t.origin_stream_seq seq
]

-- The transfers that the loops look for: all, those of an allocation, or those that a frontier covers.
abbrev pub every : HiddenTransfer → Bool
every t = true

abbrev pub of_allocation : ℕ → HiddenTransfer → Bool
of_allocation id t = t.allocation_id == id

abbrev pub older : HiddenTransfer → Option (ℕ × HiddenTransfer) → Option (ℕ × HiddenTransfer)
older t none = some (0, t)
older t (some (i, best)) =
    if ltb best.submit_order t.submit_order then some (suc i, best) else some (0, t)

abbrev pub shift : Option (ℕ × HiddenTransfer) → Option (ℕ × HiddenTransfer)
shift none = none
shift (some (i, best)) = some (suc i, best)

module _ (test : HiddenTransfer → Bool) where
  -- Of the slots that match, the first with the least submission order.
  unfoldable pub oldest_matching_transfer : Slots → Option (ℕ × HiddenTransfer)
  oldest_matching_transfer [] = none
  oldest_matching_transfer (none ∷ slots) = shift (oldest_matching_transfer slots)
  oldest_matching_transfer (some t ∷ slots) =
      let later = oldest_matching_transfer slots in if test t then older t later else shift later

-- `memset(t, 0, sizeof(*t));`
unfoldable pub clear_slot : ℕ → Slots → Slots
clear_slot i [] = []
clear_slot zero (slot ∷ slots) = none ∷ slots
clear_slot (suc i) (slot ∷ slots) = slot ∷ clear_slot i slots

-- The rows of one slice from row `y` on, and the slices from slice `z` on.
unfoldable pub row_writes : HiddenTransfer → List ℕ → ℕ → ℕ → ℕ → Writes
row_writes t flat z y zero = []
row_writes t flat z y (suc rows) =
    (
      t.host_dst + z * t.host_slice_pitch + y * t.host_pitch,
      take t.width (drop ((z * t.height + y) * t.width) flat),
    )
    ∷ row_writes t flat z (suc y) rows

unfoldable pub slice_writes : HiddenTransfer → List ℕ → ℕ → ℕ → Writes
slice_writes t flat z zero = []
slice_writes t flat z (suc slices) =
    row_writes t flat z 0 t.height ++ slice_writes t flat (suc z) slices

-- The bytes that the wait is to answer, and where they go.
unfoldable pub expected_bytes : HiddenTransfer → ℕ
expected_bytes t = elim t.kind [
  | d2h ↦ t.bytes % 2 ^ 32
  | d2h_2d ↦ t.bytes % 2 ^ 32
  | d2h_3d ↦ t.bytes % 2 ^ 32
  | _ ↦ 0
]

unfoldable pub host_writes : HiddenTransfer → List ℕ → Writes
host_writes t bytes = elim t.kind [
  | d2h ↦ (t.host_dst, bytes) ∷ []
  | d2h_2d ↦ slice_writes t bytes 0 1
  | d2h_3d ↦ slice_writes t bytes 0 t.depth
  | _ ↦ []
]

-- The table and the peer's state afterwards, the transfers that were consumed, each with the bytes that
-- came for it, in order, and the error, if there is one.
pub record Drained (S : Type 0) : Type 0 where
  pub slots : Slots
  pub peer : S
  pub consumed : List (HiddenTransfer × List ℕ)
  pub error : Option CudaError

unfoldable pub all_writes : List (HiddenTransfer × List ℕ) → Writes
all_writes [] = []
all_writes ((t, bytes) ∷ rest) = host_writes t bytes ++ all_writes rest

module _ {S : Type 0} (wire : Wire S) where
  -- The reply of the wait and the state after it. The failure of malloc is not modelled.
  unfoldable pub consume_hidden_transfer : HiddenTransfer → S → S × Option (List ℕ)
  consume_hidden_transfer t s = remote_transfer_wait wire t.transfer_id (expected_bytes t) s

  abbrev pub wait_error : HiddenTransfer → S → CudaError
  wait_error t s = map_last_rpc_error (wire 25 (words (t.transfer_id ∷ [])) s).1 error_unknown

  module _ (test : HiddenTransfer → Bool) where
    unfoldable pub drain_blocking : ℕ → Slots → S → Drained S
    drain_blocking zero slots s = record {
      slots = slots;
      peer = s;
      consumed = [];
      error = some error_unknown;
    }
    drain_blocking (suc fuel) slots s = elim (oldest_matching_transfer test slots) [
      | none ↦ record { slots = slots; peer = s; consumed = []; error = none }
      | some (i, t) ↦
          (let r = consume_hidden_transfer t s in
            elim r.1 [
              | none ↦ record {
                slots = slots;
                peer = r.0;
                consumed = [];
                error = some (wait_error t s);
              }
              | some bytes ↦
                  (let rest = drain_blocking fuel (clear_slot i slots) r.0 in
                    record rest { consumed = (t, bytes) ∷ rest.consumed })
            ])
    ]

  -- A round consumes a live transfer, so that many rounds and one more are enough.
  abbrev pub drain : (HiddenTransfer → Bool) → Slots → S → Drained S
  drain test slots s = drain_blocking test (suc (live_hidden_transfer_count slots)) slots s

  unfoldable pub drain_all_transfers_blocking : Slots → S → Drained S
  drain_all_transfers_blocking slots s = drain every slots s

  unfoldable pub drain_allocation_transfers_blocking : ℕ → Slots → S → Drained S
  drain_allocation_transfers_blocking id slots s = drain (of_allocation id) slots s

  unfoldable pub drain_frontier_blocking : List ℕ → Slots → S → Drained S
  drain_frontier_blocking frontier slots s = drain (transfer_covered_by_frontier frontier) slots s

  -- The queries of the covered transfers: the peer's state, and whether all are ready, or an error.
  unfoldable pub query_covered : List ℕ → Slots → S → S × CudaError × Bool
  query_covered frontier [] s = (s, cuda_success, true)
  query_covered frontier (none ∷ slots) s = query_covered frontier slots s
  query_covered frontier (some t ∷ slots) s =
      let skip = query_covered frontier slots s in
      let r = remote_transfer_query wire t.transfer_id s in
      let next = query_covered frontier slots r.0 in
      if not (transfer_covered_by_frontier frontier t) then skip else elim r.1 [
        | none ↦
            (r.0, map_last_rpc_error (wire 24 (words (t.transfer_id ∷ [])) s).1 error_unknown, true)
        | some state ↦
            (if state == 1
              then (r.0, cuda_success, false)
              else if not (state == 0)
              then (r.0, error_unknown, true)
              else next)
      ]

  -- Nothing is consumed unless every covered transfer is ready. The last part says whether all are.
  unfoldable pub drain_frontier_if_ready : List ℕ → Slots → S → Drained S × Bool
  drain_frontier_if_ready frontier slots s =
      let (s', error, ready) = query_covered frontier slots s in
      let nothing : Option CudaError → Drained S =
        λ e. record { slots = slots; peer = s'; consumed = []; error = e } in
      elim error [
        | cuda_success ↦
            if ready
            then (drain_frontier_blocking frontier slots s', true)
            else (nothing none, false)
        | e ↦ (nothing (some e), ready)
      ]

  unfoldable pub cuda_device_synchronize : Slots → S → Drained S
  cuda_device_synchronize slots s =
      let r = remote_sync wire s in
      elim r.1 [
        | none ↦ record {
          slots = slots;
          peer = r.0;
          consumed = [];
          error = some (map_last_rpc_error (wire 4 [] s).1 error_unknown);
        }
        | some _ ↦ drain_all_transfers_blocking slots r.0
      ]

  -- A stream of the program, by its id on the server and its frontier.
  unfoldable pub cuda_stream_synchronize : ℕ → List ℕ → Slots → S → Drained S
  cuda_stream_synchronize stream_id frontier slots s =
      let r = remote_stream_sync wire stream_id s in
      elim r.1 [
        | none ↦ record {
          slots = slots;
          peer = r.0;
          consumed = [];
          error = some (map_last_rpc_error (wire 15 (words (stream_id ∷ [])) s).1 error_unknown);
        }
        | some _ ↦ drain_frontier_blocking frontier slots r.0
      ]

unfoldable pub frontier_merge : List ℕ → List ℕ → List ℕ
frontier_merge [] src = []
frontier_merge (d ∷ dst) [] = d ∷ dst
frontier_merge (d ∷ dst) (s ∷ src) = (if ltb d s then s else d) ∷ frontier_merge dst src
