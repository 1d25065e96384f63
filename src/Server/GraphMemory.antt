-- ===== src/Server/GraphMemory.antt =====
-- The lifetime of graph allocations: `retire_graph_memory` and its neighbours in
-- server/corex_graph_runtime.inc.
pub mod Laws
pub mod Sessions
pub mod Owners
use x_remote_runtime.Prelude.{
  ℕ, Option, none, some, List, [], ◌∷◌, Bool, true, false, not, ◌==◌, ◌||◌, ◌&&◌, if◌then◌else◌,
}
use x_remote_runtime.Protocol.Words.{read_u64}
use x_remote_runtime.Server.Table.{Table, find, update}
use x_remote_runtime.Server.Backend.{
  BackendCall, Driver, graph_destroy, graph_exec_destroy, stream_query, succeeds,
}
use x_remote_runtime.Server.Session.{
  Allocation, ExecNode, GraphExecEntry, GraphEntry, NodeKind, mem_alloc_node, mem_free_node,
  other_node, ServerSession, World, ask, called, with_session, find_allocation_record,
  resolve_stream_id,
}

abbrev pub is_mem_alloc : NodeKind → Bool
is_mem_alloc mem_alloc_node = true
is_mem_alloc mem_free_node = false
is_mem_alloc (other_node k) = false

-- Whether an allocation is there and mapped.
abbrev pub is_active : Option Allocation → Bool
is_active none = false
is_active (some a) = a.graph_active

-- `!resolve_stream_id(s, id, &stream) && corex_backend_stream_query(stream) != CUDA_SUCCESS`
unfoldable pub stream_busy : Driver → ℕ → World → World × Bool
stream_busy d id w = elim (resolve_stream_id w.session id) [
  | none ↦ (w, false)
  | some stream ↦
      (called (stream_query stream) w, not (succeeds (ask d (stream_query stream) w).result))
]

-- Why a retired executable is still held: its nodes, with what is known so far.
unfoldable pub hold_nodes : Driver → Bool → List ExecNode → Bool → World → World × Bool
unfolding stream_busy
hold_nodes d gpu_done [] hold w = (w, hold)
hold_nodes d gpu_done (n ∷ ns) hold w =
    if not (is_mem_alloc n.kind)
    then hold_nodes d gpu_done ns hold w
    else (let held = hold || is_active (find_allocation_record w.session (read_u64 n.params)) in
        let (w', busy) =
          if n.free_pending && not gpu_done then stream_busy d n.free_stream w else (w, false) in
        hold_nodes d gpu_done ns (held || busy) w')

unfoldable pub exec_held : Driver → Bool → GraphExecEntry → World → World × Bool
unfolding hold_nodes
exec_held d gpu_done e w =
    let (w', hold) = hold_nodes d gpu_done e.nodes false w in
    let (w'', busy) =
      if e.launched && not gpu_done then stream_busy d e.last_stream w' else (w', false) in
    (w'', hold || busy)

-- The driver calls of `release_graph_exec`; the entry itself is zeroed by its caller below.
abbrev pub release_graph_exec : GraphExecEntry → World → World
release_graph_exec e w =
    let w' = called (graph_exec_destroy e.exec) w in
    if e.definition == 0 then w' else called (graph_destroy e.definition) w'

-- The loop over the executables.
unfoldable pub retire_execs :
    Driver → Bool → Table GraphExecEntry → World → World × Table GraphExecEntry
unfolding exec_held
retire_execs d gpu_done [] w = (w, [])
retire_execs d gpu_done (none ∷ es) w =
    let (w', rest) = retire_execs d gpu_done es w in (w', none ∷ rest)
retire_execs d gpu_done (some (id, e) ∷ es) w =
    let (w1, hold) = if e.retired then exec_held d gpu_done e w else (w, true) in
    let w2 = if hold then w1 else release_graph_exec e w1 in
    let (w3, rest) = retire_execs d gpu_done es w2 in
    (w3, (if hold then some (id, e) else none) ∷ rest)

-- Whether a node of the executable allocates the id.
unfoldable pub allocates : ℕ → List ExecNode → Bool
allocates id [] = false
allocates id (n ∷ ns) = (is_mem_alloc n.kind && read_u64 n.params == id) || allocates id ns

unfoldable pub exec_owns : ℕ → Table GraphExecEntry → Bool
unfolding allocates
exec_owns id [] = false
exec_owns id (none ∷ es) = exec_owns id es
exec_owns id (some (i, e) ∷ es) = (not e.retired && allocates id e.nodes) || exec_owns id es

abbrev pub is_found {ℓ} : {A : Type ℓ} → Option A → Bool
is_found none = false
is_found (some a) = true

unfoldable pub keeps_allocation : Table GraphEntry → Table GraphExecEntry → ℕ → Allocation → Bool
unfolding exec_owns
keeps_allocation graphs execs id a =
    a.graph_id == 0 || a.graph_active || is_found (find a.graph_id graphs) || exec_owns id execs

-- The loop over the allocations.
unfoldable pub retire_allocations :
    Table GraphEntry → Table GraphExecEntry → Table Allocation → Table Allocation
unfolding keeps_allocation
retire_allocations graphs execs [] = []
retire_allocations graphs execs (none ∷ t) = none ∷ retire_allocations graphs execs t
retire_allocations graphs execs (some (id, a) ∷ t) =
    (if keeps_allocation graphs execs id a then some (id, a) else none)
    ∷ retire_allocations graphs execs t

unfoldable pub retire_graph_memory : Driver → Bool → World → World
unfolding retire_execs retire_allocations
retire_graph_memory d gpu_done w =
    let (w', execs) = retire_execs d gpu_done w.session.graph_execs w in
    with_session w' (record w'.session {
      graph_execs = execs;
      allocations = retire_allocations w'.session.graphs execs w'.session.allocations;
    })

-- The nodes that allocate the id remember on which stream it was freed.
unfoldable pub mark_freed : ℕ → ℕ → Bool → List ExecNode → List ExecNode
mark_freed id stream async [] = []
mark_freed id stream async (n ∷ ns) =
    (if is_mem_alloc n.kind && read_u64 n.params == id
      then record n { free_pending = async; free_stream = stream }
      else n)
    ∷ mark_freed id stream async ns

unfoldable pub mark_execs : ℕ → ℕ → Bool → Table GraphExecEntry → Table GraphExecEntry
unfolding mark_freed
mark_execs id stream async [] = []
mark_execs id stream async (none ∷ es) = none ∷ mark_execs id stream async es
mark_execs id stream async (some (i, e) ∷ es) =
    some (i, record e { nodes = mark_freed id stream async e.nodes })
    ∷ mark_execs id stream async es

unfoldable pub graph_allocation_freed : Driver → ℕ → ℕ → Bool → World → World
unfolding mark_execs
graph_allocation_freed d id stream async w =
    let s = w.session in
    let s' = record s {
      allocations = update id (λ a. record a { graph_active = false }) s.allocations;
      graph_execs = mark_execs id stream async s.graph_execs;
    } in
    retire_graph_memory d (not async) (with_session w s')
