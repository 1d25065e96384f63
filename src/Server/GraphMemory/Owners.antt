-- ===== src/Server/GraphMemory/Owners.antt =====
-- What keeps a graph allocation of server/corex_graph_runtime.inc when graph memory is retired: its graph,
-- or an executable that has not been retired and allocates it.
use x_remote_runtime.Prelude.{
  ℕ, ◌≡◌, ◌⊎◌, inl, inr, refl, ap, ◌∙◌, arith, List, [], ◌∷◌, some, none, Bool, true, false, not,
  ◌==◌, ◌||◌, if◌then◌else◌, Bool-cases,
}
use x_remote_runtime.Protocol.Words.{read_u64}
use x_remote_runtime.Server.Table.{Table, find, update}
use x_remote_runtime.Server.Backend.{Driver}
use x_remote_runtime.Server.Session.{
  World, with_session, ServerSession, Allocation, ExecNode, GraphEntry, GraphExecEntry,
  mem_alloc_node,
}
use x_remote_runtime.Server.GraphMemory.{
  allocates, exec_owns, exec_held, release_graph_exec, retire_execs, mark_freed, mark_execs,
  retire_allocations, keeps_allocation, retire_graph_memory, graph_allocation_freed,
}

-- One of the nodes allocates the id.
abbrev pub Allocating : ℕ → List ExecNode → Type 0
Allocating id [] = ⊥
Allocating id (n ∷ ns) = ((n.kind ≡ mem_alloc_node) × (read_u64 n.params ≡ id)) ⊎ Allocating id ns

-- The graph of the allocation is there, or an executable that is not retired allocates it.
abbrev pub IsOwned : ServerSession → ℕ → Allocation → Type 0
IsOwned s id a =
    ((g : GraphEntry) × (find a.graph_id s.graphs ≡ some g))
    ⊎ ((i : ℕ) × (e : GraphExecEntry) × (find i s.graph_execs ≡ some e)
        × (e.retired ≡ false)
        × Allocating id e.nodes)

Allocating-allocates : (id : ℕ) (ns : List ExecNode) → Allocating id ns → allocates id ns ≡ true
unfolding allocates
Allocating-allocates id [] h = elim h [ ]
Allocating-allocates id (n ∷ ns) (inl (kind, here)) = rw kind (ground (arith, here))
Allocating-allocates id (n ∷ ns) (inr later) = ground (arith, Allocating-allocates id ns later)

find-exec_owns :
    (id i : ℕ) (t : Table GraphExecEntry) (e : GraphExecEntry)
    → find i t ≡ some e
    → e.retired ≡ false
    → allocates id e.nodes ≡ true
    → exec_owns id t ≡ true
unfolding find exec_owns
find-exec_owns id i [] e found live owns = ground (arith, found)
find-exec_owns id i (none ∷ t) e found live owns = find-exec_owns id i t e found live owns
find-exec_owns id i (some (k, f) ∷ t) e found live owns = elim (Bool-cases (k == i)) [
  | inl same ↦
      let here : f ≡ e = ground (arith, found, same) in rw here (ground (arith, live, owns))
  | inr other ↦
      let behind : find i t ≡ some e = ground (arith, found, other) in
      ground (arith, find-exec_owns id i t e behind live owns)
]

allocates-mark_freed :
    (id freed stream : ℕ) (async : Bool) (ns : List ExecNode)
    → allocates id (mark_freed freed stream async ns) ≡ allocates id ns
unfolding allocates mark_freed
allocates-mark_freed id freed stream async [] = refl
allocates-mark_freed id freed stream async (n ∷ ns) =
    ground (arith, allocates-mark_freed id freed stream async ns)

exec_owns-mark_execs :
    (id freed stream : ℕ) (async : Bool) (t : Table GraphExecEntry)
    → exec_owns id (mark_execs freed stream async t) ≡ exec_owns id t
unfolding exec_owns mark_execs
exec_owns-mark_execs id freed stream async [] = refl
exec_owns-mark_execs id freed stream async (none ∷ t) = exec_owns-mark_execs id freed stream async t
exec_owns-mark_execs id freed stream async (some (i, e) ∷ t) =
    rw (allocates-mark_freed id freed stream async e.nodes)
      (rw (exec_owns-mark_execs id freed stream async t) refl)

retired_skip :
    (b : Bool) (id i : ℕ) (e : GraphExecEntry) (t : Table GraphExecEntry)
    → e.retired ≡ true
    → exec_owns id ((if b then some (i, e) else none) ∷ t) ≡ exec_owns id t
unfolding exec_owns
retired_skip true id i e t h = rw h refl
retired_skip false id i e t h = refl

-- Only a retired executable is released, and those do not own.
exec_owns-retire_execs :
    (d : Driver) (gpu_done : Bool) (id : ℕ) (t : Table GraphExecEntry) (w : World)
    → exec_owns id (retire_execs d gpu_done t w).1 ≡ exec_owns id t
unfolding exec_owns retire_execs
exec_owns-retire_execs d gpu_done id [] w = refl
exec_owns-retire_execs d gpu_done id (none ∷ t) w = exec_owns-retire_execs d gpu_done id t w
exec_owns-retire_execs d gpu_done id (some (i, e) ∷ t) w = elim (Bool-cases e.retired) [
  | inl retired ↦
      let r = if e.retired then exec_held d gpu_done e w else (w, true) in
      let w' = if r.1 then r.0 else release_graph_exec e r.0 in
      retired_skip r.1 id i e (retire_execs d gpu_done t w').1 retired
      ∙ exec_owns-retire_execs d gpu_done id t w'
      ∙ rw (retired, exec_owns) refl
  | inr live ↦
      rw (live, exec_owns)
        (ap (λ x. allocates id e.nodes || x) (exec_owns-retire_execs d gpu_done id t w))
]

-- What is looked for among the executables is the same after a freed graph allocation.
pub graph_allocation_freed-owns :
    (d : Driver) (freed stream id : ℕ) (async : Bool) (w : World)
    → exec_owns id (graph_allocation_freed d freed stream async w).session.graph_execs
      ≡ exec_owns id w.session.graph_execs
unfolding graph_allocation_freed retire_graph_memory
graph_allocation_freed-owns d freed stream id async w =
    let marked = mark_execs freed stream async w.session.graph_execs in
    let unmapped =
      update freed (λ (a : Allocation). record a { graph_active = false }) w.session.allocations in
    let w' = with_session w (record w.session { allocations = unmapped; graph_execs = marked }) in
    exec_owns-retire_execs d (not async) id marked w'
    ∙ exec_owns-mark_execs id freed stream async w.session.graph_execs

-- An owned allocation is kept, whether it is mapped or not.
pub IsOwned-keeps :
    (s : ServerSession) (execs : Table GraphExecEntry) (id : ℕ) (a : Allocation)
    → IsOwned s id a
    → exec_owns id execs ≡ exec_owns id s.graph_execs
    → keeps_allocation s.graphs execs id a ≡ true
unfolding keeps_allocation
IsOwned-keeps s execs id a (inl (g, found)) same = rw found (ground arith)
IsOwned-keeps s execs id a (inr (i, e, found, live, h)) same =
    let owns = find-exec_owns id i s.graph_execs e found live (Allocating-allocates id e.nodes h) in
    ground (arith, same, owns)

pub find-retire_kept :
    (graphs : Table GraphEntry) (execs : Table GraphExecEntry) (id : ℕ) (t : Table Allocation)
    (a : Allocation)
    → find id t ≡ some a
    → keeps_allocation graphs execs id a ≡ true
    → find id (retire_allocations graphs execs t) ≡ some a
unfolding find retire_allocations
find-retire_kept graphs execs id [] a found kept = found
find-retire_kept graphs execs id (none ∷ t) a found kept =
    find-retire_kept graphs execs id t a found kept
find-retire_kept graphs execs id (some (i, b) ∷ t) a found kept = elim (Bool-cases (i == id)) [
  | inl same ↦
      let at : i ≡ id = ground (arith, same) in
      let entry : b ≡ a = ground (arith, found, same) in
      let k : keeps_allocation graphs execs i b ≡ true = rw (at, entry) kept in
      rw (k, find) (ground (arith, found, same))
  | inr other ↦
      let behind : find id t ≡ some a = ground (arith, found, other) in
      elim (Bool-cases (keeps_allocation graphs execs i b)) [
        | inl k ↦
            rw (k, find) (ground (arith, other, find-retire_kept graphs execs id t a behind kept))
        | inr k ↦ rw (k, find) (find-retire_kept graphs execs id t a behind kept)
      ]
]
