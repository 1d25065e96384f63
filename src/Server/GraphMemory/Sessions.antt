-- ===== src/Server/GraphMemory/Sessions.antt =====
-- What retiring graph memory does to the rest of a session of server/corex_graph_runtime.inc.
use x_remote_runtime.Prelude.{
  ℕ, ◌≡◌, ◌∙◌, refl, arith, List, [], ◌∷◌, some, none, Bool, true, false, not, ◌&&◌, if◌then◌else◌,
  Bool-cases, inl, inr,
}
use x_remote_runtime.Server.Table.{Table, update}
use x_remote_runtime.Server.Backend.{Driver}
use x_remote_runtime.Server.Session.{World, ExecNode, GraphExecEntry, ServerSession, Allocation}
use x_remote_runtime.Server.GraphMemory.{
  stream_busy, hold_nodes, exec_held, release_graph_exec, retire_execs, retire_allocations,
  retire_graph_memory, graph_allocation_freed, is_mem_alloc,
}

-- A step that may be skipped.
if-session :
    (b c : Bool) (r : World × Bool) (w : World) (s : ServerSession)
    → r.0.session ≡ s
    → w.session ≡ s
    → (if b then r else (w, c)).0.session ≡ s
if-session true c r w s p q = p
if-session false c r w s p q = q

if-World :
    (b : Bool) (x y : World) (s : ServerSession)
    → x.session ≡ s
    → y.session ≡ s
    → (if b then x else y).session ≡ s
if-World true x y s p q = p
if-World false x y s p q = q

module _ (d : Driver) where
  stream_busy-session : (id : ℕ) (w : World) → (stream_busy d id w).0.session ≡ w.session
  unfolding stream_busy
  stream_busy-session id w = ground arith

  hold_nodes-session :
      (g : Bool) (ns : List ExecNode) (h : Bool) (w : World)
      → (hold_nodes d g ns h w).0.session ≡ w.session
  unfolding hold_nodes
  hold_nodes-session g [] h w = refl
  hold_nodes-session g (n ∷ ns) h w = elim (Bool-cases (is_mem_alloc n.kind)) [
    | inr other ↦ rw other (hold_nodes-session g ns h w)
    | inl alloc ↦
        rw (alloc, hold_nodes)
          (hold_nodes-session g ns _ _
            ∙ if-session (n.free_pending && not g) false (stream_busy d n.free_stream w) w w.session
                (stream_busy-session n.free_stream w) refl)
  ]

  exec_held-session :
      (g : Bool) (e : GraphExecEntry) (w : World) → (exec_held d g e w).0.session ≡ w.session
  unfolding exec_held
  exec_held-session g e w =
      let nodes = hold_nodes-session g e.nodes false w in
      if-session (e.launched && not g) false
        (stream_busy d e.last_stream (hold_nodes d g e.nodes false w).0)
        (hold_nodes d g e.nodes false w).0 w.session (stream_busy-session e.last_stream _ ∙ nodes)
        nodes

  release_graph_exec-session :
      (e : GraphExecEntry) (w : World) → (release_graph_exec e w).session ≡ w.session
  release_graph_exec-session e w = ground arith

  pub retire_execs-session :
      (g : Bool) (es : Table GraphExecEntry) (w : World)
      → (retire_execs d g es w).0.session ≡ w.session
  unfolding retire_execs
  retire_execs-session g [] w = refl
  retire_execs-session g (none ∷ es) w = retire_execs-session g es w
  retire_execs-session g (some (id, e) ∷ es) w =
      let held =
        if-session e.retired true (exec_held d g e w) w w.session (exec_held-session g e w) refl in
      retire_execs-session g es _
      ∙ if-World _ _ _ w.session held (release_graph_exec-session e _ ∙ held)

pub retire_graph_memory-session :
    (d : Driver) (g : Bool) (w : World)
    → (execs : Table GraphExecEntry) × ((retire_graph_memory d g w).session ≡ (record w.session {
      graph_execs = execs;
      allocations = retire_allocations w.session.graphs execs w.session.allocations;
    }))
unfolding retire_graph_memory
retire_graph_memory-session d g w =
    let (w', execs) = retire_execs d g w.session.graph_execs w in
    (execs, rw (retire_execs-session d g w.session.graph_execs w) refl)

-- A freed graph allocation changes the allocations by unmapping it and retiring some, and of the
-- other tables only the executables.
pub graph_allocation_freed-session :
    (d : Driver) (id stream : ℕ) (async : Bool) (w : World)
    → (execs : Table GraphExecEntry) × ((graph_allocation_freed d id stream async w).session
        ≡ (record w.session {
          graph_execs = execs;
          allocations = retire_allocations w.session.graphs execs (
              update id
                (λ (a : Allocation). record a { graph_active = false })
                w.session.allocations);
        }))
unfolding graph_allocation_freed
graph_allocation_freed-session d id stream async w = retire_graph_memory-session d (not async) _
