-- ===== src/Server/Handlers/Bounds/Frees.antt =====
-- The memory that `handle_free` of server/runtime_server.c frees, and the calls around it.
use x_remote_runtime.Prelude.{
  ℕ, ◌≡◌, ◌⊎◌, inl, inr, refl, arith, List, [], ◌∷◌, some, none, Bool, true, false, not, ◌&&◌,
  Bool-cases, Option-cases, ◌==◌,
}
use x_remote_runtime.Protocol.Words.{read_u64}
use x_remote_runtime.Server.Backend.{Driver, BackendCall, mem_free, context_sync}
use x_remote_runtime.Server.Table.{Table}
use x_remote_runtime.Server.Session.{
  World, ServerSession, ExecNode, GraphExecEntry, Allocation, find_allocation, resolve_stream_id,
  called,
}
use x_remote_runtime.Server.GraphMemory.{
  stream_busy, hold_nodes, exec_held, release_graph_exec, retire_execs, retire_graph_memory,
  graph_allocation_freed, is_mem_alloc,
}
use x_remote_runtime.Server.Memory.Alloc.{handle_free, forget_allocation}
use x_remote_runtime.Server.Handlers.Calls.{IsSafe, Ran, RanSafely, Ran-found}

module _ (s : ServerSession) (old : List BackendCall) (d : Driver) where
  abbrev Continues : World → Type 0
  Continues w = Ran (IsSafe s) old w.calls

  stream_busy-Continues : (id : ℕ) (w : World) → Continues w → Continues (stream_busy d id w).0
  unfolding stream_busy
  stream_busy-Continues id w h = elim (Option-cases (resolve_stream_id w.session id)) [
    | inl e ↦ rw (e, stream_busy) h
    | inr (stream, e) ↦ rw (e, stream_busy) (Ran.more tt h)
  ]

  hold_nodes-Continues :
      (gpu_done : Bool) (ns : List ExecNode) (hold : Bool) (w : World)
      → Continues w
      → Continues (hold_nodes d gpu_done ns hold w).0
  unfolding hold_nodes
  hold_nodes-Continues gpu_done [] hold w h = h
  hold_nodes-Continues gpu_done (n ∷ ns) hold w h = elim (Bool-cases (is_mem_alloc n.kind)) [
    | inr e ↦ rw e (hold_nodes-Continues gpu_done ns hold w h)
    | inl e ↦ rw e (elim (Bool-cases (n.free_pending && not gpu_done)) [
      | inl q ↦
          rw q (hold_nodes-Continues gpu_done ns _ _ (stream_busy-Continues n.free_stream w h))
      | inr q ↦ rw q (hold_nodes-Continues gpu_done ns _ w h)
    ])
  ]

  exec_held-Continues :
      (gpu_done : Bool) (e : GraphExecEntry) (w : World)
      → Continues w
      → Continues (exec_held d gpu_done e w).0
  unfolding exec_held
  exec_held-Continues gpu_done e w h = elim (Bool-cases (e.launched && not gpu_done)) [
    | inl q ↦
        rw q
          (stream_busy-Continues e.last_stream _ (hold_nodes-Continues gpu_done e.nodes false w h))
    | inr q ↦ rw q (hold_nodes-Continues gpu_done e.nodes false w h)
  ]

  release_graph_exec-Continues :
      (e : GraphExecEntry) (w : World) → Continues w → Continues (release_graph_exec e w)
  release_graph_exec-Continues e w h = elim (Bool-cases (e.definition == 0)) [
    | inl q ↦ rw q (Ran.more tt h)
    | inr q ↦ rw q (Ran.more tt (Ran.more tt h))
  ]

  retire_execs-Continues :
      (gpu_done : Bool) (es : Table GraphExecEntry) (w : World)
      → Continues w
      → Continues (retire_execs d gpu_done es w).0
  unfolding retire_execs
  retire_execs-Continues gpu_done [] w h = h
  retire_execs-Continues gpu_done (none ∷ es) w h = retire_execs-Continues gpu_done es w h
  retire_execs-Continues gpu_done (some (id, e) ∷ es) w h = elim (Bool-cases e.retired) [
    | inr q ↦ rw q (retire_execs-Continues gpu_done es w h)
    | inl q ↦
        let h' = exec_held-Continues gpu_done e w h in
        rw q (elim (Bool-cases (exec_held d gpu_done e w).1) [
          | inl r ↦ rw r (retire_execs-Continues gpu_done es _ h')
          | inr r ↦
              rw r (retire_execs-Continues gpu_done es _ (release_graph_exec-Continues e _ h'))
        ])
  ]

  retire_graph_memory-Continues :
      (gpu_done : Bool) (w : World) → Continues w → Continues (retire_graph_memory d gpu_done w)
  unfolding retire_graph_memory
  retire_graph_memory-Continues gpu_done w h =
      retire_execs-Continues gpu_done w.session.graph_execs w h

  forget_allocation-Continues :
      (id : ℕ) (a : Allocation) (w : World) → Continues w → Continues (forget_allocation d id a w)
  unfolding forget_allocation graph_allocation_freed
  forget_allocation-Continues id a w h = elim (Bool-cases (a.graph_id == 0)) [
    | inl q ↦ rw q h
    | inr q ↦ rw q (retire_graph_memory-Continues true _ h)
  ]

module _ (d : Driver) (w : World) (p : List ℕ) where
  abbrev freed : Allocation → World
  freed a = called (mem_free a.ptr) (called context_sync w)

  free_cases :
      (a : Allocation)
      → find_allocation w.session (read_u64 p) ≡ some a
      → ((handle_free d w p).0 ≡ w)
        ⊎ ((a.parent_module_id ≡ 0)
            × (((handle_free d w p).0 ≡ called context_sync w)
                ⊎ ((handle_free d w p).0 ≡ freed a)
                ⊎ ((handle_free d w p).0 ≡ forget_allocation d (read_u64 p) a (freed a))))
  unfolding handle_free
  free_cases a e = ground arith

  free_found :
      (a : Allocation)
      → find_allocation w.session (read_u64 p) ≡ some a
      → RanSafely w (handle_free d w p).0
  free_found a e = elim (free_cases a e) [
    | inl q ↦ rw q Ran.done
    | inr (own, inl q) ↦ rw q (Ran.more tt Ran.done)
    | inr (own, inr (inl q)) ↦ rw q (after_free own)
    | inr (own, inr (inr q)) ↦
        rw q (
          forget_allocation-Continues w.session w.calls d (read_u64 p) a (freed a) (after_free own))
  ]
    where
      after_free : a.parent_module_id ≡ 0 → RanSafely w (freed a)
      after_free own = Ran.more (_, a, e, refl, own) (Ran.more tt Ran.done)

  pub free-RanSafely : RanSafely w (handle_free d w p).0
  unfolding handle_free
  free-RanSafely =
      Ran-found (find_allocation w.session (read_u64 p)) (λ e. ground arith) λ a e. free_found a e
