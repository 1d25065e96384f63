-- ===== src/Server/Handlers/Invariant/Frees.antt =====
-- `handle_free` and `handle_sync` of server/runtime_server.c and the invariant of the session.
use x_remote_runtime.Prelude.{
  ℕ, ◌≡◌, ◌⊎◌, ◌∙◌, inl, inr, arith, List, some, true, false, ◌==◌, Bool-cases,
}
use x_remote_runtime.Protocol.Words.{read_u64}
use x_remote_runtime.Server.Backend.{Driver, context_sync, mem_free}
use x_remote_runtime.Server.Table.{Table}
use x_remote_runtime.Server.Session.{
  World, ServerSession, Allocation, GraphExecEntry, find_allocation, called, max_allocs,
}
use x_remote_runtime.Server.GraphMemory.{retire_allocations, retire_graph_memory}
use x_remote_runtime.Server.GraphMemory.Laws.{
  length-retire_allocations, retire_allocations-IsDistinct, retire_allocations-IsBelow,
}
use x_remote_runtime.Server.GraphMemory.Sessions.{
  graph_allocation_freed-session, retire_graph_memory-session,
}
use x_remote_runtime.Server.Memory.Alloc.{forget_allocation, handle_free, handle_sync}
use x_remote_runtime.Server.Handlers.Sessions.{
  IsTable, IsValid, IsValidAfter, IsValid-found, remove-IsTable, update-IsTable,
  with_allocations-IsValid,
}

module _ {s : ServerSession} (v : IsValid s) (execs : Table GraphExecEntry) where
  retired-IsValid :
      {t : Table Allocation}
      → IsTable max_allocs s.next_alloc_id t
      → IsValid
          (record s { graph_execs = execs; allocations = retire_allocations s.graphs execs t })
  retired-IsValid {t} h = record {
    allocations = record {
      distinct = retire_allocations-IsDistinct s.graphs execs t h.distinct;
      below = retire_allocations-IsBelow s.graphs execs s.next_alloc_id t h.below;
      full_length = length-retire_allocations s.graphs execs t ∙ h.full_length;
      positive = h.positive;
    };
    streams = v.streams;
    events = v.events;
    transfers = v.transfers;
  }

module _ (d : Driver) (w : World) (v : IsValid w.session) where
  pub forget_allocation-IsValid :
      (id : ℕ) (a : Allocation) → IsValid (forget_allocation d id a w).session
  unfolding forget_allocation
  forget_allocation-IsValid id a = elim (Bool-cases (a.graph_id == 0)) [
    | inl plain ↦
        rw plain
          (with_allocations-IsValid v (remove-IsTable w.session.allocations v.allocations id))
    | inr mapped ↦
        (let (execs, e) = graph_allocation_freed-session d id 0 false w in
          rw (mapped, e)
            (retired-IsValid v execs (update-IsTable w.session.allocations v.allocations id _)))
  ]

  sync_cases :
      (p : List ℕ)
      → ((handle_sync d w p).0.session ≡ w.session)
        ⊎ ((handle_sync d w p).0 ≡ retire_graph_memory d true (called context_sync w))
  unfolding handle_sync
  sync_cases p = ground arith

  pub sync-IsValid : (p : List ℕ) → IsValidAfter (handle_sync d w p)
  sync-IsValid p = elim (sync_cases p) [
    | inl q ↦ rw q v
    | inr q ↦
        (let (execs, e) = retire_graph_memory-session d true (called context_sync w) in
          rw (q, e) (retired-IsValid v execs v.allocations))
  ]

module _ (d : Driver) (w : World) where
  pub free_cases :
      (p : List ℕ) (a : Allocation)
      → find_allocation w.session (read_u64 p) ≡ some a
      → ((handle_free d w p).0.session ≡ w.session)
        ⊎ ((handle_free d w p).0
            ≡ forget_allocation d (read_u64 p) a (called (mem_free a.ptr) (called context_sync w)))
  unfolding handle_free
  free_cases p a e = ground arith

  pub free-IsValid : IsValid w.session → (p : List ℕ) → IsValidAfter (handle_free d w p)
  unfolding handle_free
  free-IsValid v p =
      IsValid-found (handle_free d w p) (find_allocation w.session (read_u64 p)) v
        (λ e. ground arith)
        λ a e. elim (free_cases p a e) [
          | inl q ↦ rw q v
          | inr q ↦ rw q (
              forget_allocation-IsValid d (called (mem_free a.ptr) (called context_sync w)) v
                (read_u64 p) a)
        ]
