-- ===== src/Server/Handlers/Allocations.antt =====
-- The end of an allocation id: `handle_free` of server/runtime_server.c.
pub mod Fresh
use x_remote_runtime.Prelude.{
  ℕ, ◌≡◌, ◌≢◌, ◌∙◌, ap, inl, inr, refl, arith, List, [], ◌∷◌, Option, none, some, Bool, true, false,
  ◌==◌, ◌||◌, if◌then◌else◌, ◌>>=◌, Bool-cases, Option-cases,
}
use x_remote_runtime.Protocol.Words.{read_u64, write_u64}
use x_remote_runtime.Server.Backend.{Driver, mem_alloc, mem_free, context_sync}
use x_remote_runtime.Server.Table.{Table, find, new_slot, update}
use x_remote_runtime.Server.Table.Laws.{IsDistinct, find-remove_ne, update-IsDistinct}
use x_remote_runtime.Server.Table.Slots.{find-filled, find-remove, find-update}
use x_remote_runtime.Server.Session.{
  World, ServerSession, Allocation, blank_allocation, GraphEntry, GraphExecEntry, find_allocation,
  find_allocation_record, ok, ask, called,
}
use mathlib.Core.Path.{subst, sym}
use x_remote_runtime.Server.GraphMemory.{retire_allocations, keeps_allocation, exec_owns}
use x_remote_runtime.Server.GraphMemory.Owners.{
  IsOwned, IsOwned-keeps, find-retire_kept, graph_allocation_freed-owns,
}
use x_remote_runtime.Server.GraphMemory.Sessions.{graph_allocation_freed-session}
use x_remote_runtime.Server.Memory.Alloc.{
  alloc_in_slot, handle_alloc, forget_allocation, handle_free,
}
use x_remote_runtime.Server.Handlers.Sessions.{IsValid, find_next}
use x_remote_runtime.Server.Handlers.Allocations.Fresh.{visible}

module _ (graphs : Table GraphEntry) (execs : Table GraphExecEntry) where
  hidden :
      (i : ℕ) (a : Allocation)
      → keeps_allocation graphs execs i a ≡ false
      → (a.graph_id == 0 || a.graph_active) ≡ false
  unfolding keeps_allocation
  hidden i a k = ground arith

  visible-retire_allocations :
      (j : ℕ) (t : Table Allocation)
      → IsDistinct t
      → visible (find j (retire_allocations graphs execs t)) ≡ visible (find j t)
  unfolding retire_allocations find
  visible-retire_allocations j [] h = refl
  visible-retire_allocations j (none ∷ t) h = visible-retire_allocations j t h
  visible-retire_allocations j (some (i, a) ∷ t) (fresh, h) =
      elim (Bool-cases (keeps_allocation graphs execs i a)) [
        | inl k ↦ rw (k, find) (ground (arith, visible-retire_allocations j t h))
        | inr k ↦ rw (k, find) (ground (arith, visible-retire_allocations j t h, hidden i a k))
      ]

-- An id of a graph is unmapped and its graph memory retired, as far as lookups see it.
visible-unmap :
    (id j : ℕ) (t : Table Allocation) {a : Allocation}
    → find id t ≡ some a
    → (a.graph_id == 0) ≡ false
    → visible (find j (update id (λ a. record a { graph_active = false }) t))
      ≡ (if id == j then none else visible (find j t))
visible-unmap id j t e h =
    rw (find-update id j (λ a. record a { graph_active = false }) t e) (ground arith)

-- A record, unmapped if it is the one that is freed.
abbrev pub unmapped_if : Bool → Allocation → Allocation
unmapped_if freed b = if freed then record b { graph_active = false } else b

module _ (d : Driver) where
  find_allocation-forget_allocation :
      (id j : ℕ) (w : World) {a : Allocation}
      → IsValid w.session
      → find_allocation_record w.session id ≡ some a
      → find_allocation (forget_allocation d id a w).session j
        ≡ (if id == j then none else find_allocation w.session j)
  unfolding find_allocation find_allocation_record forget_allocation
  find_allocation-forget_allocation id j w {a} v e = elim (Bool-cases (a.graph_id == 0)) [
    | inl plain ↦
        rw (plain, find-remove id j w.session.allocations v.allocations.distinct) (ground arith)
    | inr mapped ↦
        (let (execs, q) = graph_allocation_freed-session d id 0 false w in
          let t =
            update id (λ (a : Allocation). record a { graph_active = false })
              w.session.allocations in
          let distinct =
            update-IsDistinct id (λ (a : Allocation). record a { graph_active = false })
              w.session.allocations v.allocations.distinct in
          rw (mapped, q)
            (visible-retire_allocations w.session.graphs execs j t distinct
              ∙ visible-unmap id j w.session.allocations e mapped))
  ]

  unmapped_if-IsOwned :
      (s : ServerSession) (j : ℕ) (b : Allocation) (f : Bool)
      → IsOwned s j b
      → IsOwned s j (unmapped_if f b)
  unmapped_if-IsOwned s j b true h = h
  unmapped_if-IsOwned s j b false h = h

  same_record :
      (id j : ℕ) (t : Table Allocation) {a b : Allocation}
      → find id t ≡ some a
      → find j t ≡ some b
      → (id == j) ≡ true
      → a ≡ b
  same_record id j t {a} {b} freed e same =
      let at : id ≡ j = ground (arith, same) in
      let here : find j t ≡ some a = subst (λ x. find x t ≡ some a) at freed in
      ground (arith, here, e)

  find-unmapped :
      (id j : ℕ) (t : Table Allocation) {a b : Allocation}
      → find id t ≡ some a
      → find j t ≡ some b
      → find j (update id (λ (a : Allocation). record a { graph_active = false }) t)
        ≡ some (unmapped_if (id == j) b)
  find-unmapped id j t freed e =
      let updated =
        find-update id j (λ (a : Allocation). record a { graph_active = false }) t freed in
      elim (Bool-cases (id == j)) [
        | inl same ↦
            let entry = same_record id j t freed e same in
            rw (updated, same)
              (ap (λ (x : Allocation). some (record x { graph_active = false })) entry)
        | inr other ↦ rw (updated, other) e
      ]

  -- The record of a graph allocation that is still owned stays.
  record-forget_allocation :
      (id j : ℕ) (w : World) {a b : Allocation}
      → find_allocation_record w.session id ≡ some a
      → find_allocation_record w.session j ≡ some b
      → (b.graph_id == 0) ≡ false
      → IsOwned w.session j b
      → find_allocation_record (forget_allocation d id a w).session j
        ≡ some (unmapped_if (id == j) b)
  unfolding find_allocation_record forget_allocation
  record-forget_allocation id j w {a} {b} freed e of_graph owned =
      elim (Bool-cases (a.graph_id == 0)) [
        | inl plain ↦ elim (Bool-cases (id == j)) [
          | inl same ↦
              let entry = same_record id j w.session.allocations freed e same in
              absurd (ground (arith, plain, of_graph, entry))
          | inr other ↦
              let apart : id ≢ j = λ at. ground (arith, at, other) in
              rw (plain, other) (find-remove_ne id j w.session.allocations apart ∙ e)
        ]
        | inr mapped ↦
            let (execs, q) = graph_allocation_freed-session d id 0 false w in
            let owns = graph_allocation_freed-owns d id 0 j false w in
            let same : exec_owns j execs ≡ exec_owns j w.session.graph_execs =
              ap (λ s. exec_owns j s.graph_execs) (sym q) ∙ owns in
            let t =
              update id (λ (a : Allocation). record a { graph_active = false })
                w.session.allocations in
            let b' = unmapped_if (id == j) b in
            let here : find j t ≡ some b' = find-unmapped id j w.session.allocations freed e in
            let kept : keeps_allocation w.session.graphs execs j b' ≡ true =
              IsOwned-keeps w.session execs j b' (unmapped_if-IsOwned w.session j b (id == j) owned)
                same in
            rw (mapped, q) (find-retire_kept w.session.graphs execs j t b' here kept)
      ]

  free_found :
      (w : World) (p : List ℕ)
      → (handle_free d w p).1.status ≡ ok
      → (a : Allocation) × (find_allocation w.session (read_u64 p) ≡ some a)
        × ((handle_free d w p).0
            ≡ forget_allocation d (read_u64 p) a (called (mem_free a.ptr) (called context_sync w)))
  unfolding handle_free
  free_found w p h = elim (Option-cases (find_allocation w.session (read_u64 p))) [
    | inl e ↦ ground (arith, e)
    | inr (a, e) ↦ (a, e, ground arith)
  ]

  recorded :
      (s : ServerSession) (id : ℕ) {a : Allocation}
      → find_allocation s id ≡ some a
      → find_allocation_record s id ≡ some a
  unfolding find_allocation
  recorded s id {a} e = elim (Option-cases (find_allocation_record s id)) [
    | inl q ↦ ground (arith, q)
    | inr (b, q) ↦ ground (arith, q)
  ]

  -- After a successful `OP_FREE` in a valid session its id is unknown, whether it was the client's own
  -- or a graph's, and every other id stands for what it did. The record of a graph allocation stays, and
  -- is unmapped if it is the one that is freed, as long as its graph is there or an executable that is
  -- not retired allocates it.
  pub find_allocation-handle_free :
      (w : World) (p : List ℕ) (j : ℕ)
      → IsValid w.session
      → (handle_free d w p).1.status ≡ ok
      → (find_allocation (handle_free d w p).0.session j
          ≡ (if read_u64 p == j then none else find_allocation w.session j))
        × ((b : Allocation)
            → find_allocation_record w.session j ≡ some b
            → (b.graph_id == 0) ≡ false
            → IsOwned w.session j b
            → find_allocation_record (handle_free d w p).0.session j
              ≡ some (unmapped_if (read_u64 p == j) b))
  find_allocation-handle_free w p j v h =
      let (a, e, q) = free_found w p h in
      let w' = called (mem_free a.ptr) (called context_sync w) in
      let freed = recorded w.session (read_u64 p) e in
      (
        rw q (find_allocation-forget_allocation (read_u64 p) j w' v freed),
        λ b here of_graph owned.
            rw q (record-forget_allocation (read_u64 p) j w' freed here of_graph owned),
      )
