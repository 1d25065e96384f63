-- ===== src/Server/Handlers/Allocations/Fresh.antt =====
-- A new allocation id: `handle_alloc` of server/runtime_server.c.
use x_remote_runtime.Prelude.{
  ℕ, ◌≡◌, ap, inl, inr, arith, List, [], Option, none, some, ◌==◌, ◌||◌, if◌then◌else◌, ◌>>=◌,
  Option-cases,
}
use x_remote_runtime.Protocol.Words.{read_u64, write_u64}
use x_remote_runtime.Server.Backend.{Driver, mem_alloc}
use x_remote_runtime.Server.Table.{Table, new_slot, update}
use x_remote_runtime.Server.Table.Slots.{find-filled}
use x_remote_runtime.Server.Session.{
  World, Allocation, blank_allocation, find_allocation, find_allocation_record, ok, ask,
}
use x_remote_runtime.Server.Memory.Alloc.{alloc_in_slot, handle_alloc}
use x_remote_runtime.Server.Handlers.Sessions.{IsValid, find_next}

-- What `find_allocation` makes of a record: one of a graph counts only while it is mapped.
abbrev pub visible : Option Allocation → Option Allocation
visible o = o >>= λ a. if a.graph_id == 0 || a.graph_active then some a else none

module _ (d : Driver) (w : World) (p : List ℕ) where
  abbrev allocated : Allocation
  allocated = record blank_allocation {
    ptr = (ask d (mem_alloc (read_u64 p)) w).value;
    size = read_u64 p;
  }

  alloc_filled :
      (table : Table Allocation)
      → new_slot w.session.next_alloc_id blank_allocation w.session.allocations ≡ some table
      → (handle_alloc d w p).1.status ≡ ok
      → ((handle_alloc d w p).1.payload ≡ write_u64 [] w.session.next_alloc_id)
        × ((handle_alloc d w p).0.session.allocations
            ≡ update w.session.next_alloc_id
                (λ a. record a {
                  ptr = (ask d (mem_alloc (read_u64 p)) w).value;
                  size = read_u64 p;
                })
                table)
  unfolding handle_alloc alloc_in_slot
  alloc_filled table e h = ground arith

  alloc_slot :
      (handle_alloc d w p).1.status ≡ ok
      → (table : Table Allocation) × (new_slot w.session.next_alloc_id blank_allocation
            w.session.allocations
          ≡ some table)
  unfolding handle_alloc
  alloc_slot h =
      elim (Option-cases
        (new_slot w.session.next_alloc_id blank_allocation w.session.allocations)) [
          | inl e ↦ ground (arith, e)
          | inr r ↦ r
        ]

  -- A successful `OP_ALLOC` in a valid session replies an id that was not in use. Afterwards it stands
  -- for the memory that the driver gave, with the size asked for, and every other id for what it did.
  pub find_allocation-handle_alloc :
      IsValid w.session
      → (handle_alloc d w p).1.status ≡ ok
      → ((handle_alloc d w p).1.payload ≡ write_u64 [] w.session.next_alloc_id)
        × (find_allocation w.session w.session.next_alloc_id ≡ none)
        × ((j : ℕ)
            → find_allocation (handle_alloc d w p).0.session j ≡ (
                if w.session.next_alloc_id == j
                then some allocated
                else find_allocation w.session j))
  unfolding find_allocation find_allocation_record
  find_allocation-handle_alloc v h =
      let (table, e) = alloc_slot h in
      let (sent, filled) = alloc_filled table e h in
      let next = find_next w.session.allocations v.allocations in
      (
        sent,
        ap visible next,
        λ j.
            rw
              (
                filled,
                find-filled w.session.next_alloc_id j blank_allocation _ w.session.allocations next
                    e,
              )
              (ground arith),
      )
