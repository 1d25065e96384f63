-- ===== src/Server/Handlers/Invariant/Memory.antt =====
-- The allocation handlers of server/runtime_server.c and the invariant of the session.
use x_remote_runtime.Prelude.{
  ℕ, ◌*◌, ◌/◌, ◌≡◌, ◌⊎◌, inl, inr, arith, List, drop, some, ltb, ◌||◌, Bool-cases, Option-cases,
}
use x_remote_runtime.Protocol.Words.{read_u64}
use x_remote_runtime.Server.Backend.{Driver, mem_alloc, succeeds}
use x_remote_runtime.Server.Table.{Table, new_slot, remove, update, next_id}
use x_remote_runtime.Server.Session.{World, Allocation, blank_allocation, ask}
use x_remote_runtime.Server.Memory.Alloc.{
  alloc_in_slot, handle_alloc, pitched_memory, alloc_pitched_in_slot, handle_alloc_pitched,
  size_max,
}
use x_remote_runtime.Server.Handlers.Sessions.{
  IsValid, HasIds, IsValidAfter, IsValid-found, new_slot-IsTable, remove-IsTable, update-IsTable,
  with_allocations-IsValid,
}

abbrev pitched_fill : ℕ → ℕ → ℕ → ℕ → Allocation → Allocation
pitched_fill ptr width height pitch a = record a {
  ptr = ptr;
  size = pitch * height;
  layout_kind = 1;
  width = width;
  height = height;
  pitch = pitch;
}

module _ (d : Driver) (w : World) (v : IsValid w.session) (ids : HasIds w.session) where
  alloc_in_slot-IsValid :
      (size : ℕ) {table : Table Allocation}
      → new_slot w.session.next_alloc_id blank_allocation w.session.allocations ≡ some table
      → IsValidAfter (alloc_in_slot d w table size)
  unfolding alloc_in_slot
  alloc_in_slot-IsValid size {table} e =
      let t = new_slot-IsTable w.session.allocations v.allocations blank_allocation ids.alloc e in
      elim (Bool-cases (succeeds (ask d (mem_alloc size) w).result)) [
        | inl ok ↦
            rw ok (with_allocations-IsValid v (update-IsTable table t w.session.next_alloc_id _))
        | inr bad ↦
            rw bad (with_allocations-IsValid v (remove-IsTable table t w.session.next_alloc_id))
      ]

  alloc_cases :
      (p : List ℕ) (table : Table Allocation)
      → new_slot w.session.next_alloc_id blank_allocation w.session.allocations ≡ some table
      → ((handle_alloc d w p).0.session ≡ w.session)
        ⊎ (handle_alloc d w p ≡ alloc_in_slot d w table (read_u64 p))
  unfolding handle_alloc
  alloc_cases p table e = ground arith

  pub alloc-IsValid : (p : List ℕ) → IsValidAfter (handle_alloc d w p)
  unfolding handle_alloc
  alloc-IsValid p =
      IsValid-found (handle_alloc d w p)
        (new_slot w.session.next_alloc_id blank_allocation w.session.allocations) v
        (λ e. ground arith)
        λ table e. elim (alloc_cases p table e) [
          | inl q ↦ rw q v
          | inr q ↦ rw q (alloc_in_slot-IsValid _ e)
        ]

  alloc_pitched_in_slot_cases :
      (width height : ℕ) (table : Table Allocation)
      → ((alloc_pitched_in_slot d w table width height).0.session ≡ (record w.session {
        allocations = remove w.session.next_alloc_id table;
        next_alloc_id = next_id w.session.next_alloc_id;
      }))
        ⊎ ((ptr pitch : ℕ) × ((alloc_pitched_in_slot d w table width height).0.session
              ≡ (record w.session {
                allocations =
                    update w.session.next_alloc_id (pitched_fill ptr width height pitch) table;
                next_alloc_id = next_id w.session.next_alloc_id;
              })))
  unfolding alloc_pitched_in_slot
  alloc_pitched_in_slot_cases width height table =
      elim (Option-cases (pitched_memory d w width height).1) [
        | inl q ↦ inl (ground arith)
        | inr ((ptr, pitch), q) ↦
            elim (Bool-cases (ltb pitch width || ltb (size_max / height) pitch)) [
              | inl bad ↦ inl (ground arith)
              | inr ok ↦ inr (ptr, pitch, ground arith)
            ]
      ]

  alloc_pitched_in_slot-IsValid :
      (width height : ℕ) {table : Table Allocation}
      → new_slot w.session.next_alloc_id blank_allocation w.session.allocations ≡ some table
      → IsValidAfter (alloc_pitched_in_slot d w table width height)
  alloc_pitched_in_slot-IsValid width height {table} e =
      let t = new_slot-IsTable w.session.allocations v.allocations blank_allocation ids.alloc e in
      elim (alloc_pitched_in_slot_cases width height table) [
        | inl q ↦ rw q (with_allocations-IsValid v (remove-IsTable table t w.session.next_alloc_id))
        | inr (ptr, pitch, q) ↦
            rw q (with_allocations-IsValid v (update-IsTable table t w.session.next_alloc_id _))
      ]

  alloc_pitched_cases :
      (p : List ℕ) (table : Table Allocation)
      → new_slot w.session.next_alloc_id blank_allocation w.session.allocations ≡ some table
      → ((handle_alloc_pitched d w p).0.session ≡ w.session)
        ⊎ (handle_alloc_pitched d w p
            ≡ alloc_pitched_in_slot d w table (read_u64 p) (read_u64 (drop 8 p)))
  unfolding handle_alloc_pitched
  alloc_pitched_cases p table e = ground arith

  pub alloc_pitched-IsValid : (p : List ℕ) → IsValidAfter (handle_alloc_pitched d w p)
  unfolding handle_alloc_pitched
  alloc_pitched-IsValid p =
      IsValid-found (handle_alloc_pitched d w p)
        (new_slot w.session.next_alloc_id blank_allocation w.session.allocations) v
        (λ e. ground arith)
        λ table e. elim (alloc_pitched_cases p table e) [
          | inl q ↦ rw q v
          | inr q ↦ rw q (alloc_pitched_in_slot-IsValid _ _ e)
        ]
