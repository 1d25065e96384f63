-- ===== src/Server/GraphMemory/Laws.antt =====
-- What retiring graph memory does to the tables of a session of server/runtime_server.c.
use x_remote_runtime.Prelude.{
  ℕ, suc, ◌≡◌, ◌⊎◌, inl, inr, refl, ap, arith, [], ◌∷◌, length, some, none, Bool-cases,
}
use x_remote_runtime.Server.Table.{Table, find}
use x_remote_runtime.Server.Table.Laws.{IsDistinct, IsBelow}
use x_remote_runtime.Server.Session.{Allocation, GraphEntry, GraphExecEntry}
use x_remote_runtime.Server.GraphMemory.{retire_allocations, keeps_allocation}

module _ (graphs : Table GraphEntry) (execs : Table GraphExecEntry) where
  pub length-retire_allocations :
      (t : Table Allocation) → length (retire_allocations graphs execs t) ≡ length t
  unfolding retire_allocations
  length-retire_allocations [] = refl
  length-retire_allocations (none ∷ t) = ap suc (length-retire_allocations t)
  length-retire_allocations (some e ∷ t) = ap suc (length-retire_allocations t)

  pub retire_allocations-none :
      (j : ℕ) (t : Table Allocation)
      → find j t ≡ none
      → find j (retire_allocations graphs execs t) ≡ none
  unfolding retire_allocations find
  retire_allocations-none j [] h = refl
  retire_allocations-none j (none ∷ t) h = retire_allocations-none j t h
  retire_allocations-none j (some (i, a) ∷ t) h =
      elim (Bool-cases (keeps_allocation graphs execs i a)) [
        | inl k ↦ rw (k, find) (ground (arith, retire_allocations-none j t))
        | inr k ↦ rw (k, find) (ground (arith, retire_allocations-none j t))
      ]

  pub retire_allocations-IsDistinct :
      (t : Table Allocation) → IsDistinct t → IsDistinct (retire_allocations graphs execs t)
  unfolding retire_allocations
  retire_allocations-IsDistinct [] d = d
  retire_allocations-IsDistinct (none ∷ t) d = retire_allocations-IsDistinct t d
  retire_allocations-IsDistinct (some (i, a) ∷ t) (fresh, d) =
      elim (Bool-cases (keeps_allocation graphs execs i a)) [
        | inl k ↦ rw k (retire_allocations-none i t fresh, retire_allocations-IsDistinct t d)
        | inr k ↦ rw k (retire_allocations-IsDistinct t d)
      ]

  pub retire_allocations-IsBelow :
      (n : ℕ) (t : Table Allocation) → IsBelow n t → IsBelow n (retire_allocations graphs execs t)
  unfolding retire_allocations
  retire_allocations-IsBelow n [] b = b
  retire_allocations-IsBelow n (none ∷ t) b = retire_allocations-IsBelow n t b
  retire_allocations-IsBelow n (some (i, a) ∷ t) (p, l, b) =
      elim (Bool-cases (keeps_allocation graphs execs i a)) [
        | inl k ↦ rw k (p, l, retire_allocations-IsBelow n t b)
        | inr k ↦ rw k (retire_allocations-IsBelow n t b)
      ]

  -- An allocation is retired or left as it is.
  pub find-retire_allocations :
      (j : ℕ) (t : Table Allocation)
      → IsDistinct t
      → (find j (retire_allocations graphs execs t) ≡ none)
        ⊎ (find j (retire_allocations graphs execs t) ≡ find j t)
  unfolding retire_allocations find
  find-retire_allocations j [] d = inl refl
  find-retire_allocations j (none ∷ t) d = find-retire_allocations j t d
  find-retire_allocations j (some (i, a) ∷ t) (fresh, d) =
      elim (Bool-cases (keeps_allocation graphs execs i a)) [
        | inl k ↦ rw (k, find) (ground (arith, find-retire_allocations j t d))
        | inr k ↦
            rw (k, find)
              (ground (arith, find-retire_allocations j t d, retire_allocations-none i t fresh))
      ]
