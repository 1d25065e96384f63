-- ===== src/Server/Handlers/Calls.antt =====
-- Which driver calls of server/runtime_server.c stay inside an allocation of the session.
use x_remote_runtime.Prelude.{
  ℕ, ◌+◌, ◌-◌, ◌*◌, ◌≤◌, ◌≡◌, ◌⊎◌, inl, inr, List, ◌∷◌, length, Option, none, some, Option-cases,
}
use mathlib.Core.Path.{subst, sym}
use x_remote_runtime.Server.Backend.{
  BackendCall, copy_h2d, copy_d2h, copy_d2d, copy_d2d_async, copy_h2d_async, copy_d2h_async,
  memset_d8, memset_d8_async, memset_d2d8, memset_d2d8_async, mem_free,
}
use x_remote_runtime.Server.Session.{World, ServerSession, Allocation, find_allocation, add_u64}

-- `n` bytes from the device address `p` lie in an allocation that the session can name.
abbrev pub InAllocation : ServerSession → ℕ → ℕ → Type 0
InAllocation s p n =
    (id : ℕ) × (offset : ℕ) × (a : Allocation) × (find_allocation s id ≡ some a)
    × (p ≡ add_u64 a.ptr offset)
    × (offset + n ≤ a.size)

-- Copies and fills touch the session's own allocations only. A rectangle spans `height - 1` whole
-- rows and a last one. A freed pointer is the base of an allocation that no module owns.
abbrev pub IsSafe : ServerSession → BackendCall → Type 0
IsSafe s (copy_h2d p bytes) = InAllocation s p (length bytes)
IsSafe s (copy_d2h p n) = InAllocation s p n
IsSafe s (copy_d2d p q n) = InAllocation s p n × InAllocation s q n
IsSafe s (copy_d2d_async p q n stream) = InAllocation s p n × InAllocation s q n
IsSafe s (copy_h2d_async p buffer bytes stream) = InAllocation s p (length bytes)
IsSafe s (copy_d2h_async buffer p n stream) = InAllocation s p n
IsSafe s (memset_d8 p v n) = InAllocation s p n
IsSafe s (memset_d8_async p v n stream) = InAllocation s p n
IsSafe s (memset_d2d8 p pitch v width height) = InAllocation s p ((height - 1) * pitch + width)
IsSafe s (memset_d2d8_async p pitch v width height stream) =
    InAllocation s p ((height - 1) * pitch + width)
IsSafe s (mem_free p) =
    (id : ℕ) × (a : Allocation) × (find_allocation s id ≡ some a)
    × (p ≡ a.ptr)
    × (a.parent_module_id ≡ 0)
IsSafe s _ = Unit

-- The calls `new` are `old` and some further ones, each as `P` says.
pub data Ran (P : BackendCall → Type 0) (old : List BackendCall) : List BackendCall → Type 0 where
  done : Ran P old old
  more : {c : BackendCall} {new : List BackendCall} → P c → Ran P old new → Ran P old (c ∷ new)

-- Every call since `old` is safe in the session `s`.
abbrev pub RanSafely : World → World → Type 0
RanSafely w w' = Ran (IsSafe w.session) w.calls w'.calls

module _ {P : BackendCall → Type 0} {old new : List BackendCall} where
  pub Ran-none : new ≡ old → Ran P old new
  Ran-none e = subst (Ran P old) (sym e) Ran.done

  pub Ran-one : (c : BackendCall) → (new ≡ old) ⊎ ((new ≡ c ∷ old) × P c) → Ran P old new
  Ran-one c (inl e) = Ran-none e
  Ran-one c (inr (e, p)) = subst (Ran P old) (sym e) (Ran.more p Ran.done)

  -- A handler that looks something up: what it does when it is missing, and when it is there.
  pub Ran-found :
      {A : Type 0} (o : Option A)
      → (o ≡ none → new ≡ old)
      → ((a : A) → o ≡ some a → Ran P old new)
      → Ran P old new
  Ran-found o missing found = elim (Option-cases o) [
    | inl e ↦ Ran-none (missing e)
    | inr (a, e) ↦ found a e
  ]
