-- ===== src/Server/Modules/Unloads.antt =====
-- What handle_unload_module of server/runtime_server.c leaves of a module, and what handle_get_kernel
-- finds in one.
use x_remote_runtime.Prelude.{
  ℕ, ◌≡◌, refl, ap, ◌∙◌, arith, none, some, List, ◌∷◌, ◌==◌, if◌then◌else◌, length, Bool-cases,
  Option-cases, inl, inr,
}
use mathlib.Core.Path.{sym}
use x_remote_runtime.Protocol.Words.{read_u64}
use x_remote_runtime.Server.Backend.{Driver, module_unload, context_sync, succeeds}
use x_remote_runtime.Server.Table.Laws.{IsDistinct}
use x_remote_runtime.Server.Table.Slots.{find-remove}
use x_remote_runtime.Server.Session.{
  ModuleEntry, World, find_module, find_kernel, find_allocation_record, ask, called, with_session,
  ok,
}
use x_remote_runtime.Server.Modules.{
  invalidate_module_kernels, forget_module, unload_module, handle_unload_module,
}
use x_remote_runtime.Server.Modules.Tables.{find-clear_where, kept}
use x_remote_runtime.Server.Modules.Links.{IsLinked}

module _ (d : Driver) (w : World) (payload : List ℕ) where
  abbrev id : ℕ
  id = read_u64 payload

  abbrev idle_world : World
  idle_world = record w {
    session = invalidate_module_kernels id w.session;
    calls = context_sync ∷ w.calls;
  }

  abbrev unloaded_world : ModuleEntry → World
  unloaded_world m =
      with_session (called (module_unload m.handle) idle_world)
        (forget_module id (invalidate_module_kernels id w.session))

  unload_module-ok :
      (m : ModuleEntry)
      → (unload_module d id m (called context_sync w)).1.status ≡ ok
      → (unload_module d id m (called context_sync w)).0 ≡ unloaded_world m
  unfolding unload_module
  unload_module-ok m h =
      elim (Bool-cases (succeeds (ask d (module_unload m.handle) idle_world).result)) [
        | inl good ↦ rw (unload_module, good) refl
        | inr bad ↦ absurd (ground (arith, h, bad))
      ]

  unload_reaches :
      (handle_unload_module d w payload).1.status ≡ ok
      → (m : ModuleEntry) × (find_module w.session id ≡ some m)
        × ((handle_unload_module d w payload).0 ≡ unloaded_world m)
  unfolding handle_unload_module
  unload_reaches h = elim (Bool-cases (length payload == 8)) [
    | inr short ↦ absurd (ground (arith, h, short))
    | inl whole ↦ elim (Option-cases (find_module w.session id)) [
      | inl unknown ↦ absurd (ground (arith, h, whole, unknown))
      | inr (m, known) ↦ elim (Bool-cases (succeeds (ask d context_sync w).result)) [
        | inl idle ↦
            let runs : handle_unload_module d w payload
                ≡ unload_module d id m (called context_sync w) =
              rw (whole, handle_unload_module, known, idle) refl in
            let good = ap (λ x. x.1.status) (sym runs) ∙ h in
            (m, known, ap (λ x. x.0) runs ∙ unload_module-ok m good)
        | inr busy ↦ absurd (ground (arith, h, whole, known, busy))
      ]
    ]
  ]

  -- The unloading of a module that succeeds has waited for the driver and then unloaded exactly that
  -- module. Its id stands for no module any more, and every other id for what it did; of the kernels and
  -- of the memory of globals, those of the module are gone, and every other id stands for what it did.
  pub handle_unload_module-unloads :
      IsLinked w.session
      → IsDistinct w.session.allocations
      → (handle_unload_module d w payload).1.status ≡ ok
      → (m : ModuleEntry) × (find_module w.session id ≡ some m)
        × ((handle_unload_module d w payload).0.calls
            ≡ module_unload m.handle ∷ context_sync ∷ w.calls)
        × ((i : ℕ)
            → find_module (handle_unload_module d w payload).0.session i
              ≡ (if id == i then none else find_module w.session i))
        × ((j : ℕ)
            → find_kernel (handle_unload_module d w payload).0.session j
              ≡ kept (λ k. k.module_id == id) (find_kernel w.session j))
        × ((j : ℕ)
            → find_allocation_record (handle_unload_module d w payload).0.session j
              ≡ kept (λ a. a.parent_module_id == id) (find_allocation_record w.session j))
  unfolding find_module find_kernel find_allocation_record
  handle_unload_module-unloads v distinct h =
      let (m, known, after) = unload_reaches h in
      (
        m,
        known,
        ap (λ x. x.calls) after,
        λ i. rw after (find-remove id i w.session.modules v.modules.distinct),
        λ j.
            rw after
              (find-clear_where (λ k. k.module_id == id) j w.session.kernels v.kernels.distinct),
        λ j.
            rw after
              (find-clear_where (λ a. a.parent_module_id == id) j w.session.allocations distinct),
      )
