-- ===== src/Server/Modules/Links.antt =====
-- Modules and kernels of server/runtime_server.c: what links the two tables.
use x_remote_runtime.Prelude.{
  ℕ, ◌+◌, ◌^◌, ◌<◌, ◌≡◌, ap, ◌∙◌, arith, none, some, List, false, ◌==◌, if◌then◌else◌, Bool-cases,
  Option-cases, inl, inr,
}
use mathlib.Core.Path.{subst}
use x_remote_runtime.Metadata.Text.{c_string}
use x_remote_runtime.Metadata.Module.Bounds.{IsModule}
use x_remote_runtime.Metadata.Image.{corex_find_kernel_meta}
use x_remote_runtime.Server.Table.{Table, find, new_slot, next_id}
use x_remote_runtime.Server.Table.Laws.{find-new_slot}
use x_remote_runtime.Server.Table.Slots.{find-remove}
use x_remote_runtime.Server.Session.{
  ServerSession, ModuleEntry, KernelEntry, find_module, find_kernel, max_modules, max_kernels,
}
use x_remote_runtime.Server.Handlers.Sessions.{IsTable, find_next, new_slot-IsTable, remove-IsTable}
use x_remote_runtime.Server.Modules.{invalidate_module_kernels, forget_module}
use x_remote_runtime.Server.Modules.Tables.{find-clear_where, clear_where-IsTable, kept}

-- The kernel's module is there, and its metadata has the kernel under its name.
pub record HasModule (s : ServerSession) (k : KernelEntry) : Type 0 where
  pub entry : ModuleEntry
  pub name : List ℕ
  pub here : find_module s k.module_id ≡ some entry
  pub described : corex_find_kernel_meta entry.metadata name ≡ some k.metadata
  pub named : c_string name ≡ k.name

-- Both tables are well formed, the metadata of every module is in its bounds, and every kernel has its
-- module.
pub record IsLinked (s : ServerSession) : Type 0 where
  pub modules : IsTable max_modules s.next_module_id s.modules
  pub kernels : IsTable max_kernels s.next_kernel_id s.kernels
  pub in_bounds : (i : ℕ) (m : ModuleEntry) → find_module s i ≡ some m → IsModule m.metadata
  pub linked : (j : ℕ) (k : KernelEntry) → find_kernel s j ≡ some k → HasModule s k

module _ (s : ServerSession) (v : IsLinked s) where
  module _ (m : ModuleEntry) (t : Table ModuleEntry)
      (entered : new_slot s.next_module_id m s.modules ≡ some t) where
    abbrev with_module : ServerSession
    with_module = record s { modules = t; next_module_id = next_id s.next_module_id }

    find-with_module :
        (i : ℕ)
        → find_module with_module i ≡ (if s.next_module_id == i then some m else find_module s i)
    unfolding find_module
    find-with_module i =
        find-new_slot s.next_module_id i m s.modules (find_next s.modules v.modules) entered

    find-with_module_old :
        (i : ℕ) {n : ModuleEntry} → find_module s i ≡ some n → find_module with_module i ≡ some n
    unfolding find_module
    find-with_module_old i h =
        let unused : find s.next_module_id s.modules ≡ none = find_next s.modules v.modules in
        elim (Bool-cases (s.next_module_id == i)) [
          | inl same ↦
              let here : s.next_module_id ≡ i = ground (arith, same) in
              let gone : find i s.modules ≡ none =
                subst (λ x. find x s.modules ≡ none) here unused in
              absurd (ground (arith, h, gone))
          | inr other ↦ find-with_module i ∙ rw other h
        ]

    pub with_module-IsLinked :
        s.next_module_id + 1 < 2 ^ 64 → IsModule m.metadata → IsLinked with_module
    unfolding find_kernel
    with_module-IsLinked room described = record {
      modules = new_slot-IsTable s.modules v.modules m room entered;
      kernels = v.kernels;
      in_bounds = λ i n e. elim (Bool-cases (s.next_module_id == i)) [
        | inl same ↦
            let entered_here : m ≡ n = ground (arith, find-with_module i, same, e) in
            subst (λ x. IsModule x.metadata) entered_here described
        | inr other ↦ v.in_bounds i n (ground (arith, find-with_module i, other, e))
      ];
      linked = λ j k e.
          let h = v.linked j k e in
          record {
            entry = h.entry;
            name = h.name;
            here = find-with_module_old k.module_id h.here;
            described = h.described;
            named = h.named;
          };
    }

  module _ (k : KernelEntry) (t : Table KernelEntry)
      (entered : new_slot s.next_kernel_id k s.kernels ≡ some t) where
    abbrev with_kernel : ServerSession
    with_kernel = record s { kernels = t; next_kernel_id = next_id s.next_kernel_id }

    find-with_kernel :
        (j : ℕ)
        → find_kernel with_kernel j ≡ (if s.next_kernel_id == j then some k else find_kernel s j)
    unfolding find_kernel
    find-with_kernel j =
        find-new_slot s.next_kernel_id j k s.kernels (find_next s.kernels v.kernels) entered

    -- Looking up a module does not read the kernels.
    carry : (l : KernelEntry) → HasModule s l → HasModule with_kernel l
    unfolding find_module
    carry l h = record {
      entry = h.entry;
      name = h.name;
      here = h.here;
      described = h.described;
      named = h.named;
    }

    pub with_kernel-IsLinked : s.next_kernel_id + 1 < 2 ^ 64 → HasModule s k → IsLinked with_kernel
    unfolding find_module
    with_kernel-IsLinked room has = record {
      modules = v.modules;
      kernels = new_slot-IsTable s.kernels v.kernels k room entered;
      in_bounds = v.in_bounds;
      linked = λ j l e. elim (Bool-cases (s.next_kernel_id == j)) [
        | inl same ↦
            let entered_here : k ≡ l = ground (arith, find-with_kernel j, same, e) in
            subst (HasModule with_kernel) entered_here (carry k has)
        | inr other ↦ carry l (v.linked j l (ground (arith, find-with_kernel j, other, e)))
      ];
    }

  module _ (id : ℕ) where
    find-invalidate_module_kernels :
        (j : ℕ)
        → find_kernel (invalidate_module_kernels id s) j
          ≡ kept (λ k. k.module_id == id) (find_kernel s j)
    unfolding find_kernel
    find-invalidate_module_kernels j =
        find-clear_where (λ k. k.module_id == id) j s.kernels v.kernels.distinct

    invalidated_was :
        (j : ℕ) (k : KernelEntry)
        → find_kernel (invalidate_module_kernels id s) j ≡ some k
        → (find_kernel s j ≡ some k) × ((k.module_id == id) ≡ false)
    invalidated_was j k e = elim (Option-cases (find_kernel s j)) [
      | inl gone ↦ absurd (ground (arith, find-invalidate_module_kernels j, gone, e))
      | inr (l, was) ↦ elim (Bool-cases (l.module_id == id)) [
        | inl cleared ↦ absurd (ground (arith, find-invalidate_module_kernels j, was, cleared, e))
        | inr stays ↦
            let same : l ≡ k = ground (arith, find-invalidate_module_kernels j, was, stays, e) in
            (was ∙ ap some same, subst (λ x. (x.module_id == id) ≡ false) same stays)
      ]
    ]

    pub invalidate_module_kernels-IsLinked : IsLinked (invalidate_module_kernels id s)
    unfolding find_module
    invalidate_module_kernels-IsLinked = record {
      modules = v.modules;
      kernels = clear_where-IsTable (λ k. k.module_id == id) s.kernels v.kernels;
      in_bounds = v.in_bounds;
      linked = λ j k e.
          let (was, other) = invalidated_was j k e in
          let h = v.linked j k was in
          record {
            entry = h.entry;
            name = h.name;
            here = h.here;
            described = h.described;
            named = h.named;
          };
    }

    abbrev unloaded : ServerSession
    unloaded = forget_module id (invalidate_module_kernels id s)

    find-unloaded : (i : ℕ) → find_module unloaded i ≡ (if id == i then none else find_module s i)
    unfolding find_module
    find-unloaded i = find-remove id i s.modules v.modules.distinct

    pub forget_module-IsLinked : IsLinked unloaded
    unfolding find_kernel
    forget_module-IsLinked = record {
      modules = remove-IsTable s.modules v.modules id;
      kernels = clear_where-IsTable (λ k. k.module_id == id) s.kernels v.kernels;
      in_bounds = λ i m e. elim (Bool-cases (id == i)) [
        | inl gone ↦ absurd (ground (arith, find-unloaded i, gone, e))
        | inr other ↦ v.in_bounds i m (ground (arith, find-unloaded i, other, e))
      ];
      linked = λ j k e.
          let (was, other) = invalidated_was j k e in
          let h = v.linked j k was in
          record {
            entry = h.entry;
            name = h.name;
            here = ground (arith, find-unloaded k.module_id, other, h.here);
            described = h.described;
            named = h.named;
          };
    }
