-- ===== src/Server/Tests/Modules.antt =====
-- Runs of the theorems on modules and kernels of server/runtime_server.c.
use x_remote_runtime.Prelude.{
  ℕ, ◌≡◌, refl, arith, List, [], ◌∷◌, ◌++◌, some, none, if◌then◌else◌, ◌==◌, true, false,
}
use mathlib.Core.Path.{subst}
use x_remote_runtime.Protocol.Words.{read_u32, read_u64, write_u32, write_u64}
use x_remote_runtime.Metadata.Text.{codes, c_string, same_bytes, strcmp_equal}
use x_remote_runtime.Metadata.Module.{KernelMeta, blank_module, blank_kernel}
use x_remote_runtime.Metadata.Module.Bounds.{IsModule, IsKernel}
use x_remote_runtime.Metadata.Image.{corex_find_kernel_meta}
use x_remote_runtime.Server.Backend.{module_unload, context_sync}
use x_remote_runtime.Server.Table.{find, new_slot}
use x_remote_runtime.Server.Session.{
  World, ModuleEntry, KernelEntry, server_session_init, find_module, find_kernel,
  find_allocation_record, empty_table,
}
use x_remote_runtime.Server.Modules.{
  handle_upload_image, handle_get_kernel, handle_unload_module, decode_get_kernel, enter_kernel,
  unload_module,
}
use x_remote_runtime.Server.Modules.Tables.{kept}
use x_remote_runtime.Server.Modules.Links.{HasModule, IsLinked}
use x_remote_runtime.Server.Modules.Invariant.{module_handlers-IsLinked}
use x_remote_runtime.Server.Modules.Unloads.{handle_unload_module-unloads}
use x_remote_runtime.Server.Tests.{driver, start, word}

abbrev kernel_k : KernelMeta
kernel_k = record blank_kernel { name = codes "k" }

abbrev loaded : ModuleEntry
loaded = record {
  handle = 70;
  library = false;
  image = [];
  name = [];
  metadata = record blank_module { kernels = kernel_k ∷ [] };
  metadata_valid = true;
}

kernel_k-IsKernel : IsKernel kernel_k
kernel_k-IsKernel = record {
  name = omega arith;
  symbol = omega arith;
  kernarg_segment_align = omega arith;
  kernarg_segment_size = omega arith;
  warp_size = omega arith;
  argc = omega arith;
  args = tt;
}

loaded-IsModule : IsModule loaded.metadata
loaded-IsModule = record {
  version_major = omega arith;
  version_minor = omega arith;
  kernel_count = omega arith;
  kernels = (kernel_k-IsKernel, tt);
}

-- One module, and no kernel yet.
abbrev with_module : World
with_module = record start {
  session = record server_session_init {
    modules = some (1, loaded) ∷ empty_table ModuleEntry 31;
    next_module_id = 2;
  };
}

only_module : (i : ℕ) (m : ModuleEntry) → find_module with_module.session i ≡ some m → loaded ≡ m
unfolding find_module find
only_module i m e = ground (arith, e)

no_kernel :
    (j : ℕ) (k : KernelEntry)
    → find_kernel with_module.session j ≡ some k
    → HasModule with_module.session k
unfolding find_kernel find server_session_init
no_kernel j k e = absurd (ground (arith, e))

with_module-IsLinked : IsLinked with_module.session
unfolding server_session_init find
with_module-IsLinked = record {
  modules = record {
    distinct = (refl, tt);
    below = (omega arith, omega arith, tt);
    full_length = refl;
    positive = omega arith;
  };
  kernels = record { distinct = tt; below = tt; full_length = refl; positive = omega arith };
  in_bounds = λ i m e. subst (λ x. IsModule x.metadata) (only_module i m e) loaded-IsModule;
  linked = no_kernel;
}

abbrev request : List ℕ
request = word 1 ++ write_u32 [] 1 ++ codes "k"

abbrev with_kernel : World
with_kernel = (handle_get_kernel driver with_module request).0

module_handlers-IsLinked_example :
    IsLinked (handle_upload_image false driver with_module request).0.session
    × IsLinked with_kernel.session
    × IsLinked (handle_unload_module driver with_module request).0.session
unfolding server_session_init
module_handlers-IsLinked_example =
    module_handlers-IsLinked driver with_module request with_module-IsLinked false (omega arith)
      (omega arith)

with_kernel-IsLinked : IsLinked with_kernel.session
unfolding server_session_init
with_kernel-IsLinked =
    (module_handlers-IsLinked driver with_module request with_module-IsLinked false (omega arith)
      (omega arith)).1

handle_unload_module-unloads_example :
    (m : ModuleEntry) × (find_module with_kernel.session 1 ≡ some m)
    × ((handle_unload_module driver with_kernel (word 1)).0.calls
        ≡ module_unload m.handle ∷ context_sync ∷ with_kernel.calls)
    × ((i : ℕ)
        → find_module (handle_unload_module driver with_kernel (word 1)).0.session i
          ≡ (if 1 == i then none else find_module with_kernel.session i))
    × ((j : ℕ)
        → find_kernel (handle_unload_module driver with_kernel (word 1)).0.session j
          ≡ kept (λ k. k.module_id == 1) (find_kernel with_kernel.session j))
    × ((j : ℕ)
        → find_allocation_record (handle_unload_module driver with_kernel (word 1)).0.session j
          ≡ kept (λ a. a.parent_module_id == 1) (find_allocation_record with_kernel.session j))
unfolding server_session_init handle_unload_module unload_module find_module find read_u32 read_u64
    write_u32 write_u64 handle_get_kernel decode_get_kernel enter_kernel new_slot
    corex_find_kernel_meta x_remote_runtime.Metadata.Image.find_named strcmp_equal same_bytes
    c_string
handle_unload_module-unloads_example =
    handle_unload_module-unloads driver with_kernel (word 1) with_kernel-IsLinked tt refl
