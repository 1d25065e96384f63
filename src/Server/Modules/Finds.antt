-- ===== src/Server/Modules/Finds.antt =====
-- What handle_get_kernel of server/runtime_server.c finds in a module.
use x_remote_runtime.Prelude.{ℕ, ◌≡◌, some, [], ◌==◌, if◌then◌else◌}
use x_remote_runtime.Protocol.Words.{write_u64}
use x_remote_runtime.Server.Backend.{Driver}
use x_remote_runtime.Server.Session.{KernelEntry, World, Response, find_kernel}

module _ (d : Driver) where
  -- What a kernel that was entered is found by.
  abbrev Enters : World → KernelEntry → World × Response → Type 0
  Enters w k r =
      (r.1.payload ≡ write_u64 [] w.session.next_kernel_id)
      × ((j : ℕ)
          → find_kernel r.0.session j
            ≡ (if w.session.next_kernel_id == j then some k else find_kernel w.session j))
