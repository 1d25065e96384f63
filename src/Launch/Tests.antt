-- ===== src/Launch/Tests.antt =====
-- Runs of the launch configuration stack of src/corex_launch_config.c.
use x_remote_runtime.Prelude.{ℕ, ◌≡◌, arith, [], ◌∷◌, some}
use x_remote_runtime.Launch.{Dim3, LaunchConfig}
use x_remote_runtime.Launch.Lifo.{Nesting, run, run-closing}

abbrev line : ℕ → Dim3
line n = record { x = n; y = 1; z = 1 }

abbrev config : ℕ → LaunchConfig
config n = record { grid = line n; block = line 32; shared_mem = 0; stream = 0 }

abbrev nested : Nesting
nested =
    Nesting.around (config 1) (
      Nesting.both (Nesting.around (config 2) Nesting.idle)
        (Nesting.around (config 3) Nesting.idle))

run-closing_example :
    run nested (config 9 ∷ [])
    ≡ (config 9 ∷ [], some (config 2) ∷ some (config 3) ∷ some (config 1) ∷ [])
run-closing_example = run-closing nested (config 9 ∷ []) (omega arith)
