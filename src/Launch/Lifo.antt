-- ===== src/Launch/Lifo.antt =====
-- The order and the depth of the stack of src/corex_launch_config.c.
use x_remote_runtime.Prelude.{
  ℕ, suc, ◌+◌, leb, ◌≤◌, ◌≡◌, refl, ap, ◌⊎◌, inl, inr, arith, List, [], ◌∷◌, ◌++◌, Option, none,
  some, Bool, true, false, if◌then◌else◌, length,
}
use x_remote_runtime.Launch.{
  LaunchConfig, LaunchStack, CudaError, cuda_success, error_invalid_value, push_call_configuration,
  pop_call_configuration, configure_call, launch_config_stack_max,
}

-- A piece of a thread's work that nests: nothing, a configuration around such a piece, or two of them
-- in a row. Its depth is how many configurations it has open at once.
pub data Nesting : Type 0 where
  idle : Nesting
  around : LaunchConfig → Nesting → Nesting
  both : Nesting → Nesting → Nesting

abbrev pub depth : Nesting → ℕ
depth idle = 0
depth (around c n) = suc (depth n)
depth (both m n) = if leb (depth m) (depth n) then depth n else depth m

abbrev pub returned : CudaError → Option LaunchConfig → Option LaunchConfig
returned cuda_success written = written
returned _ written = none

abbrev pub close :
    LaunchStack × List (Option LaunchConfig) → LaunchStack × List (Option LaunchConfig)
close (opened, popped) =
    let (closed, result, written) = pop_call_configuration false opened in
    (closed, popped ++ returned result written ∷ [])

-- Run it with the functions of the code: what the stack is afterwards, and the configurations that
-- the pops have returned, a failed one as `none`.
abbrev pub run : Nesting → LaunchStack → LaunchStack × List (Option LaunchConfig)
run idle stack = (stack, [])
run (around c n) stack = close (run n (push_call_configuration c stack).0)
run (both m n) stack = let (s, a) = run m stack in let (s', b) = run n s in (s', a ++ b)

-- The configurations in the order in which their pieces end.
abbrev pub closing : Nesting → List (Option LaunchConfig)
closing idle = []
closing (around c n) = closing n ++ some c ∷ []
closing (both m n) = closing m ++ closing n

push-room :
    (c : LaunchConfig) (stack : LaunchStack)
    → length stack + 1 ≤ launch_config_stack_max
    → push_call_configuration c stack ≡ (c ∷ stack, cuda_success)
unfolding push_call_configuration
push-room c stack h = ground arith

-- Work that nests within the free room of the stack, at most 32 deep in all, finds the stack
-- afterwards as it was, and each pop has returned the configuration of its own push.
pub run-closing :
    (n : Nesting) (stack : LaunchStack)
    → length stack + depth n ≤ launch_config_stack_max
    → run n stack ≡ (stack, closing n)
unfolding pop_call_configuration
run-closing idle stack h = refl
run-closing (around c n) stack h =
    rw (push-room c stack (omega arith)) (ap close (run-closing n (c ∷ stack) (ground arith)))
run-closing (both m n) stack h =
    rw (run-closing m stack (ground arith), run-closing n stack (ground arith)) refl

-- None of the three operations lets a stack of at most 32 cells grow above them.
length-bounded :
    (c : LaunchConfig) (b : Bool) (stack : LaunchStack)
    → length stack ≤ launch_config_stack_max
    → (length (push_call_configuration c stack).0 ≤ launch_config_stack_max)
      × (length (configure_call c stack).0 ≤ launch_config_stack_max)
      × (length (pop_call_configuration b stack).0 ≤ launch_config_stack_max)
unfolding push_call_configuration configure_call pop_call_configuration
length-bounded c b stack h = (ground arith, ground arith, pop_bounded b stack h)
  where
    pop_bounded :
        (b : Bool) (stack : LaunchStack)
        → length stack ≤ launch_config_stack_max
        → length (pop_call_configuration b stack).0 ≤ launch_config_stack_max
    pop_bounded true stack h = h
    pop_bounded false [] h = h
    pop_bounded false (c ∷ stack) h = omega arith

-- Each operation has an effect or reports an error and leaves the stack as it was. A push, also by
-- `cudaConfigureCall`, that succeeds has put its configuration on top. A pop that succeeds has
-- written the configuration on top and taken it off, and nothing else.
done_or_failed :
    (c : LaunchConfig) (b : Bool) (stack : LaunchStack)
    → ((push_call_configuration c stack ≡ (c ∷ stack, cuda_success))
        ⊎ (push_call_configuration c stack ≡ (stack, error_invalid_value)))
      × ((configure_call c stack ≡ (c ∷ stack, cuda_success))
          ⊎ (configure_call c stack ≡ (stack, error_invalid_value)))
      × (((top : LaunchConfig) × (rest : LaunchStack) × (stack ≡ top ∷ rest)
            × (pop_call_configuration b stack ≡ (rest, cuda_success, some top)))
          ⊎ (((pop_call_configuration b stack).0 ≡ stack)
              × ((pop_call_configuration b stack).1 ≡ error_invalid_value)))
unfolding push_call_configuration configure_call pop_call_configuration
done_or_failed c b stack = (ground arith, ground arith, popped b stack)
  where
    popped :
        (b : Bool) (stack : LaunchStack)
        → ((top : LaunchConfig) × (rest : LaunchStack) × (stack ≡ top ∷ rest)
            × (pop_call_configuration b stack ≡ (rest, cuda_success, some top)))
          ⊎ (((pop_call_configuration b stack).0 ≡ stack)
              × ((pop_call_configuration b stack).1 ≡ error_invalid_value))
    popped true stack = inr (refl, refl)
    popped false [] = inr (refl, refl)
    popped false (c ∷ stack) = inl (c, stack, refl, refl)
