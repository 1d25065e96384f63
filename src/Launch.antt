-- ===== src/Launch.antt =====
-- The launch configuration stack of src/corex_launch_config.c.
pub mod Lifo
mod Tests
use x_remote_runtime.Prelude.{
  ℕ, List, [], ◌∷◌, Option, none, some, Bool, true, false, not, ◌==◌, ◌||◌, leb, if◌then◌else◌,
  length,
}

-- The results of the CUDA header, without their numbers.
pub data CudaError : Type 0 where
  cuda_success error_invalid_value error_memory_allocation error_initialization : CudaError
  error_invalid_device error_invalid_device_pointer error_invalid_symbol : CudaError
  error_invalid_memcpy_direction error_invalid_resource_handle error_symbol_not_found : CudaError
  error_not_ready error_host_memory_already_registered error_host_memory_not_registered : CudaError
  error_not_supported error_stream_capture_unsupported error_stream_capture_invalidated : CudaError
  error_stream_capture_wrong_thread error_graph_exec_update_failure : CudaError
  error_operating_system error_unknown : CudaError

pub record Dim3 : Type 0 where
  pub x : ℕ
  pub y : ℕ
  pub z : ℕ

-- A stream is its pointer, 0 for `NULL`.
pub record LaunchConfig : Type 0 where
  pub grid : Dim3
  pub block : Dim3
  pub shared_mem : ℕ
  pub stream : ℕ

abbrev pub launch_config_stack_max : ℕ
launch_config_stack_max = 32

-- The used cells of a thread's `g_g8a_launch_stack`, the last one first. Its length is
-- `g_g8a_launch_depth`.
abbrev pub LaunchStack : Type 0
LaunchStack = List LaunchConfig

unfoldable pub push_call_configuration : LaunchConfig → LaunchStack → LaunchStack × CudaError
push_call_configuration config stack =
    if leb launch_config_stack_max (length stack)
    then (stack, error_invalid_value)
    else (config ∷ stack, cuda_success)

abbrev pub zero_config : LaunchConfig
zero_config = record {
  grid = record { x = 0; y = 0; z = 0 };
  block = record { x = 0; y = 0; z = 0 };
  shared_mem = 0;
  stream = 0;
}

-- The flag says that an output pointer is null. The last component is what is written to the outputs.
unfoldable pub pop_call_configuration :
    Bool → LaunchStack → LaunchStack × CudaError × Option LaunchConfig
pop_call_configuration true stack = (stack, error_invalid_value, none)
pop_call_configuration false [] = ([], error_invalid_value, some zero_config)
pop_call_configuration false (config ∷ stack) = (stack, cuda_success, some config)

abbrev pub is_empty_dim : Dim3 → Bool
is_empty_dim d = d.x == 0 || d.y == 0 || d.z == 0

unfoldable pub configure_call : LaunchConfig → LaunchStack → LaunchStack × CudaError
unfolding push_call_configuration
configure_call config stack =
    if is_empty_dim config.grid || is_empty_dim config.block
    then (stack, error_invalid_value)
    else push_call_configuration config stack
