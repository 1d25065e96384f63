-- ===== src/Server/Backend.antt =====
-- The vendor driver behind server/corex_backend.c, which is no part of this repository.
-- Its answer to a call is a function of all calls made so far, the last one first.
use x_remote_runtime.Prelude.{ℕ, List, Bool, true, false}
use x_remote_runtime.Launch.{Dim3}

pub data CuResult : Type 0 where
  success invalid_value not_supported out_of_memory not_ready failed : CuResult

-- What a kernel parameter points to: an address, a word or bytes.
pub data KernelParam : Type 0 where
  ptr i32 u64 f32 : ℕ → KernelParam
  raw : List ℕ → KernelParam

-- The calls of the modelled handlers. A stream is its driver handle, 0 for the default stream. An
-- upload names its bytes, an asynchronous copy also the staging buffer that holds them.
pub data BackendCall : Type 0 where
  context_sync : BackendCall
  mem_alloc : ℕ → BackendCall
  mem_alloc_pitch : ℕ → ℕ → BackendCall
  mem_free : ℕ → BackendCall
  host_alloc : ℕ → BackendCall
  host_free : ℕ → BackendCall
  copy_h2d : ℕ → List ℕ → BackendCall
  copy_d2h : ℕ → ℕ → BackendCall
  copy_d2d : ℕ → ℕ → ℕ → BackendCall
  copy_d2d_async : ℕ → ℕ → ℕ → ℕ → BackendCall
  copy_h2d_async : ℕ → ℕ → List ℕ → ℕ → BackendCall
  copy_d2h_async : ℕ → ℕ → ℕ → ℕ → BackendCall
  memset_d8 : ℕ → ℕ → ℕ → BackendCall
  memset_d8_async : ℕ → ℕ → ℕ → ℕ → BackendCall
  memset_d2d8 : ℕ → ℕ → ℕ → ℕ → ℕ → BackendCall
  memset_d2d8_async : ℕ → ℕ → ℕ → ℕ → ℕ → ℕ → BackendCall
  stream_create : ℕ → BackendCall
  stream_create_priority : ℕ → ℕ → BackendCall
  stream_get_flags stream_get_priority stream_query stream_sync stream_destroy : ℕ → BackendCall
  stream_wait_event : ℕ → ℕ → ℕ → BackendCall
  event_create event_query event_sync event_destroy : ℕ → BackendCall
  event_record : ℕ → ℕ → BackendCall
  event_elapsed : ℕ → ℕ → BackendCall
  graph_destroy graph_exec_destroy : ℕ → BackendCall
  capture_exchange : BackendCall
  module_load : List ℕ → BackendCall
  module_unload : ℕ → BackendCall
  module_function : ℕ → List ℕ → BackendCall
  launch : ℕ → Dim3 → Dim3 → ℕ → ℕ → List KernelParam → BackendCall

-- `value` is the handle, pointer or scalar that the call writes, `pitch` the pitch of a pitched
-- allocation, and `bytes` what a copy to the host, or a finished transfer, has put there.
pub record Answer : Type 0 where
  pub result : CuResult
  pub value : ℕ
  pub pitch : ℕ
  pub bytes : List ℕ

-- The driver, and the constants of its header.
pub record Driver : Type 0 where
  pub answer : List BackendCall → Answer
  pub stream_default : ℕ
  pub stream_non_blocking : ℕ
  pub event_default : ℕ
  pub event_blocking_sync : ℕ
  pub event_disable_timing : ℕ

-- `r == CUDA_SUCCESS`
abbrev pub succeeds : CuResult → Bool
succeeds CuResult.success = true
succeeds _ = false
