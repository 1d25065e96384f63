-- ===== src/Client/Regions/Fills.antt =====
-- `cudaMemset` of src/corex_remote_cuda.c from end to end.
use x_remote_runtime.Prelude.{
  ℕ, ◌%◌, ◌≤◌, ◌<◌, ◌≡◌, refl, ◌∙◌, some, none, arith, false, true, ◌==◌, Bool-cases, inl, inr,
}
use x_remote_runtime.Protocol.Words.{IsU64}
use x_remote_runtime.Server.Backend.{Driver, memset_d8, succeeds}
use x_remote_runtime.Server.Session.{Allocation, find_allocation, ask, add_u64, called}
use x_remote_runtime.Server.Dispatch.{BackendInfo, Serving}
use x_remote_runtime.Launch.{cuda_success}
use x_remote_runtime.Client.Calls.{Wire, remote_memset}
use x_remote_runtime.Client.Calls.Direct.{direct}
use x_remote_runtime.Client.Calls.Direct.Memory.{remote_memset-fills}
use x_remote_runtime.Client.Arena.{Arena, VirtualAllocation}
use x_remote_runtime.Client.Arena.Regions.{IsArena}
use x_remote_runtime.Client.Arena.Resolve.{Occurs, PointsInto, resolve_remote_ptr_iff}
use x_remote_runtime.Client.Regions.{cuda_memset, memset_at}

module _ {S : Type 0} (wire : Wire S) (id offset value count : ℕ) (s : S) where
  memset_at-done :
      (t : S)
      → remote_memset wire id offset value count s ≡ (t, some tt)
      → memset_at wire id offset value count s ≡ (t, cuda_success)
  unfolding memset_at
  memset_at-done t e = rw (e, memset_at) (rw e refl)

  memset_at-failed :
      (t : S)
      → remote_memset wire id offset value count s ≡ (t, none)
      → (memset_at wire id offset value count s).0 ≡ t
  unfolding memset_at
  memset_at-failed t e = rw (e, memset_at) (rw e refl)

-- `cudaMemset` of a mapped range of the client's arena, whose allocation the server knows with at least
-- this size, outside a capture: the server asks the driver for the fill of exactly that range with the low
-- byte of the value, for nothing else, changes no session, and if the driver has filled the result is
-- cudaSuccess.
pub cuda_memset-fills :
    (d : Driver) (b : BackendInfo) (s : Serving) (m : Arena) (v : VirtualAllocation)
    (a : Allocation) (ptr value count offset : ℕ)
    → IsArena m
    → Occurs v m.allocs
    → PointsInto m.session_generation ptr count v.allocation_id offset v
    → s.capture_graph ≡ 0
    → find_allocation s.world.session v.allocation_id ≡ some a
    → v.size ≤ a.size
    → IsU64 v.allocation_id
    → IsU64 a.size
    → 0 < ptr
    → 0 < count
    → ((cuda_memset (direct d b) m ptr value count s).0 ≡ record s {
      world = called (memset_d8 (add_u64 a.ptr offset) (value % 256) count) s.world;
      capture_allow_alloc = false;
    })
      × (succeeds (ask d (memset_d8 (add_u64 a.ptr offset) (value % 256) count) s.world).result
            ≡ true
          → (cuda_memset (direct d b) m ptr value count s).1 ≡ cuda_success)
unfolding cuda_memset
cuda_memset-fills d b s m v a ptr value count offset valid here h plain found large i n p c =
    let id = v.allocation_id in
    let call = memset_d8 (add_u64 a.ptr offset) (value % 256) count in
    let after : Serving = record s { world = called call s.world; capture_allow_alloc = false } in
    let resolved = (resolve_remote_ptr_iff m ptr count id offset valid).1 (v, here, h) in
    let fills =
      remote_memset-fills d b s id offset a (value % 256) count plain found i
        (omega (arith, h.fits)) (omega (arith, h.fits)) (omega arith) (omega (arith, h.fits)) in
    let some_bytes : (count == 0) ≡ false = ground arith in
    let not_null : (ptr == 0) ≡ false = ground arith in
    elim (Bool-cases (succeeds (ask d call s.world).result)) [
      | inl good ↦
          let done =
            memset_at-done (direct d b) id offset (value % 256) count s after
              (fills ∙ rw good refl) in
          rw (some_bytes, not_null, resolved, done) (refl, λ _. refl)
      | inr bad ↦
          let failed =
            memset_at-failed (direct d b) id offset (value % 256) count s after
              (fills ∙ rw bad refl) in
          rw (some_bytes, not_null, resolved) (failed, λ e. absurd (ground (arith, e, bad)))
    ]
