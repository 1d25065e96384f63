-- ===== src/Client/Launches/Direct.antt =====
-- `cudaLaunchKernel` of src/corex_remote_cuda.c from end to end.
use x_remote_runtime.Prelude.{
  ℕ, ◌+◌, ◌≤◌, ◌≡◌, refl, ap, ◌∙◌, arith, Option, some, List, [], true, false, length,
  if◌then◌else◌, Bool-cases, inl, inr,
}
use x_remote_runtime.Protocol.Words.{IsU32, IsU64}
use x_remote_runtime.Launch.{Dim3, cuda_success}
use x_remote_runtime.Server.Backend.{Driver, KernelParam, launch, succeeds}
use x_remote_runtime.Server.Session.{
  KernelEntry, ask, called, find_kernel, resolve_stream_id, reply, ok, cuda_error, max_payload,
}
use x_remote_runtime.Server.Dispatch.{BackendInfo, Serving}
use x_remote_runtime.Server.Handlers.{handler}
use x_remote_runtime.Server.Launches.{
  decoded, decode_kernel_launch, DecodedKernelLaunch, launch_call, handle_launch_generic,
}
use x_remote_runtime.Client.Rpc.{replied, remote_error}
use x_remote_runtime.Client.Calls.{Wire, as_done}
use x_remote_runtime.Client.Calls.Direct.{direct, handled, direct-launch}
use x_remote_runtime.Client.Arena.{Arena}
use x_remote_runtime.Client.Launches.{
  KernelHandle, serialized, args_length, resolve_kernel_reference, abi_ready, launch_payload,
  launch_on_stream,
}
use x_remote_runtime.Client.Launches.RoundTrip.Whole.{AllCarry, IsDim3, serialize_carried}

module _ {S : Type 0} (wire : Wire S) (payload : List ℕ) (s t : S) where
  launch_payload-done :
      (bytes : List ℕ)
      → wire 11 payload s ≡ (t, replied bytes)
      → launch_payload wire payload s ≡ (t, cuda_success)
  unfolding launch_payload as_done
  launch_payload-done bytes e = rw (e, launch_payload) (ap (λ x. (x.0, cuda_success)) e)

  launch_payload-failed :
      (status : ℕ)
      → wire 11 payload s ≡ (t, remote_error status)
      → (launch_payload wire payload s).0 ≡ t
  unfolding launch_payload as_done
  launch_payload-failed status e = rw (e, launch_payload) (ap (λ x. x.0) e)

module _ (d : Driver) (b : BackendInfo) (s : Serving) (l : DecodedKernelLaunch)
    (payload : List ℕ) where
  -- The launch is asked for, whatever comes of it.
  launch_payload-launches :
      s.capture_graph ≡ 0
      → length payload ≤ max_payload
      → decode_kernel_launch false s.world.session payload ≡ decoded l
      → ((launch_payload (direct d b) payload s).0
          ≡ record s { world = called (launch_call l) s.world; capture_allow_alloc = false })
        × (succeeds (ask d (launch_call l) s.world).result ≡ true
            → (launch_payload (direct d b) payload s).1 ≡ cuda_success)
  unfolding handler handle_launch_generic
  launch_payload-launches plain fits read =
      let after : Serving = record s {
        world = called (launch_call l) s.world;
        capture_allow_alloc = false;
      } in
      let status = if succeeds (ask d (launch_call l) s.world).result then ok else cuda_error in
      let answer : direct d b 11 payload s
          ≡ handled s (reply (called (launch_call l) s.world) status) =
        direct-launch d b payload s plain fits
        ∙ ap (handled s) (rw (read, handle_launch_generic) refl) in
      elim (Bool-cases (succeeds (ask d (launch_call l) s.world).result)) [
        | inl good ↦
            let done =
              launch_payload-done (direct d b) payload s after [] (answer ∙ rw good refl) in
            rw done (refl, λ _. refl)
        | inr bad ↦ (
          launch_payload-failed (direct d b) payload s after 3 (answer ∙ rw bad refl),
          λ e. absurd (ground (arith, e, bad)),
        )
      ]

-- `cudaLaunchKernel` of a ready kernel outside a capture, whose arguments all carry over to the session of
-- the server and whose kernel and stream the server knows, with no zero dimension of the grid or the
-- block, and with a request of at most 64 MiB: the server asks the driver for the launch of
-- exactly that function with the grid, the block, the shared memory, the stream and, in order, the
-- arguments of the call, for nothing else, changes no session, and if the driver has launched the result
-- is cudaSuccess.
pub launch_on_stream-launches :
    (d : Driver) (b : BackendInfo) (s : Serving) (m : Arena) (handles : List KernelHandle)
    (kh : KernelHandle) (k : KernelEntry) (func stream_id stream shared_mem : ℕ) (grid block : Dim3)
    (values : List (Option (List ℕ))) (params : List KernelParam)
    → s.capture_graph ≡ 0
    → resolve_kernel_reference m.session_generation handles func ≡ some kh
    → kh.abi_state ≡ abi_ready
    → find_kernel s.world.session kh.kernel_id ≡ some k
    → k.metadata_valid ≡ true
    → length k.metadata.args ≤ 32
    → resolve_stream_id s.world.session stream_id ≡ some stream
    → AllCarry m s.world.session kh.args values k.metadata.args params
    → ((n : ℕ) → args_length kh.args values ≡ serialized n → 48 + n ≤ max_payload)
    → IsU64 kh.kernel_id
    → IsU64 stream_id
    → IsDim3 grid
    → IsDim3 block
    → IsU32 shared_mem
    → ((launch_on_stream
          (direct d b)
          m
          handles
          func
          grid
          block
          (some values)
          shared_mem
          stream_id
          s).0
        ≡ record s {
          world = called (launch k.function grid block shared_mem stream params) s.world;
          capture_allow_alloc = false;
        })
      × (succeeds (ask d (launch k.function grid block shared_mem stream params) s.world).result
            ≡ true
          → (launch_on_stream
              (direct d b)
              m
              handles
              func
              grid
              block
              (some values)
              shared_mem
              stream_id
              s).1
            ≡ cuda_success)
unfolding launch_on_stream
launch_on_stream-launches d b s m handles kh k func stream_id stream shared_mem grid block values
      params plain known ready found valid few streams carry short i st g bl sh =
    let (payload, sent, read, (total, size, whole)) =
      serialize_carried m s.world.session handles kh k func stream_id stream shared_mem grid block
        values params known ready found valid few streams carry (λ n e. omega (arith, short n e)) i
        st g bl sh in
    let fits : length payload ≤ max_payload = omega (arith, whole, short total size) in
    let launches = launch_payload-launches d b s _ payload plain fits read in
    rw (sent, launch_on_stream) launches
