-- ===== src/Client/Copies/Uploads.antt =====
-- `cudaMemcpy` to the device of src/corex_remote_cuda.c, from end to end.
use x_remote_runtime.Prelude.{
  ℕ, zero, suc, ◌+◌, ◌≤◌, ◌<◌, ◌≡◌, ◌≢◌, refl, ap, ◌∙◌, arith, Option, none, some, List, [], ◌∷◌,
  ◌++◌, true, false, ◌==◌, length, take, drop, length-take, length-drop, Bool-cases, Option-cases,
  inl, inr,
}
use x_remote_runtime.Protocol.Words.{IsU64}
use x_remote_runtime.Server.Backend.{Driver, copy_h2d, succeeds}
use x_remote_runtime.Server.Session.{Allocation, World, find_allocation, ask, add_u64, called}
use x_remote_runtime.Server.Dispatch.{BackendInfo, Serving}
use x_remote_runtime.Launch.{CudaError, cuda_success}
use x_remote_runtime.Client.Rpc.{map_last_rpc_error-ne-success}
use x_remote_runtime.Client.Calls.{Wire, remote_h2d}
use x_remote_runtime.Client.Calls.Direct.{direct}
use x_remote_runtime.Client.Calls.Direct.Memory.{after_call, remote_h2d-copies}
use x_remote_runtime.Client.Arena.{Arena, VirtualAllocation, pointer_in_remote_arena}
use x_remote_runtime.Client.Arena.Regions.{IsArena}
use x_remote_runtime.Client.Arena.Resolve.{Occurs, PointsInto, resolve_remote_ptr_iff}
use x_remote_runtime.Client.Copies.{
  Copied, finish, copy_chunk, upload_chunks, upload_error, copy_to_device, memcpy_in, direction,
  cuda_memcpy, host_to_device,
}

take-append-drop : (n : ℕ) (xs : List ℕ) → xs ≡ take n xs ++ drop n xs
take-append-drop zero xs = refl
take-append-drop (suc n) [] = refl
take-append-drop (suc n) (x ∷ xs) = ap (◌∷◌ x) (take-append-drop n xs)

abbrev pub after_copy : Allocation → ℕ → List ℕ → Serving → Serving
after_copy a offset bytes s = record s {
  world = called (copy_h2d (add_u64 a.ptr offset) bytes) s.world;
  capture_allow_alloc = false;
}

-- The driver has put the bytes at the offset of the memory of the allocation, in pieces that follow each
-- other and leave nothing out, and has made no other call on the way from the one state to the other.
pub data Uploaded (d : Driver) (a : Allocation) (t : Serving) : ℕ → List ℕ → Serving → Type 0 where
  no_bytes : {offset : ℕ} → Uploaded d a t offset [] t
  one_piece :
      {offset : ℕ} {s : Serving} {host : List ℕ} (piece rest : List ℕ)
      → host ≡ piece ++ rest
      → succeeds (ask d (copy_h2d (add_u64 a.ptr offset) piece) s.world).result ≡ true
      → Uploaded d a t (offset + length piece) rest (after_copy a offset piece s)
      → Uploaded d a t offset host s

module _ {S : Type 0} (wire : Wire S) (fuel id offset x : ℕ) (host : List ℕ) (s t : S) where
  upload_chunks-sent :
      remote_h2d wire id offset (take copy_chunk (x ∷ host)) s ≡ (t, some tt)
      → upload_chunks wire (suc fuel) id offset (x ∷ host) s
        ≡ upload_chunks wire fuel id
            (offset + length (take copy_chunk (x ∷ host)))
            (drop copy_chunk (x ∷ host))
            t
  unfolding upload_chunks
  upload_chunks-sent e = rw (e, upload_chunks) (rw e refl)

  upload_chunks-failed :
      remote_h2d wire id offset (take copy_chunk (x ∷ host)) s ≡ (t, none)
      → (upload_chunks wire (suc fuel) id offset (x ∷ host) s).error
        ≡ some (upload_error wire id offset (take copy_chunk (x ∷ host)) s)
  unfolding upload_chunks
  upload_chunks-failed e = rw (e, upload_chunks) refl

upload_error-ne-success :
    {S : Type 0} (wire : Wire S) (id offset : ℕ) (piece : List ℕ) (s : S)
    → upload_error wire id offset piece s ≢ cuda_success
upload_error-ne-success wire id offset piece s = map_last_rpc_error-ne-success _

-- The loop ends well only if everything is uploaded, and does so if the driver takes every copy.
abbrev EndsWell : Driver → Allocation → Serving → ℕ → List ℕ → Serving → Option CudaError → Type 0
EndsWell d a s offset host t error =
    (error ≡ none → Uploaded d a t offset host s)
    × (((c : ℕ) (bytes : List ℕ) (w : World) → succeeds (ask d (copy_h2d c bytes) w).result ≡ true)
        → error ≡ none)
    × ((e : CudaError) → error ≡ some e → e ≢ cuda_success)

module _ (d : Driver) (b : BackendInfo) (id : ℕ) (a : Allocation) (i : IsU64 id)
    (n : IsU64 a.size) where
  -- One round asks the driver for one copy.
  round-copies :
      (offset x : ℕ) (host : List ℕ) (s : Serving)
      → s.capture_graph ≡ 0
      → find_allocation s.world.session id ≡ some a
      → offset + length (x ∷ host) ≤ a.size
      → remote_h2d (direct d b) id offset (take copy_chunk (x ∷ host)) s
        ≡ after_call d (copy_h2d (add_u64 a.ptr offset) (take copy_chunk (x ∷ host))) s
  round-copies offset x host s plain found room =
      let size = length-take copy_chunk (x ∷ host) in
      remote_h2d-copies d b s id offset a (take copy_chunk (x ∷ host)) plain found i
        (omega (arith, n)) (omega (arith, size)) (omega (arith, size))

  upload_chunks-EndsWell :
      (fuel offset : ℕ) (host : List ℕ) (s : Serving)
      → length host < fuel
      → s.capture_graph ≡ 0
      → find_allocation s.world.session id ≡ some a
      → offset + length host ≤ a.size
      → let r = upload_chunks (direct d b) fuel id offset host s in
        EndsWell d a s offset host r.peer r.error
  upload_chunks-EndsWell zero offset host s short plain found room = absurd (omega arith)
  upload_chunks-EndsWell (suc fuel) offset [] s short plain found room =
      unfold upload_chunks in
      ((λ _. Uploaded.no_bytes), (λ _. refl), (λ e h. absurd (ground (arith, h))))
  upload_chunks-EndsWell (suc fuel) offset (x ∷ host) s short plain found room =
      let piece = take copy_chunk (x ∷ host) in
      let rest = drop copy_chunk (x ∷ host) in
      let copy = copy_h2d (add_u64 a.ptr offset) piece in
      let round = round-copies offset x host s plain found room in
      let s' = after_copy a offset piece s in
      let size = length-take copy_chunk (x ∷ host) in
      let left = length-drop copy_chunk (x ∷ host) in
      elim (Bool-cases (succeeds (ask d copy s.world).result)) [
        | inl good ↦
            let sent =
              upload_chunks-sent (direct d b) fuel id offset x host s s' (round ∙ rw good refl) in
            let (sound, live, errors) =
              upload_chunks-EndsWell fuel (offset + length piece) rest s' (omega (arith, left))
                plain found (omega (arith, size, left)) in
            rw sent (
              (λ e.
                  Uploaded.one_piece piece rest (take-append-drop copy_chunk (x ∷ host)) good
                    (sound e)),
              live,
              errors,
            )
        | inr bad ↦
            let failed =
              upload_chunks-failed (direct d b) fuel id offset x host s s' (round ∙ rw bad refl) in
            rw failed (
              (λ e. absurd (ground (arith, e))),
              (λ all. absurd (ground (arith, bad, all (add_u64 a.ptr offset) piece s.world))),
              (λ e h success.
                  upload_error-ne-success (direct d b) id offset piece s
                    (ground (arith, h, success))),
            )
      ]

-- `cudaMemcpy` of host bytes to a mapped range of the client's arena, whose allocation the server knows
-- with at least this size, outside a capture: it returns cudaSuccess only if the driver has put every
-- byte at its place in that allocation and has made no other call on the way, and it does return
-- cudaSuccess if the driver takes every copy.
pub cuda_memcpy-uploads :
    (d : Driver) (b : BackendInfo) (s : Serving) (m : Arena) (v : VirtualAllocation)
    (a : Allocation) (dst src offset : ℕ) (host : List ℕ)
    → IsArena m
    → Occurs v m.allocs
    → PointsInto m.session_generation dst (length host) v.allocation_id offset v
    → s.capture_graph ≡ 0
    → find_allocation s.world.session v.allocation_id ≡ some a
    → v.size ≤ a.size
    → IsU64 v.allocation_id
    → IsU64 a.size
    → 0 < dst
    → 0 < src
    → 0 < length host
    → pointer_in_remote_arena m src ≡ false
    → let r = cuda_memcpy (direct d b) m dst src host (length host) host_to_device s in
      (r.2 ≡ cuda_success → Uploaded d a r.0 offset host s)
      × (((c : ℕ) (bytes : List ℕ) (w : World)
            → succeeds (ask d (copy_h2d c bytes) w).result ≡ true)
          → r.2 ≡ cuda_success)
unfolding cuda_memcpy direction memcpy_in copy_to_device
cuda_memcpy-uploads d b s m v a dst src offset host valid here h plain found large i n p q c away =
    let id = v.allocation_id in
    let resolved = (resolve_remote_ptr_iff m dst (length host) id offset valid).1 (v, here, h) in
    let some_bytes : (length host == 0) ≡ false = ground arith in
    let dst_given : (dst == 0) ≡ false = ground arith in
    let src_given : (src == 0) ≡ false = ground arith in
    let loop =
      upload_chunks-EndsWell d b id a i n (suc (length host)) offset host s (omega arith) plain
        found (omega (arith, h.fits)) in
    rw (some_bytes, dst_given, src_given, away, resolved)
      (well (upload_chunks (direct d b) (suc (length host)) id offset host s) loop)
  where
    well :
        (r : Copied Serving)
        → EndsWell d a s offset host r.peer r.error
        → ((finish r).2 ≡ cuda_success → Uploaded d a (finish r).0 offset host s)
          × (((c : ℕ) (bytes : List ℕ) (w : World)
                → succeeds (ask d (copy_h2d c bytes) w).result ≡ true)
              → (finish r).2 ≡ cuda_success)
    well r (sound, live, errors) = elim (Option-cases r.error) [
      | inl fine ↦ rw fine ((λ _. sound fine), λ _. refl)
      | inr (e, bad) ↦ rw bad (
        (λ success. absurd (errors e bad success)),
        λ all. absurd (ground (arith, bad, live all)),
      )
    ]
