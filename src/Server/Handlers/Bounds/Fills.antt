-- ===== src/Server/Handlers/Bounds/Fills.antt =====
-- The memory that the memset handlers of server/runtime_server.c touch.
use x_remote_runtime.Prelude.{
  ℕ, ◌+◌, ◌-◌, ◌*◌, ◌%◌, ◌≤◌, ◌≡◌, ◌⊎◌, inl, inr, refl, arith, List, ◌∷◌, drop, some, Bool, true,
  false, if◌then◌else◌,
}
use x_remote_runtime.Protocol.Words.{read_u32, read_u64}
use x_remote_runtime.Server.Backend.{Driver, BackendCall, memset_d2d8, memset_d2d8_async}
use x_remote_runtime.Server.Session.{World, Allocation, find_allocation, resolve_stream_id, add_u64}
use x_remote_runtime.Server.Memory.Fill.{
  MemsetRequest, decode_memset_payload, handle_memset, handle_memset_async, handle_memset_2d,
  bad_rectangle, reply_result,
}
use x_remote_runtime.Server.Handlers.Calls.{
  InAllocation, IsSafe, RanSafely, Ran-none, Ran-one, Ran-found,
}

reply_result-calls :
    (d : Driver) (c : BackendCall) (w : World) → (reply_result d c w).0.calls ≡ c ∷ w.calls
reply_result-calls d c w = ground arith

-- The rectangle that the tests let through ends inside the allocation.
bad_rectangle-false :
    (a : Allocation) (offset pitch width height : ℕ)
    → bad_rectangle a offset pitch width height ≡ false
    → offset + ((height - 1) * pitch + width) ≤ a.size
unfolding bad_rectangle
bad_rectangle-false a offset pitch width height h = grind arith

module _ (d : Driver) (w : World) (p : List ℕ) where
  decode_memset_bounds :
      (async : Bool) (r : MemsetRequest)
      → decode_memset_payload w.session p async ≡ some r
      → InAllocation w.session (add_u64 r.allocation.ptr r.offset) r.bytes
  unfolding decode_memset_payload
  decode_memset_bounds async r e =
      (read_u64 p, r.offset, r.allocation, ground arith, refl, ground arith)

  pub memset-RanSafely : RanSafely w (handle_memset d w p).0
  unfolding handle_memset
  memset-RanSafely =
      Ran-found (decode_memset_payload w.session p false) (λ e. ground arith)
        λ r e.
          rw (e, handle_memset)
            (Ran-one _ (inr (reply_result-calls d _ w, decode_memset_bounds false r e)))

  pub memset_async-RanSafely : RanSafely w (handle_memset_async d w p).0
  unfolding handle_memset_async
  memset_async-RanSafely =
      Ran-found (decode_memset_payload w.session p true) (λ e. ground arith)
        λ r e.
          rw (e, handle_memset_async)
            (Ran-one _ (inr (reply_result-calls d _ w, decode_memset_bounds true r e)))

  -- The call of a pitched fill.
  abbrev fill_call : Bool → Allocation → ℕ → BackendCall
  fill_call async a stream =
      let target = add_u64 a.ptr (read_u64 (drop 8 p)) in
      if async
      then memset_d2d8_async target (read_u64 (drop 16 p)) (read_u32 (drop 40 p) % 256)
          (read_u64 (drop 24 p)) (read_u64 (drop 32 p)) stream
      else memset_d2d8 target (read_u64 (drop 16 p)) (read_u32 (drop 40 p) % 256)
          (read_u64 (drop 24 p)) (read_u64 (drop 32 p))

  fill_call-IsSafe :
      (async : Bool) (a : Allocation) (stream : ℕ)
      → InAllocation w.session
          (add_u64 a.ptr (read_u64 (drop 8 p)))
          ((read_u64 (drop 32 p) - 1) * read_u64 (drop 16 p) + read_u64 (drop 24 p))
      → IsSafe w.session (fill_call async a stream)
  fill_call-IsSafe true a stream h = h
  fill_call-IsSafe false a stream h = h

  memset_2d_calls :
      (async : Bool) (stream : ℕ) (a : Allocation)
      → (if async then resolve_stream_id w.session (read_u64 (drop 44 p)) else some 0) ≡ some stream
      → find_allocation w.session (read_u64 p) ≡ some a
      → ((handle_memset_2d d async w p).0.calls ≡ w.calls)
        ⊎ (((handle_memset_2d d async w p).0.calls ≡ fill_call async a stream ∷ w.calls)
            × (read_u64 (drop 8 p)
                  + ((read_u64 (drop 32 p) - 1) * read_u64 (drop 16 p) + read_u64 (drop 24 p))
                ≤ a.size))
  unfolding handle_memset_2d
  memset_2d_calls async stream a h e = ground (
    arith,
    bad_rectangle-false a (read_u64 (drop 8 p)) (read_u64 (drop 16 p)) (read_u64 (drop 24 p))
        (read_u64 (drop 32 p)),
  )

  pub memset_2d-RanSafely : (async : Bool) → RanSafely w (handle_memset_2d d async w p).0
  unfolding handle_memset_2d
  memset_2d-RanSafely async =
      Ran-found (if async then resolve_stream_id w.session (read_u64 (drop 44 p)) else some 0)
        (λ h. ground arith)
        λ stream h.
          Ran-found (find_allocation w.session (read_u64 p)) (λ e. ground arith)
            λ a e. elim (memset_2d_calls async stream a h e) [
              | inl same ↦ Ran-none same
              | inr (one, fits) ↦
                  Ran-one _ (inr (one, fill_call-IsSafe async a stream (_, _, a, e, refl, fits)))
            ]
