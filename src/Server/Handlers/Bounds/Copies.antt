-- ===== src/Server/Handlers/Bounds/Copies.antt =====
-- The memory that the copy handlers of server/runtime_server.c touch.
use x_remote_runtime.Prelude.{
  ℕ, ◌+◌, ◌≤◌, ◌≡◌, ◌⊎◌, inl, inr, refl, arith, List, ◌∷◌, length, drop, length-drop, some, Bool,
  false,
}
use x_remote_runtime.Protocol.Words.{read_u64}
use x_remote_runtime.Server.Backend.{Driver, copy_h2d, copy_d2h, copy_d2d, copy_d2d_async}
use x_remote_runtime.Server.Session.{World, Allocation, find_allocation, resolve_stream_id, add_u64}
use x_remote_runtime.Server.Memory.Copy.{
  handle_h2d, handle_d2h, handle_d2d, handle_d2d_async, outside,
}
use x_remote_runtime.Server.Handlers.Calls.{InAllocation, RanSafely, Ran-none, Ran-one, Ran-found}

module _ (d : Driver) (w : World) (p : List ℕ) where
  h2d_calls :
      (a : Allocation)
      → find_allocation w.session (read_u64 p) ≡ some a
      → ((handle_h2d d w p).0.calls ≡ w.calls)
        ⊎ (((handle_h2d d w p).0.calls
              ≡ copy_h2d (add_u64 a.ptr (read_u64 (drop 8 p))) (drop 24 p) ∷ w.calls)
            × (read_u64 (drop 8 p) + length (drop 24 p) ≤ a.size))
  unfolding handle_h2d
  h2d_calls a e = ground (arith, length-drop 24 p)

  pub h2d-RanSafely : RanSafely w (handle_h2d d w p).0
  unfolding handle_h2d
  h2d-RanSafely =
      Ran-found (find_allocation w.session (read_u64 p)) (λ e. ground (arith, e))
        λ a e. elim (h2d_calls a e) [
          | inl same ↦ Ran-none same
          | inr (one, fits) ↦ Ran-one _ (inr (one, (_, _, a, e, refl, fits)))
        ]

  d2h_calls :
      (a : Allocation)
      → find_allocation w.session (read_u64 p) ≡ some a
      → ((handle_d2h d w p).0.calls ≡ w.calls)
        ⊎ (((handle_d2h d w p).0.calls
              ≡ copy_d2h (add_u64 a.ptr (read_u64 (drop 8 p))) (read_u64 (drop 16 p)) ∷ w.calls)
            × (read_u64 (drop 8 p) + read_u64 (drop 16 p) ≤ a.size))
  unfolding handle_d2h
  d2h_calls a e = ground arith

  pub d2h-RanSafely : RanSafely w (handle_d2h d w p).0
  unfolding handle_d2h
  d2h-RanSafely =
      Ran-found (find_allocation w.session (read_u64 p)) (λ e. ground (arith, e))
        λ a e. elim (d2h_calls a e) [
          | inl same ↦ Ran-none same
          | inr (one, fits) ↦ Ran-one _ (inr (one, (_, _, a, e, refl, fits)))
        ]

module _ (d : Driver) (w : World) (p : List ℕ) (a b : Allocation)
    (e : find_allocation w.session (read_u64 p) ≡ some a)
    (e' : find_allocation w.session (read_u64 (drop 16 p)) ≡ some b) where
  abbrev is_outside : Bool
  is_outside = outside a b (read_u64 (drop 8 p)) (read_u64 (drop 24 p)) (read_u64 (drop 32 p))

  abbrev Fit : Type 0
  Fit =
      (read_u64 (drop 8 p) + read_u64 (drop 32 p) ≤ a.size)
      × (read_u64 (drop 24 p) + read_u64 (drop 32 p) ≤ b.size)

  inside-Fit : is_outside ≡ false → Fit
  unfolding outside
  inside-Fit h = ground arith

  both_in :
      Fit
      → InAllocation w.session (add_u64 a.ptr (read_u64 (drop 8 p))) (read_u64 (drop 32 p))
        × InAllocation w.session (add_u64 b.ptr (read_u64 (drop 24 p))) (read_u64 (drop 32 p))
  both_in (fa, fb) = ((_, _, a, e, refl, fa), (_, _, b, e', refl, fb))

  d2d_calls :
      ((handle_d2d d w p).0.calls ≡ w.calls)
      ⊎ (((handle_d2d d w p).0.calls
            ≡ copy_d2d
                (add_u64 a.ptr (read_u64 (drop 8 p)))
                (add_u64 b.ptr (read_u64 (drop 24 p)))
                (read_u64 (drop 32 p))
              ∷ w.calls)
          × Fit)
  unfolding handle_d2d
  d2d_calls = ground (arith, inside-Fit)

  d2d_async_calls :
      (stream : ℕ)
      → resolve_stream_id w.session (read_u64 (drop 40 p)) ≡ some stream
      → ((handle_d2d_async d w p).0.calls ≡ w.calls)
        ⊎ (((handle_d2d_async d w p).0.calls
              ≡ copy_d2d_async
                  (add_u64 a.ptr (read_u64 (drop 8 p)))
                  (add_u64 b.ptr (read_u64 (drop 24 p)))
                  (read_u64 (drop 32 p))
                  stream
                ∷ w.calls)
            × Fit)
  unfolding handle_d2d_async
  d2d_async_calls stream h = ground (arith, inside-Fit)

  d2d_found : RanSafely w (handle_d2d d w p).0
  d2d_found = elim d2d_calls [
    | inl same ↦ Ran-none same
    | inr (one, fit) ↦ Ran-one _ (inr (one, both_in fit))
  ]

  d2d_async_found : RanSafely w (handle_d2d_async d w p).0
  unfolding handle_d2d_async
  d2d_async_found =
      Ran-found (resolve_stream_id w.session (read_u64 (drop 40 p))) (λ h. ground arith)
        λ stream h. elim (d2d_async_calls stream h) [
          | inl same ↦ Ran-none same
          | inr (one, fit) ↦ Ran-one _ (inr (one, both_in fit))
        ]

module _ (d : Driver) (w : World) (p : List ℕ) where
  pub d2d-RanSafely : RanSafely w (handle_d2d d w p).0
  unfolding handle_d2d
  d2d-RanSafely =
      Ran-found (find_allocation w.session (read_u64 p)) (λ e. ground arith)
        λ a e.
          Ran-found (find_allocation w.session (read_u64 (drop 16 p))) (λ e'. ground arith)
            λ b e'. d2d_found d w p a b e e'

  pub d2d_async-RanSafely : RanSafely w (handle_d2d_async d w p).0
  unfolding handle_d2d_async
  d2d_async-RanSafely =
      Ran-found (find_allocation w.session (read_u64 p)) (λ e. ground arith)
        λ a e.
          Ran-found (find_allocation w.session (read_u64 (drop 16 p))) (λ e'. ground arith)
            λ b e'. d2d_async_found d w p a b e e'
