-- ===== src/Server/Handlers/Overlap.antt =====
-- Device copies within one allocation: `handle_d2d` and `handle_d2d_async` of
-- server/runtime_server.c.
use x_remote_runtime.Prelude.{
  ℕ, ◌+◌, ◌^◌, ◌≤◌, ◌<◌, ◌≡◌, ◌≢◌, ◌⊎◌, inl, inr, arith, List, drop, some, false,
}
use x_remote_runtime.Protocol.Words.{read_u64}
use x_remote_runtime.Server.Backend.{Driver}
use x_remote_runtime.Server.Session.{World, Allocation, find_allocation}
use x_remote_runtime.Server.Memory.Copy.{overlaps, outside, handle_d2d, handle_d2d_async}

-- Two ranges of `n` bytes that share none.
abbrev pub AreDisjoint : ℕ → ℕ → ℕ → Type 0
AreDisjoint x y n = (x + n ≤ y) ⊎ (y + n ≤ x)

overlaps-AreDisjoint :
    (a : Allocation) (id x y n : ℕ)
    → a.size < 2 ^ 64
    → outside a a x y n ≡ false
    → overlaps id x id y n ≡ false
    → AreDisjoint x y n
unfolding overlaps outside
overlaps-AreDisjoint a id x y n small o v = ground arith

-- The request has passed the two tests of a copy within `a`.
abbrev Passed : Allocation → List ℕ → Type 0
Passed a p =
    (outside a a (read_u64 (drop 8 p)) (read_u64 (drop 24 p)) (read_u64 (drop 32 p)) ≡ false)
    × (overlaps (read_u64 p) (read_u64 (drop 8 p)) (read_u64 p) (read_u64 (drop 24 p))
          (read_u64 (drop 32 p))
        ≡ false)

Passed-AreDisjoint :
    (a : Allocation) (p : List ℕ)
    → a.size < 2 ^ 64
    → Passed a p
    → AreDisjoint (read_u64 (drop 8 p)) (read_u64 (drop 24 p)) (read_u64 (drop 32 p))
Passed-AreDisjoint a p small (o, v) =
    overlaps-AreDisjoint a (read_u64 p) (read_u64 (drop 8 p)) (read_u64 (drop 24 p))
      (read_u64 (drop 32 p)) small o v

module _ (d : Driver) (w : World) (p : List ℕ) {a : Allocation} where
  d2d-tests :
      find_allocation w.session (read_u64 p) ≡ some a
      → read_u64 (drop 16 p) ≡ read_u64 p
      → (handle_d2d d w p).0 ≢ w
      → Passed a p
  unfolding handle_d2d
  d2d-tests e same h = ground arith

  d2d_async-tests :
      find_allocation w.session (read_u64 p) ≡ some a
      → read_u64 (drop 16 p) ≡ read_u64 p
      → (handle_d2d_async d w p).0 ≢ w
      → Passed a p
  unfolding handle_d2d_async
  d2d_async-tests e same h = ground arith

  -- A device copy within one allocation of less than 2^64 bytes, synchronous or not, that does anything
  -- at all is between ranges that share no byte, although its test adds with wrap-around.
  pub d2d-AreDisjoint :
      find_allocation w.session (read_u64 p) ≡ some a
      → a.size < 2 ^ 64
      → read_u64 (drop 16 p) ≡ read_u64 p
      → ((handle_d2d d w p).0 ≢ w) ⊎ ((handle_d2d_async d w p).0 ≢ w)
      → AreDisjoint (read_u64 (drop 8 p)) (read_u64 (drop 24 p)) (read_u64 (drop 32 p))
  d2d-AreDisjoint e small same h = elim h [
    | inl x ↦ Passed-AreDisjoint a p small (d2d-tests e same x)
    | inr x ↦ Passed-AreDisjoint a p small (d2d_async-tests e same x)
  ]
