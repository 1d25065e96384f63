-- ===== src/Metadata/Reader/Skip.antt =====
-- `mp_skip` of src/corex_metadata.c ends, and in its buffer.
use x_remote_runtime.Prelude.{ℕ, zero, suc, ◌+◌, ◌*◌, ◌%◌, ◌^◌, ◌≤◌, ◌<◌, arith, List, length}
use x_remote_runtime.Bytes.{Outcome}
use x_remote_runtime.Bytes.Ensures.{Ensures, Ensures-mono, bind-Ensures}
use x_remote_runtime.Metadata.Reader.{
  mp_get_u8, mp_get_be, Shape, scalar, unsupported, payload, sized, items, counted, mp_shape,
  mp_skip_bytes, mp_skip_n, mp_skip_rest, mp_skip,
}
use x_remote_runtime.Metadata.Reader.Bounds.{From, need-Ensures, mp_get_be-Reads, mp_get_u8-ReadsOn}

module _ (bytes : List ℕ) where
  mp_skip_bytes-From :
      (n p : ℕ) → p ≤ length bytes → Ensures (From bytes p) (mp_skip_bytes n bytes p)
  unfolding mp_skip_bytes
  mp_skip_bytes-From n p h = need-Ensures bytes (From bytes p) n p _ h λ room. (omega arith, room)

  mp_skip_n-From :
      (skip : ℕ → Outcome ℕ) (n p : ℕ)
      → p ≤ length bytes
      → ((q : ℕ) → p ≤ q → q ≤ length bytes → Ensures (From bytes (q + 1)) (skip q))
      → Ensures (From bytes p) (mp_skip_n n skip p)
  unfolding mp_skip_n
  mp_skip_n-From skip zero p h k = (omega arith, h)
  mp_skip_n-From skip (suc n) p h k =
      bind-Ensures (From bytes p) (From bytes (p + 1)) (skip p) (mp_skip_n n skip)
        (k p (omega arith) h)
        λ q (low, high).
          Ensures-mono (From bytes p) (From bytes q) (mp_skip_n n skip q)
            (mp_skip_n-From skip n q high λ q' from to. k q' (omega arith) to)
            λ q' (from, to). (omega arith, to)

  -- After the first byte.
  shape-From :
      (skip : ℕ → Outcome ℕ) (shape : Shape) (p : ℕ)
      → p ≤ length bytes
      → ((q : ℕ) → p ≤ q → q ≤ length bytes → Ensures (From bytes (q + 1)) (skip q))
      → Ensures (From bytes p) (mp_skip_rest shape skip bytes p)
  unfolding mp_skip_rest
  shape-From skip scalar p h k = (omega arith, h)
  shape-From skip unsupported p h k = tt
  shape-From skip (payload n) p h k = mp_skip_bytes-From n p h
  shape-From skip (sized w) p h k =
      bind-Ensures (From bytes p) (λ r. From bytes p r.1) (mp_get_be w bytes p) _
        (mp_get_be-Reads bytes w p h)
        λ (n, q) (low, high).
          Ensures-mono (From bytes p) (From bytes q) (mp_skip_bytes n bytes q)
            (mp_skip_bytes-From n q high) λ q' (from, to). (omega arith, to)
  shape-From skip (items n) p h k = mp_skip_n-From skip n p h k
  shape-From skip (counted w m) p h k =
      bind-Ensures (From bytes p) (λ r. From bytes p r.1) (mp_get_be w bytes p) _
        (mp_get_be-Reads bytes w p h)
        λ (n, q) (low, high).
          Ensures-mono (From bytes p) (From bytes q) (mp_skip_n (m * n % 2 ^ 32) skip q)
            (mp_skip_n-From skip (m * n % 2 ^ 32) q high λ q' from to. k q' (omega arith) to)
            λ q' (from, to). (omega arith, to)

  -- `mp_skip` reads no byte outside its buffer, its recursion ends, and the position that it reports is
  -- past the one where it starts and in the buffer; so fuel for the bytes that are left is enough.
  pub mp_skip-From :
      (fuel pos : ℕ)
      → pos ≤ length bytes
      → length bytes < pos + fuel
      → Ensures (From bytes (pos + 1)) (mp_skip fuel bytes pos)
  unfolding mp_skip
  mp_skip-From zero pos h enough = absurd (omega arith)
  mp_skip-From (suc fuel) pos h enough =
      bind-Ensures (From bytes (pos + 1)) (λ r. From bytes (pos + 1) r.1) (mp_get_u8 bytes pos) _
        (mp_get_u8-ReadsOn bytes pos h)
        λ (c, p) (low, high).
          Ensures-mono (From bytes (pos + 1)) (From bytes p)
            (mp_skip_rest (mp_shape c) (mp_skip fuel bytes) bytes p)
            (shape-From (mp_skip fuel bytes) (mp_shape c) p high
              λ q from to. mp_skip-From fuel q to (omega arith))
            λ q (from, to). (omega arith, to)
