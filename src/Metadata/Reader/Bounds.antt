-- ===== src/Metadata/Reader/Bounds.antt =====
-- Where the functions of the MessagePack reader of src/corex_metadata.c stop.
use x_remote_runtime.Prelude.{
  ℕ, ◌+◌, ◌-◌, ◌*◌, ◌^◌, ◌≤◌, ◌<◌, arith, List, Bool, true, false, not, ltb, leb, ◌==◌,
  if◌then◌else◌, length, drop, length-take,
}
use x_remote_runtime.Bytes.{Outcome, reject, accept, ◌>>=◌, ◌>>◌}
use x_remote_runtime.Bytes.Ensures.{
  Ensures, Ensures-mono, bind-Ensures, check-Ensures, rd-accept, rd_be-accept, rd_bytes-accept,
}
use x_remote_runtime.Metadata.Reader.{
  mp_need, mp_get_u8, mp_get_be, mp_read_map_len, mp_read_array_len, mp_string_len, mp_read_string,
  mp_get_nonnegative, mp_read_uint64,
}

-- A position not before `pos`, in the buffer.
abbrev pub From : List ℕ → ℕ → ℕ → Type 0
From bytes pos p = (pos ≤ p) × (p ≤ length bytes)

-- A reader that has gone on to such a position, beside its result.
abbrev pub Reads : {A : Type 0} → List ℕ → ℕ → Outcome (A × ℕ) → Type 0
Reads bytes pos o = Ensures (λ r. From bytes pos r.1) o

-- One that has read a byte at least.
abbrev pub ReadsOn : {A : Type 0} → List ℕ → ℕ → Outcome (A × ℕ) → Type 0
ReadsOn bytes pos o = Ensures (λ r. From bytes (pos + 1) r.1) o

module _ (bytes : List ℕ) where
  pub need-Ensures :
      {A : Type 0} (Q : A → Type 0) (n pos : ℕ) (m : Outcome A)
      → pos ≤ length bytes
      → (pos + n ≤ length bytes → Ensures Q m)
      → Ensures Q (mp_need bytes pos n >> m)
  unfolding mp_need
  need-Ensures Q n pos m h k =
      check-Ensures Q (not (ltb (length bytes - pos) n)) m (λ e. k (ground arith))

  pub mp_get_be-Reads : (n pos : ℕ) → pos ≤ length bytes → Reads bytes pos (mp_get_be n bytes pos)
  unfolding mp_get_be
  mp_get_be-Reads n pos h =
      need-Ensures (λ r. From bytes pos r.1) n pos _ h
        λ room. rw (rd_be-accept n bytes pos room) (omega arith, room)

  pub mp_get_u8-ReadsOn : (pos : ℕ) → pos ≤ length bytes → ReadsOn bytes pos (mp_get_u8 bytes pos)
  unfolding mp_get_u8
  mp_get_u8-ReadsOn pos h =
      need-Ensures (λ r. From bytes (pos + 1) r.1) 1 pos _ h
        λ room. rw (rd-accept 1 bytes pos room) (omega arith, room)

  -- The end of a reader that calls on another.
  ReadsOn-mono :
      {A : Type 0} (pos p : ℕ) (o : Outcome (A × ℕ))
      → pos + 1 ≤ p
      → Reads bytes p o
      → ReadsOn bytes pos o
  ReadsOn-mono pos p o h k =
      Ensures-mono (λ r. From bytes (pos + 1) r.1) (λ r. From bytes p r.1) o k
        λ r (low, high). (omega arith, high)

  -- After the first byte comes a chain of tests on it, each of which ends in a reader.
  u8-ReadsOn :
      {A : Type 0} (pos : ℕ) (f : ℕ × ℕ → Outcome (A × ℕ))
      → pos ≤ length bytes
      → ((c p : ℕ) → p ≤ length bytes → Reads bytes p (f (c, p)))
      → ReadsOn bytes pos (mp_get_u8 bytes pos >>= f)
  u8-ReadsOn pos f h k =
      bind-Ensures (λ r. From bytes (pos + 1) r.1) (λ r. From bytes (pos + 1) r.1)
        (mp_get_u8 bytes pos) f (mp_get_u8-ReadsOn pos h)
        λ (c, p) (low, high). ReadsOn-mono pos p (f (c, p)) low (k c p high)

  stop-Reads : {A : Type 0} (a : A) (p : ℕ) → p ≤ length bytes → Reads bytes p (accept (a, p))
  stop-Reads a p h = (omega arith, h)

  if-Reads :
      {A : Type 0} (b : Bool) (p : ℕ) (x y : Outcome (A × ℕ))
      → Reads bytes p x
      → Reads bytes p y
      → Reads bytes p (if b then x else y)
  if-Reads true p x y h k = h
  if-Reads false p x y h k = k

  reject-Reads : (p : ℕ) → Reads {A = ℕ} bytes p reject
  reject-Reads p = tt

  mp_get_nonnegative-Reads :
      (n p : ℕ) → p ≤ length bytes → Reads bytes p (mp_get_nonnegative n bytes p)
  unfolding mp_get_nonnegative
  mp_get_nonnegative-Reads n p h =
      let Q : ℕ × ℕ → Type 0 = λ r. From bytes p r.1 in
      bind-Ensures Q Q (mp_get_be n bytes p) _ (mp_get_be-Reads n p h)
        λ (v, q) k. check-Ensures Q (ltb v (2 ^ (8 * n - 1))) (accept (v, q)) λ _. k

  get_u8-Reads : (p : ℕ) → p ≤ length bytes → Reads bytes p (mp_get_u8 bytes p)
  get_u8-Reads p h =
      Ensures-mono (λ r. From bytes p r.1) (λ r. From bytes (p + 1) r.1) (mp_get_u8 bytes p)
        (mp_get_u8-ReadsOn p h) λ r (low, high). (omega arith, high)

  ruleset chains =
      (if-Reads, stop-Reads, reject-Reads, get_u8-Reads, mp_get_be-Reads, mp_get_nonnegative-Reads)

  pub mp_read_map_len-ReadsOn :
      (pos : ℕ) → pos ≤ length bytes → ReadsOn bytes pos (mp_read_map_len bytes pos)
  unfolding mp_read_map_len
  mp_read_map_len-ReadsOn pos h = u8-ReadsOn pos _ h λ c p k. search chains

  pub mp_read_array_len-ReadsOn :
      (pos : ℕ) → pos ≤ length bytes → ReadsOn bytes pos (mp_read_array_len bytes pos)
  unfolding mp_read_array_len
  mp_read_array_len-ReadsOn pos h = u8-ReadsOn pos _ h λ c p k. search chains

  pub mp_read_uint64-ReadsOn :
      (pos : ℕ) → pos ≤ length bytes → ReadsOn bytes pos (mp_read_uint64 bytes pos)
  unfolding mp_read_uint64
  mp_read_uint64-ReadsOn pos h = u8-ReadsOn pos _ h λ c p k. search chains depth 12

  mp_string_len-Reads : (c p : ℕ) → p ≤ length bytes → Reads bytes p (mp_string_len c bytes p)
  unfolding mp_string_len
  mp_string_len-Reads c p k = search chains depth 6

  pub mp_read_string-Ensures :
      (size pos : ℕ)
      → pos ≤ length bytes
      → Ensures
          (λ r. (length r.0 < size) × From bytes (pos + 1) r.1)
          (mp_read_string size bytes pos)
  unfolding mp_read_string
  mp_read_string-Ensures size pos h =
      let Q : List ℕ × ℕ → Type 0 = λ r. (length r.0 < size) × From bytes (pos + 1) r.1 in
      check-Ensures Q (not (size == 0)) _ λ some_room.
        bind-Ensures Q (λ r. From bytes (pos + 1) r.1) (mp_get_u8 bytes pos) _
          (mp_get_u8-ReadsOn pos h)
          λ (c, p) (low, high).
            bind-Ensures Q (λ r. From bytes p r.1) (mp_string_len c bytes p) _
              (mp_string_len-Reads c p high)
              λ (n, q) (from, to). need-Ensures Q n q _ to λ room.
                let copied : ℕ = if leb size n then size - 1 else n in
                let fits : q + copied ≤ length bytes = ground arith in
                rw (rd_bytes-accept copied bytes q fits)
                  (ground (arith, length-take copied (drop q bytes)), (omega arith, room))
