-- ===== src/Metadata/Reader.antt =====
-- The MessagePack reader of src/corex_metadata.c. An `MpReader` is its bytes and its position: a
-- function takes both and returns the new position beside its result, or `reject` for -1. The error
-- text is left out. `r->len - r->pos` stops at 0, which it never passes: the position stays in range.
pub mod Bounds
pub mod Skip
use x_remote_runtime.Prelude.{
  ℕ, zero, suc, ◌+◌, ◌-◌, ◌*◌, ◌%◌, ◌^◌, List, [], ◌∷◌, Bool, true, false, not, ◌==◌, ◌&&◌, ◌||◌,
  ltb, leb, if◌then◌else◌, length,
}
use x_remote_runtime.Bytes.{Outcome, fault, reject, accept, ◌>>=◌, ◌>>◌, check, rd, rd_be, rd_bytes}

unfoldable pub mp_need : List ℕ → ℕ → ℕ → Outcome (Unit {0})
mp_need bytes pos n = check (not (ltb (length bytes - pos) n))

unfoldable pub mp_get_u8 : List ℕ → ℕ → Outcome (ℕ × ℕ)
unfolding mp_need
mp_get_u8 bytes pos = do mp_need bytes pos 1; c ← rd 1 bytes pos; accept (c, pos + 1)

-- `mp_need(r, n)`, `read_be*(r->data + r->pos)` and `r->pos += n`.
unfoldable pub mp_get_be : ℕ → List ℕ → ℕ → Outcome (ℕ × ℕ)
unfolding mp_need
mp_get_be n bytes pos = do mp_need bytes pos n; v ← rd_be n bytes pos; accept (v, pos + n)

unfoldable pub mp_read_map_len : List ℕ → ℕ → Outcome (ℕ × ℕ)
mp_read_map_len bytes pos = do
  (c, p) ← mp_get_u8 bytes pos
  if leb 128 c && leb c 143
      then accept (c % 16, p)
      else if c == 222
      then mp_get_be 2 bytes p
      else if c == 223
      then mp_get_be 4 bytes p
      else reject

unfoldable pub mp_read_array_len : List ℕ → ℕ → Outcome (ℕ × ℕ)
mp_read_array_len bytes pos = do
  (c, p) ← mp_get_u8 bytes pos
  if leb 144 c && leb c 159
      then accept (c % 16, p)
      else if c == 220
      then mp_get_be 2 bytes p
      else if c == 221
      then mp_get_be 4 bytes p
      else reject

-- The length of a string whose first byte is `c`.
unfoldable pub mp_string_len : ℕ → List ℕ → ℕ → Outcome (ℕ × ℕ)
mp_string_len c bytes p =
    if leb 160 c && leb c 191
    then accept (c % 32, p)
    else if c == 217
    then mp_get_u8 bytes p
    else if c == 218
    then mp_get_be 2 bytes p
    else if c == 219
    then mp_get_be 4 bytes p
    else reject

-- The result is what stands in `out` before the NUL that is put behind it.
unfoldable pub mp_read_string : ℕ → List ℕ → ℕ → Outcome (List ℕ × ℕ)
unfolding mp_need
mp_read_string out_size bytes pos = do
  check (not (out_size == 0))
  (c, p) ← mp_get_u8 bytes pos
  (n, q) ← mp_string_len c bytes p
  mp_need bytes q n
  out ← rd_bytes (if leb out_size n then out_size - 1 else n) bytes q
  accept (out, q + n)

-- A signed integer of `n` bytes that must not be negative.
unfoldable pub mp_get_nonnegative : ℕ → List ℕ → ℕ → Outcome (ℕ × ℕ)
mp_get_nonnegative n bytes p = do
  (v, q) ← mp_get_be n bytes p
  check (ltb v (2 ^ (8 * n - 1)))
  accept (v, q)

unfoldable pub mp_read_uint64 : List ℕ → ℕ → Outcome (ℕ × ℕ)
mp_read_uint64 bytes pos = do
  (c, p) ← mp_get_u8 bytes pos
  if leb c 127
      then accept (c, p)
      else if c == 204
      then mp_get_be 1 bytes p
      else if c == 205
      then mp_get_be 2 bytes p
      else if c == 206
      then mp_get_be 4 bytes p
      else if c == 207
      then mp_get_be 8 bytes p
      else if c == 208
      then mp_get_nonnegative 1 bytes p
      else if c == 209
      then mp_get_nonnegative 2 bytes p
      else if c == 210
      then mp_get_nonnegative 4 bytes p
      else if c == 211
      then mp_get_nonnegative 8 bytes p
      else reject

-- What the first byte of a value says of the rest: nothing follows; so many bytes; a count of that width
-- and so many bytes; so many values; a count of that width, and that multiple of it in values.
pub data Shape : Type 0 where
  scalar unsupported : Shape
  payload sized items : ℕ → Shape
  counted : ℕ → ℕ → Shape

unfoldable pub mp_shape : ℕ → Shape
mp_shape c =
    if leb c 127 || leb 224 c || c == 192 || c == 194 || c == 195
    then scalar
    else if leb 160 c && leb c 191
    then payload (c % 32)
    else if leb 144 c && leb c 159
    then items (c % 16)
    else if leb 128 c && leb c 143
    then items (2 * (c % 16))
    else if c == 196 || c == 217
    then sized 1
    else if c == 197 || c == 218
    then sized 2
    else if c == 198 || c == 219
    then sized 4
    else if c == 202
    then payload 4
    else if c == 203
    then payload 8
    else if c == 204 || c == 208
    then payload 1
    else if c == 205 || c == 209
    then payload 2
    else if c == 206 || c == 210
    then payload 4
    else if c == 207 || c == 211
    then payload 8
    else if c == 220
    then counted 2 1
    else if c == 221
    then counted 4 1
    else if c == 222
    then counted 2 2
    else if c == 223
    then counted 4 2
    else unsupported

-- `mp_need(r, n)` and `r->pos += n`.
unfoldable pub mp_skip_bytes : ℕ → List ℕ → ℕ → Outcome ℕ
unfolding mp_need
mp_skip_bytes n bytes pos = do mp_need bytes pos n; accept (pos + n)

unfoldable pub mp_skip_n : ℕ → (ℕ → Outcome ℕ) → ℕ → Outcome ℕ
mp_skip_n zero skip pos = accept pos
mp_skip_n (suc n) skip pos = do p ← skip pos; mp_skip_n n skip p

-- What `mp_skip` does after the first byte. The factor 2 of the maps is a uint32_t's.
unfoldable pub mp_skip_rest : Shape → (ℕ → Outcome ℕ) → List ℕ → ℕ → Outcome ℕ
mp_skip_rest scalar skip bytes p = accept p
mp_skip_rest unsupported skip bytes p = reject
mp_skip_rest (payload n) skip bytes p = mp_skip_bytes n bytes p
mp_skip_rest (sized w) skip bytes p = do (n, q) ← mp_get_be w bytes p; mp_skip_bytes n bytes q
mp_skip_rest (items n) skip bytes p = mp_skip_n n skip p
mp_skip_rest (counted w m) skip bytes p = do
  (n, q) ← mp_get_be w bytes p
  mp_skip_n (m * n % 2 ^ 32) skip q

-- The recursion is on fuel, and running out of it is also a `fault`.
unfoldable pub mp_skip : ℕ → List ℕ → ℕ → Outcome ℕ
mp_skip zero bytes pos = fault
mp_skip (suc fuel) bytes pos = do
  (c, p) ← mp_get_u8 bytes pos
  mp_skip_rest (mp_shape c) (mp_skip fuel bytes) bytes p
