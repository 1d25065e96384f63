-- ===== src/Metadata/Module/Fields.antt =====
-- The loops over fields and entries of src/corex_metadata.c, for any property of what they read.
use x_remote_runtime.Prelude.{
  ℕ, zero, suc, ◌+◌, ◌-◌, ◌%◌, ◌^◌, leb, ◌≤◌, ◌<◌, ◌≡◌, arith, List, Bool, true, false, All, length,
  if◌then◌else◌,
}
use x_remote_runtime.Bytes.{Outcome, accept, ◌>>=◌, ◌>>◌, check}
use x_remote_runtime.Bytes.Ensures.{Ensures, Ensures-mono, bind-Ensures, check-Ensures}
use x_remote_runtime.Metadata.Reader.{
  mp_read_map_len, mp_read_array_len, mp_read_string, mp_read_uint64, mp_skip,
}
use x_remote_runtime.Metadata.Reader.Bounds.{
  From, ReadsOn, mp_read_map_len-ReadsOn, mp_read_array_len-ReadsOn, mp_read_string-Ensures,
  mp_read_uint64-ReadsOn,
}
use x_remote_runtime.Metadata.Reader.Skip.{mp_skip-From}
use x_remote_runtime.Metadata.Module.{read_fields, read_entries, skip_field}

-- What is read has a property, and the reader stops in the buffer, not before `pos`.
abbrev pub Yields : {A : Type 0} → List ℕ → (A → Type 0) → ℕ → Outcome (A × ℕ) → Type 0
Yields bytes Q pos o = Ensures (λ r. Q r.0 × From bytes pos r.1) o

module _ (bytes : List ℕ) {A : Type 0} (Q : A → Type 0) where
  pub Yields-mono :
      (pos p : ℕ) (o : Outcome (A × ℕ)) → pos ≤ p → Yields bytes Q p o → Yields bytes Q pos o
  Yields-mono pos p o h k =
      Ensures-mono (λ r. Q r.0 × From bytes pos r.1) (λ r. Q r.0 × From bytes p r.1) o k
        λ r (good, (low, high)). (good, (omega arith, high))

  pub if-Yields :
      (b : Bool) (p : ℕ) (x y : Outcome (A × ℕ))
      → Yields bytes Q p x
      → Yields bytes Q p y
      → Yields bytes Q p (if b then x else y)
  if-Yields true p x y h k = h
  if-Yields false p x y h k = k

  pub stop-Yields : (a : A) (p : ℕ) → Q a → p ≤ length bytes → Yields bytes Q p (accept (a, p))
  stop-Yields a p h k = (h, (omega arith, k))

  pub bind-Yields :
      {B : Type 0} (P : B → Type 0) (pos : ℕ) (o : Outcome (B × ℕ)) (f : B × ℕ → Outcome (A × ℕ))
      → Yields bytes P pos o
      → ((b : B) (p : ℕ) → P b → p ≤ length bytes → Yields bytes Q p (f (b, p)))
      → Yields bytes Q pos (o >>= f)
  bind-Yields P pos o f h k =
      bind-Ensures (λ r. Q r.0 × From bytes pos r.1) (λ r. P r.0 × From bytes pos r.1) o f h
        λ (b, p) (good, (low, high)). Yields-mono pos p (f (b, p)) low (k b p good high)

  -- A reader that goes on, whatever it reads.
  any-Yields :
      (pos : ℕ) (o : Outcome (ℕ × ℕ)) → ReadsOn bytes pos o → Yields bytes (λ _. Unit {0}) pos o
  any-Yields pos o h =
      Ensures-mono (λ r. Unit {0} × From bytes pos r.1) (λ r. From bytes (pos + 1) r.1) o h
        λ r (low, high). (tt, (omega arith, high))

  pub string-Yields :
      (size pos : ℕ) (f : List ℕ × ℕ → Outcome (A × ℕ))
      → pos ≤ length bytes
      → ((s : List ℕ) (p : ℕ) → length s < size → p ≤ length bytes → Yields bytes Q p (f (s, p)))
      → Yields bytes Q pos (mp_read_string size bytes pos >>= f)
  string-Yields size pos f h k =
      bind-Yields (λ s. length s < size) pos (mp_read_string size bytes pos) f
        (Ensures-mono (λ r. (length r.0 < size) × From bytes pos r.1)
          (λ r. (length r.0 < size) × From bytes (pos + 1) r.1) (mp_read_string size bytes pos)
          (mp_read_string-Ensures bytes size pos h)
          λ r (short, (low, high)). (short, (omega arith, high)))
        k

  pub uint64-Yields :
      (pos : ℕ) (f : ℕ × ℕ → Outcome (A × ℕ))
      → pos ≤ length bytes
      → ((v p : ℕ) → p ≤ length bytes → Yields bytes Q p (f (v, p)))
      → Yields bytes Q pos (mp_read_uint64 bytes pos >>= f)
  uint64-Yields pos f h k =
      bind-Yields (λ _. Unit {0}) pos (mp_read_uint64 bytes pos) f
        (any-Yields pos (mp_read_uint64 bytes pos) (mp_read_uint64-ReadsOn bytes pos h))
        λ v p _. k v p

  pub array-Yields :
      (pos : ℕ) (f : ℕ × ℕ → Outcome (A × ℕ))
      → pos ≤ length bytes
      → ((n p : ℕ) → p ≤ length bytes → Yields bytes Q p (f (n, p)))
      → Yields bytes Q pos (mp_read_array_len bytes pos >>= f)
  array-Yields pos f h k =
      bind-Yields (λ _. Unit {0}) pos (mp_read_array_len bytes pos) f
        (any-Yields pos (mp_read_array_len bytes pos) (mp_read_array_len-ReadsOn bytes pos h))
        λ v p _. k v p

  pub map-Yields :
      (pos : ℕ) (f : ℕ × ℕ → Outcome (A × ℕ))
      → pos ≤ length bytes
      → ((n p : ℕ) → p ≤ length bytes → Yields bytes Q p (f (n, p)))
      → Yields bytes Q pos (mp_read_map_len bytes pos >>= f)
  map-Yields pos f h k =
      bind-Yields (λ _. Unit {0}) pos (mp_read_map_len bytes pos) f
        (any-Yields pos (mp_read_map_len bytes pos) (mp_read_map_len-ReadsOn bytes pos h))
        λ v p _. k v p

  pub set_string-Yields :
      (size p : ℕ) (set : List ℕ → A)
      → p ≤ length bytes
      → ((s : List ℕ) → length s < size → Q (set s))
      → Yields bytes Q p (mp_read_string size bytes p >>= λ r. accept (set r.0, r.1))
  set_string-Yields size p set h k =
      string-Yields size p _ h λ s q short h'. stop-Yields (set s) q (k s short) h'

  pub set_word-Yields :
      (p : ℕ) (set : ℕ → A)
      → p ≤ length bytes
      → ((v : ℕ) → v < 2 ^ 32 → Q (set v))
      → Yields bytes Q p (mp_read_uint64 bytes p >>= λ r. accept (set (r.0 % 2 ^ 32), r.1))
  set_word-Yields p set h k =
      uint64-Yields p _ h
        λ v q h'. stop-Yields (set (v % 2 ^ 32)) q (k (v % 2 ^ 32) (omega arith)) h'

  pub set_checked-Yields :
      (p : ℕ) (set : ℕ → A)
      → p ≤ length bytes
      → ((v : ℕ) → v < 2 ^ 32 → Q (set v))
      → Yields bytes Q p
          (mp_read_uint64 bytes p >>= λ r. check (leb r.0 (2 ^ 32 - 1)) >> accept (set r.0, r.1))
  set_checked-Yields p set h k = uint64-Yields p _ h λ v q h'.
      check-Ensures (λ r. Q r.0 × From bytes q r.1) (leb v (2 ^ 32 - 1)) (accept (set v, q))
        λ small. stop-Yields (set v) q (k v (ground arith)) h'

  pub skip_field-Yields :
      (a : A) (pos : ℕ) → Q a → pos ≤ length bytes → Yields bytes Q pos (skip_field bytes a pos)
  skip_field-Yields a pos good h =
      bind-Ensures (λ r. Q r.0 × From bytes pos r.1) (From bytes (pos + 1))
        (mp_skip (suc (length bytes)) bytes pos) _
        (mp_skip-From bytes (suc (length bytes)) pos h (omega arith))
        λ p (low, high). (good, (omega arith, high))

  pub read_fields-Yields :
      (n : ℕ) (field : A → ℕ → Outcome (A × ℕ)) (a : A) (pos : ℕ)
      → ((b : A) (p : ℕ) → Q b → p ≤ length bytes → Yields bytes Q p (field b p))
      → Q a
      → pos ≤ length bytes
      → Yields bytes Q pos (read_fields n field a pos)
  unfolding read_fields
  read_fields-Yields zero field a pos k good h = stop-Yields a pos good h
  read_fields-Yields (suc n) field a pos k good h =
      bind-Yields Q pos (field a pos) _ (k a pos good h)
        λ b p good' h'. read_fields-Yields n field b p k good' h'

module _ (bytes : List ℕ) {A : Type 0} (Q : A → Type 0) where
  pub read_entries-Yields :
      (n : ℕ) (entry : ℕ → Outcome (A × ℕ)) (pos : ℕ)
      → ((p : ℕ) → p ≤ length bytes → Yields bytes Q p (entry p))
      → pos ≤ length bytes
      → Yields bytes
          (λ entries. (length entries ≡ n) × All Q entries)
          pos
          (read_entries n entry pos)
  unfolding read_entries
  read_entries-Yields zero entry pos k h = ((omega arith, tt), (omega arith, h))
  read_entries-Yields (suc n) entry pos k h =
      let R : List A → Type 0 = λ entries. (length entries ≡ suc n) × All Q entries in
      bind-Yields bytes R Q pos (entry pos) _ (k pos h) λ a p good high.
        bind-Yields bytes R (λ entries. (length entries ≡ n) × All Q entries) p
          (read_entries n entry p) _ (read_entries-Yields n entry p k high)
          λ entries q (count, all) high'. ((omega arith, (good, all)), (omega arith, high'))

module _ (bytes : List ℕ) {A B : Type 0} (Q : A → Type 0) (P : B → Type 0) where
  pub set_entries-Yields :
      (limit : ℕ) (entry : ℕ → Outcome (B × ℕ)) (p : ℕ) (set : List B → A)
      → p ≤ length bytes
      → ((q : ℕ) → q ≤ length bytes → Yields bytes P q (entry q))
      → ((entries : List B) → length entries ≤ limit → All P entries → Q (set entries))
      → Yields bytes Q p (
          mp_read_array_len bytes p >>= λ c.
          check (leb c.0 limit) >> (read_entries c.0 entry c.1 >>= λ r. accept (set r.0, r.1)))
  set_entries-Yields limit entry p set h k l = array-Yields bytes Q p _ h λ n q h'.
      check-Ensures (λ r. Q r.0 × From bytes q r.1) (leb n limit) _
        λ few.
          bind-Yields bytes Q (λ entries. (length entries ≡ n) × All P entries) q
            (read_entries n entry q) _ (read_entries-Yields bytes P n entry q k h')
            λ entries q' (count, all) h''.
              stop-Yields bytes Q (set entries) q' (l entries (ground arith) all) h''
