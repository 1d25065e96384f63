-- ===== src/Bytes/Ensures.antt =====
-- What a computation on a buffer ensures: it stays in the buffer, and its result has a property.
use x_remote_runtime.Prelude.{
  ℕ, ◌+◌, ◌≤◌, ◌≡◌, ◌≢◌, refl, arith, List, Bool, true, false, length, drop, take, leb,
  if◌then◌else◌,
}
use mathlib.Core.Path.{subst}
use x_remote_runtime.Bytes.{
  rd_be, big_endian, rd_bytes, Outcome, fault, reject, accept, rd, little_endian, ◌>>=◌, ◌>>◌,
  check,
}

abbrev pub Ensures : {A : Type 0} → (A → Type 0) → Outcome A → Type 0
Ensures P fault = ⊥
Ensures P reject = Unit {0}
Ensures P (accept a) = P a

pub rd-accept :
    (n : ℕ) (base : List ℕ) (off : ℕ)
    → off + n ≤ length base
    → rd n base off ≡ accept (little_endian n (drop off base))
unfolding rd
rd-accept n base off h = ground arith

module _ {A : Type 0} (Q : A → Type 0) where
  pub Ensures-safe : (o : Outcome A) → Ensures Q o → o ≢ fault
  Ensures-safe fault h = elim h [ ]
  Ensures-safe reject h = ground arith
  Ensures-safe (accept a) h = ground arith

  pub Ensures-accept : (o : Outcome A) {a : A} → Ensures Q o → o ≡ accept a → Q a
  Ensures-accept o h e = subst (Ensures Q) e h

  pub Ensures-mono :
      (P : A → Type 0) (o : Outcome A) → Ensures P o → ((a : A) → P a → Q a) → Ensures Q o
  Ensures-mono P fault h k = elim h [ ]
  Ensures-mono P reject h k = tt
  Ensures-mono P (accept a) h k = k a h

  pub Ensures-self : (o : Outcome A) → Ensures Q o → Ensures (λ a. Q a × (o ≡ accept a)) o
  Ensures-self fault h = h
  Ensures-self reject h = h
  Ensures-self (accept a) h = (h, refl)

  pub bind-Ensures :
      {B : Type 0} (P : B → Type 0) (m : Outcome B) (f : B → Outcome A)
      → Ensures P m
      → ((b : B) → P b → Ensures Q (f b))
      → Ensures Q (m >>= f)
  bind-Ensures P fault f h k = elim h [ ]
  bind-Ensures P reject f h k = tt
  bind-Ensures P (accept a) f h k = k a h

  pub check-Ensures :
      (b : Bool) (m : Outcome A) → (b ≡ true → Ensures Q m) → Ensures Q (check b >> m)
  check-Ensures true m k = k refl
  check-Ensures false m k = tt

  pub if-Ensures :
      (b : Bool) (x y : Outcome A)
      → (b ≡ true → Ensures Q x)
      → (b ≡ false → Ensures Q y)
      → Ensures Q (if b then x else y)
  if-Ensures true x y h k = h refl
  if-Ensures false x y h k = k refl

  pub read-Ensures :
      (n : ℕ) (base : List ℕ) (off : ℕ) (f : ℕ → Outcome A)
      → off + n ≤ length base
      → Ensures Q (f (little_endian n (drop off base)))
      → Ensures Q (rd n base off >>= f)
  unfolding rd
  read-Ensures n base off f h k =
      let e : leb (off + n) (length base) ≡ true = ground arith in rw e k

-- The same for `n` bytes at once.
pub read_bytes-Ensures :
    {A : Type 0} (Q : A → Type 0) (n : ℕ) (base : List ℕ) (off : ℕ) (f : List ℕ → Outcome A)
    → off + n ≤ length base
    → Ensures Q (f (take n (drop off base)))
    → Ensures Q (rd_bytes n base off >>= f)
unfolding rd_bytes
read_bytes-Ensures Q n base off f h k =
    let e : leb (off + n) (length base) ≡ true = ground arith in rw e k

pub rd_be-accept :
    (n : ℕ) (base : List ℕ) (off : ℕ)
    → off + n ≤ length base
    → rd_be n base off ≡ accept (big_endian n (drop off base))
unfolding rd_be
rd_be-accept n base off h = ground arith

pub rd_bytes-accept :
    (n : ℕ) (base : List ℕ) (off : ℕ)
    → off + n ≤ length base
    → rd_bytes n base off ≡ accept (take n (drop off base))
unfolding rd_bytes
rd_bytes-accept n base off h = ground arith
