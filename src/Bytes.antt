-- ===== src/Bytes.antt =====
-- Buffers of bytes, as the parsers of src/corex_fatbin_runtime.c and src/corex_metadata.c read them.
-- A read at an offset may fall outside its buffer: the model then says `fault`, where the C code has
-- undefined behaviour.
pub mod Ensures
use x_remote_runtime.Prelude.{
  ℕ, zero, suc, ◌+◌, ◌*◌, ◌^◌, List, [], ◌∷◌, Bool, true, false, leb, if◌then◌else◌, length, drop,
  take,
}

-- Bytes were read outside the buffer, the code reports a failure, or it succeeds with a result.
pub data Outcome {ℓ} (A : Type ℓ) : Type ℓ where
  fault reject : Outcome A
  accept : A → Outcome A

infixl 5 ◌>>=◌ ◌>>◌
abbrev pub ◌>>=◌ {ℓ κ} : {A : Type ℓ} {B : Type κ} → Outcome A → (A → Outcome B) → Outcome B
fault >>= f = fault
reject >>= f = reject
accept a >>= f = f a

abbrev pub ◌>>◌ {ℓ} : {B : Type ℓ} → Outcome (Unit {0}) → Outcome B → Outcome B
m >> k = m >>= λ _. k

-- `if (!b) return 0;` or `return -1;`
abbrev pub check : Bool → Outcome (Unit {0})
check true = accept tt
check false = reject

-- The first `n` bytes, the least significant one first.
unfoldable pub little_endian : ℕ → List ℕ → ℕ
little_endian zero bytes = 0
little_endian (suc n) [] = 0
little_endian (suc n) (b ∷ bytes) = b + 256 * little_endian n bytes

-- A read of `n` bytes at an offset.
unfoldable pub rd : ℕ → List ℕ → ℕ → Outcome ℕ
rd n base off =
    if leb (off + n) (length base) then accept (little_endian n (drop off base)) else fault

abbrev pub rd16 : List ℕ → ℕ → Outcome ℕ
rd16 = rd 2

abbrev pub rd32 : List ℕ → ℕ → Outcome ℕ
rd32 = rd 4

abbrev pub rd64 : List ℕ → ℕ → Outcome ℕ
rd64 = rd 8

-- The first `n` bytes, the most significant one first.
unfoldable pub big_endian : ℕ → List ℕ → ℕ
big_endian zero bytes = 0
big_endian (suc n) [] = 0
big_endian (suc n) (b ∷ bytes) = b * 256 ^ n + big_endian n bytes

unfoldable pub rd_be : ℕ → List ℕ → ℕ → Outcome ℕ
rd_be n base off =
    if leb (off + n) (length base) then accept (big_endian n (drop off base)) else fault

-- The `n` bytes at an offset.
unfoldable pub rd_bytes : ℕ → List ℕ → ℕ → Outcome (List ℕ)
rd_bytes n base off = if leb (off + n) (length base) then accept (take n (drop off base)) else fault
