-- ===== src/Protocol/Words.antt =====
-- The word helpers of include/internal/corex_protocol.h, on a little-endian host.
-- A buffer is a list of bytes, and `data + position` is `drop position data`.
-- `hi << k | lo` is written `hi * 2 ^ k + lo`: the parts share no bit.
use x_remote_runtime.Prelude.{
  ℕ, ◌+◌, ◌-◌, ◌*◌, ◌/◌, ◌%◌, ◌^◌, ◌<◌, ◌≡◌, arith, List, [], ◌∷◌, ◌++◌, Option, none, some, ltb,
  ◌||◌, if◌then◌else◌, length, drop,
}

abbrev pub IsByte : ℕ → Type 0
IsByte b = b < 256

abbrev pub IsU32 : ℕ → Type 0
IsU32 v = v < 2 ^ 32

abbrev pub IsU64 : ℕ → Type 0
IsU64 v = v < 2 ^ 64

-- `htonl` and `ntohl`: the four bytes of a word in the other order.
abbrev pub htonl : ℕ → ℕ
htonl v = v % 256 * 2 ^ 24 + v / 2 ^ 8 % 256 * 2 ^ 16 + v / 2 ^ 16 % 256 * 2 ^ 8 + v / 2 ^ 24 % 256

-- The bytes of a word as `memcpy` finds them in memory, and the word that it makes of them.
abbrev pub store_u32 : ℕ → List ℕ
store_u32 v = v % 256 ∷ v / 2 ^ 8 % 256 ∷ v / 2 ^ 16 % 256 ∷ v / 2 ^ 24 % 256 ∷ []

-- A read past the buffer is undefined in C: every caller tests the length first.
abbrev pub load_u32 : List ℕ → ℕ
load_u32 (a ∷ b ∷ c ∷ d ∷ rest) = a + b * 2 ^ 8 + c * 2 ^ 16 + d * 2 ^ 24
load_u32 _ = 0

abbrev pub store_u64 : ℕ → List ℕ
store_u64 v = store_u32 (v % 2 ^ 32) ++ store_u32 (v / 2 ^ 32)

abbrev pub load_u64 : List ℕ → ℕ
load_u64 bytes = load_u32 bytes + load_u32 (drop 4 bytes) * 2 ^ 32

pub to_be64 : ℕ → ℕ
to_be64 value = htonl (value % 2 ^ 32) * 2 ^ 32 + htonl (value / 2 ^ 32)

pub from_be64 : ℕ → ℕ
unfolding to_be64
from_be64 value = to_be64 value

unfoldable pub read_u32 : List ℕ → ℕ
read_u32 bytes = htonl (load_u32 bytes)

unfoldable pub read_u64 : List ℕ → ℕ
unfolding from_be64
read_u64 bytes = from_be64 (load_u64 bytes)

-- The position is the length of what is written so far.
unfoldable pub write_u32 : List ℕ → ℕ → List ℕ
write_u32 out value = out ++ store_u32 (htonl value)

unfoldable pub write_u64 : List ℕ → ℕ → List ℕ
unfolding to_be64
write_u64 out value = out ++ store_u64 (to_be64 value)

-- `none` is the result -1; otherwise the value and the new position.
unfoldable pub take_u32 : List ℕ → ℕ → Option (ℕ × ℕ)
take_u32 bytes position =
    if ltb (length bytes) position || ltb (length bytes - position) 4
    then none
    else some (read_u32 (drop position bytes), position + 4)

unfoldable pub take_u64 : List ℕ → ℕ → Option (ℕ × ℕ)
take_u64 bytes position =
    if ltb (length bytes) position || ltb (length bytes - position) 8
    then none
    else some (read_u64 (drop position bytes), position + 8)

-- Network order, most significant byte first.
abbrev pub be32 : ℕ → List ℕ
be32 v = v / 2 ^ 24 ∷ v / 2 ^ 16 % 256 ∷ v / 2 ^ 8 % 256 ∷ v % 256 ∷ []

abbrev pub be64 : ℕ → List ℕ
be64 v = be32 (v / 2 ^ 32) ++ be32 (v % 2 ^ 32)

-- A written 32-bit word is in network order, whatever swap of bytes produced it.
pub write_u32-be32 : (out : List ℕ) (v : ℕ) → IsU32 v → write_u32 out v ≡ out ++ be32 v
unfolding write_u32
write_u32-be32 out v h = ground arith

-- A written 64-bit word is in network order, its upper half first.
pub write_u64-be64 : (out : List ℕ) (v : ℕ) → IsU64 v → write_u64 out v ≡ out ++ be64 v
unfolding write_u64
write_u64-be64 out v h = ground arith

-- A 32-bit word in network order is read back.
pub read_u32-be32 : (v : ℕ) (rest : List ℕ) → IsU32 v → read_u32 (be32 v ++ rest) ≡ v
unfolding read_u32
read_u32-be32 v rest h = omega arith

-- A 64-bit word in network order is read back from the front of any bytes.
pub read_u64-be64 : (v : ℕ) (rest : List ℕ) → IsU64 v → read_u64 (be64 v ++ rest) ≡ v
unfolding read_u64
read_u64-be64 v rest h = omega arith
