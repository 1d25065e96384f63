-- ===== src/Protocol/Take.antt =====
-- Bounds-checked reads of include/internal/corex_protocol.h, in network order.
use x_remote_runtime.Prelude.{
  ℕ, ◌+◌, ◌-◌, ◌≤◌, ◌≡◌, refl, ap, arith, none, some, List, [], ◌∷◌, ◌++◌, length, drop, All, ◌⊎◌,
  inl, inr, Bool-cases, length-drop, ltb, ◌||◌, drop-drop, All-drop,
}
use x_remote_runtime.Protocol.Words.{IsByte, IsU32, take_u32, read_u32, be32, read_u32-be32}

read_u32-split :
    (xs : List ℕ)
    → All IsByte xs
    → 4 ≤ length xs
    → IsU32 (read_u32 xs) × (xs ≡ be32 (read_u32 xs) ++ drop 4 xs)
unfolding read_u32
read_u32-split [] h l = absurd (omega arith)
read_u32-split (a ∷ []) h l = absurd (omega arith)
read_u32-split (a ∷ b ∷ []) h l = absurd (omega arith)
read_u32-split (a ∷ b ∷ c ∷ []) h l = absurd (omega arith)
read_u32-split (a ∷ b ∷ c ∷ d ∷ xs) h l = ground arith

-- A successful read gives the word that stands at the position in network order.
pub take_u32_cases :
    (input : List ℕ) (p : ℕ)
    → All IsByte input
    → (take_u32 input p ≡ none)
      ⊎ ((v : ℕ) × (take_u32 input p ≡ some (v, p + 4))
          × IsU32 v
          × (p + 4 ≤ length input)
          × (drop p input ≡ be32 v ++ drop (p + 4) input))
unfolding take_u32
take_u32_cases input p h = elim (Bool-cases (ltb (length input) p || ltb (length input - p) 4)) [
  | inl short ↦ inl (rw short)
  | inr long ↦
      let enough : p + 4 ≤ length input = ground arith in
      let (small, split) =
        read_u32-split (drop p input) (All-drop _ p input h) (rw length-drop (omega arith)) in
      inr (read_u32 (drop p input), rw long, small, enough, rw (← drop-drop p 4 input) split)
]

pub take_u32_at :
    (input : List ℕ) (p v : ℕ) (rest : List ℕ)
    → IsU32 v
    → drop p input ≡ be32 v ++ rest
    → (take_u32 input p ≡ some (v, p + 4)) × (drop (p + 4) input ≡ rest)
unfolding take_u32
take_u32_at input p v rest h e =
    let size : length input - p ≡ 4 + length rest =
      omega (arith, length-drop p input, ap length e) in
    (rw e (rw (read_u32-be32 v rest h) (ground arith)), rw (← drop-drop p 4 input, e) refl)
