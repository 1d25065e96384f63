-- ===== src/Client/Arena/Regions.antt =====
-- The regions of the live allocations of src/corex_remote_cuda.c: each lies in the used part of the
-- arena, and no two of them touch.
use x_remote_runtime.Prelude.{
  ℕ, zero, suc, ◌+◌, ◌^◌, ◌≤◌, ◌<◌, ◌≡◌, ◌⊎◌, inl, inr, arith, some, List, [], ◌∷◌, All, true, ◌==◌,
  Bool-cases, Option-cases,
}
use x_remote_runtime.Client.Calls.{Wire, remote_alloc}
use x_remote_runtime.Client.Arena.{
  Arena, VirtualAllocation, arena_bytes, guard_bytes, align_up_size, put_at, linear_allocation,
  prepare_linear_identity, commit_linear_identity, allocate_at, cuda_malloc,
}

-- Two live regions, their ends included, share no address.
abbrev pub Apart : VirtualAllocation → VirtualAllocation → Type 0
Apart a b =
    a.live ≡ true
    → b.live ≡ true
    → (a.virtual_base + a.size < b.virtual_base) ⊎ (b.virtual_base + b.size < a.virtual_base)

abbrev pub AreApart : List VirtualAllocation → Type 0
AreApart [] = Unit {0}
AreApart (a ∷ allocs) = All (Apart a) allocs × AreApart allocs

-- A live region with its guard ends in the used part.
abbrev pub Inside : ℕ → ℕ → VirtualAllocation → Type 0
Inside va_arena va_next a =
    a.live ≡ true
    → (va_arena ≤ a.virtual_base) × (a.virtual_base + a.size + guard_bytes ≤ va_arena + va_next)

pub record IsArena (m : Arena) : Type 0 where
  pub apart : AreApart m.allocs
  pub inside : All (Inside m.va_arena m.va_next) m.allocs
  pub used : m.va_next ≤ arena_bytes
  pub top : m.va_arena + arena_bytes < 2 ^ 64

module _ (P Q : VirtualAllocation → Type 0) where
  All-mono :
      (k : (b : VirtualAllocation) → P b → Q b) (allocs : List VirtualAllocation)
      → All P allocs
      → All Q allocs
  All-mono k [] h = tt
  All-mono k (b ∷ allocs) (h, hs) = (k b h, All-mono k allocs hs)

put_at-All :
    (P : VirtualAllocation → Type 0) (i : ℕ) (a : VirtualAllocation)
    (allocs : List VirtualAllocation)
    → P a
    → All P allocs
    → All P (put_at i a allocs)
unfolding put_at
put_at-All P i a [] p h = tt
put_at-All P zero a (b ∷ allocs) p (h, hs) = (p, hs)
put_at-All P (suc i) a (b ∷ allocs) p (h, hs) = (h, put_at-All P i a allocs p hs)

put_at-AreApart :
    (i : ℕ) (a : VirtualAllocation) (allocs : List VirtualAllocation)
    → All (Apart a) allocs
    → AreApart allocs
    → AreApart (put_at i a allocs)
unfolding put_at
put_at-AreApart i a [] new apart = tt
put_at-AreApart zero a (b ∷ allocs) (n, new) (h, apart) = (new, apart)
put_at-AreApart (suc i) a (b ∷ allocs) (n, new) (h, apart) = (
  put_at-All (Apart b) i a allocs (λ p q. elim (n q p) [ inl x ↦ inr x | inr x ↦ inl x ]) h,
  put_at-AreApart i a allocs new apart,
)

prepare-fits :
    (m : Arena) (size slot span : ℕ)
    → prepare_linear_identity m size ≡ some (slot, span)
    → (size + guard_bytes ≤ span) × (m.va_next + span ≤ arena_bytes)
unfolding prepare_linear_identity align_up_size
prepare-fits m size slot span e = ground arith

commit-IsArena :
    (m : Arena) (slot size id span : ℕ)
    → IsArena m
    → size + guard_bytes ≤ span
    → m.va_next + span ≤ arena_bytes
    → IsArena (commit_linear_identity m slot size id span).0
unfolding commit_linear_identity
commit-IsArena m slot size id span valid fits room =
    let a = linear_allocation m size id in
    record {
      apart =
          put_at-AreApart slot a m.allocs
            (All-mono (Inside m.va_arena m.va_next) (Apart a)
              (λ b inside _ live. let (low, high) = inside live in inr (omega arith)) m.allocs
              valid.inside)
            valid.apart;
      inside =
          put_at-All (Inside m.va_arena (m.va_next + span)) slot a m.allocs
            (λ _. (omega arith, omega arith))
            (All-mono (Inside m.va_arena m.va_next) (Inside m.va_arena (m.va_next + span))
              (λ b inside live. let (low, high) = inside live in (low, omega arith)) m.allocs
              valid.inside);
      used = room;
      top = valid.top;
    }

-- `cudaMalloc` keeps the regions of the live allocations apart from each other and in the arena, whatever
-- its peer answers and whether it succeeds or not.
pub cuda_malloc-IsArena :
    {S : Type 0} (wire : Wire S) (size : ℕ) (m : Arena) (s : S)
    → IsArena m
    → IsArena (cuda_malloc wire size m s).arena
unfolding cuda_malloc allocate_at
cuda_malloc-IsArena wire size m s valid = elim (Bool-cases (size == 0)) [
  | inl zero_size ↦ rw zero_size valid
  | inr positive ↦ elim (Option-cases (prepare_linear_identity m size)) [
    | inl full ↦ rw (positive, full) valid
    | inr ((slot, span), e) ↦ elim (Option-cases (remote_alloc wire size s).1) [
      | inl failed ↦ rw (positive, e, failed, allocate_at) valid
      | inr (id, given) ↦
          let (fits, room) = prepare-fits m size slot span e in
          rw (positive, e, given, allocate_at) (commit-IsArena m slot size id span valid fits room)
    ]
  ]
]
