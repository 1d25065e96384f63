-- ===== src/Client/Arena/Frees.antt =====
-- Freed allocations of src/corex_remote_cuda.c keep their place: the regions stay apart.
use x_remote_runtime.Prelude.{
  ℕ, ◌≡◌, inl, inr, refl, arith, List, [], ◌∷◌, All, Bool, true, false, not, ◌==◌, ◌&&◌, Bool-cases,
  Option-cases,
}
use x_remote_runtime.Client.Calls.{Wire, remote_free}
use x_remote_runtime.Client.Transfers.{Slots, Drained, drain_allocation_transfers_blocking}
use x_remote_runtime.Client.Arena.{
  Arena, VirtualAllocation, change_base, tombstone, retire_allocs, released, free_drained,
  free_entry, cuda_free, is_current, find_exact_live_base,
}
use x_remote_runtime.Client.Arena.Regions.{Apart, AreApart, Inside, IsArena}

-- The same region, which is not live if it was not before.
abbrev Weaker : VirtualAllocation → VirtualAllocation → Type 0
Weaker a b = (b.live ≡ true → a.live ≡ true) × (a.virtual_base ≡ b.virtual_base) × (a.size ≡ b.size)

abbrev Weakened : List VirtualAllocation → List VirtualAllocation → Type 0
Weakened [] [] = Unit {0}
Weakened [] (b ∷ bs) = ⊥
Weakened (a ∷ rest) [] = ⊥
Weakened (a ∷ rest) (b ∷ bs) = Weaker a b × Weakened rest bs

Weaker-self : (a : VirtualAllocation) → Weaker a a
Weaker-self a = ((λ h. h), refl, refl)

tombstone-Weaker : (a : VirtualAllocation) → Weaker a (tombstone a)
tombstone-Weaker a = ((λ h. ground arith), refl, refl)

Weakened-self : (allocs : List VirtualAllocation) → Weakened allocs allocs
Weakened-self [] = tt
Weakened-self (a ∷ allocs) = (Weaker-self a, Weakened-self allocs)

Weakened-All :
    (P : VirtualAllocation → Type 0)
    → ((a b : VirtualAllocation) → Weaker a b → P a → P b)
    → (xs ys : List VirtualAllocation) → Weakened xs ys
    → All P xs
    → All P ys
Weakened-All P k [] [] w h = tt
Weakened-All P k [] (y ∷ ys) w h = elim w [ ]
Weakened-All P k (x ∷ xs) [] w h = elim w [ ]
Weakened-All P k (x ∷ xs) (y ∷ ys) (w, ws) (h, hs) = (k x y w h, Weakened-All P k xs ys ws hs)

Apart-right : (c a b : VirtualAllocation) → Weaker a b → Apart c a → Apart c b
Apart-right c a b (live, base, size) h cl bl = rw (← base, ← size) (h cl (live bl))

Apart-left : (c a b : VirtualAllocation) → Weaker a b → Apart a c → Apart b c
Apart-left c a b (live, base, size) h bl cl = rw (← base, ← size) (h (live bl) cl)

Weakened-AreApart : (xs ys : List VirtualAllocation) → Weakened xs ys → AreApart xs → AreApart ys
Weakened-AreApart [] [] w h = tt
Weakened-AreApart [] (y ∷ ys) w h = elim w [ ]
Weakened-AreApart (x ∷ xs) [] w h = elim w [ ]
Weakened-AreApart (x ∷ xs) (y ∷ ys) (w, ws) (h, hs) =
    (Weakened-All (Apart y) (Apart-right y) xs ys ws (All-left xs h), Weakened-AreApart xs ys ws hs)
  where
    All-left : (zs : List VirtualAllocation) → All (Apart x) zs → All (Apart y) zs
    All-left [] g = tt
    All-left (z ∷ zs) (g, gs) = (Apart-left z x y w g, All-left zs gs)

Weakened-IsArena :
    (m : Arena) (allocs : List VirtualAllocation)
    → IsArena m
    → Weakened m.allocs allocs
    → IsArena (record m { allocs = allocs })
Weakened-IsArena m allocs valid w = record {
  apart = Weakened-AreApart m.allocs allocs w valid.apart;
  inside =
      Weakened-All (Inside m.va_arena m.va_next)
        (λ a b (live, base, size) h bl. rw (← base, ← size) (h (live bl))) m.allocs allocs w
        valid.inside;
  used = valid.used;
  top = valid.top;
}

module _ (generation : ℕ) where
  change_base-Weakened :
      (f : VirtualAllocation → VirtualAllocation)
      → ((a : VirtualAllocation) → Weaker a (f a))
      → (allocs : List VirtualAllocation) (value : ℕ)
      → Weakened allocs (change_base generation f allocs value)
  unfolding change_base
  change_base-Weakened f k [] value = tt
  change_base-Weakened f k (a ∷ allocs) value =
      elim (Bool-cases (is_current generation a && a.virtual_base == value)) [
        | inl q ↦ rw q (k a, Weakened-self allocs)
        | inr q ↦ rw q (Weaker-self a, change_base-Weakened f k allocs value)
      ]

  retire_allocs-Weakened :
      (owned : VirtualAllocation → Bool) (allocs : List VirtualAllocation)
      → Weakened allocs (retire_allocs owned generation allocs)
  unfolding retire_allocs
  retire_allocs-Weakened owned [] = tt
  retire_allocs-Weakened owned (a ∷ allocs) =
      elim (Bool-cases
        (is_current generation a && not (a.graph_id == 0) && not a.graph_active && not (owned a))) [
          | inl q ↦ rw q (tombstone-Weaker a, retire_allocs-Weakened owned allocs)
          | inr q ↦ rw q (Weaker-self a, retire_allocs-Weakened owned allocs)
        ]

released-IsArena :
    (owned : VirtualAllocation → Bool) (m : Arena) (a : VirtualAllocation) (value : ℕ)
    → IsArena m
    → IsArena (released owned m a value)
unfolding released
released-IsArena owned m a value valid = elim (Bool-cases (a.graph_id == 0)) [
  | inl plain ↦ rw plain (
      Weakened-IsArena m _ valid
        (change_base-Weakened m.session_generation tombstone tombstone-Weaker m.allocs value))
  | inr graph ↦
      let inactive : VirtualAllocation → VirtualAllocation =
        λ b. record b { graph_active = false } in
      let changed = change_base m.session_generation inactive m.allocs value in
      rw graph (
        Weakened-IsArena (record m { allocs = changed }) _
          (Weakened-IsArena m changed valid (
            change_base-Weakened m.session_generation inactive (λ b. ((λ h. h), refl, refl))
              m.allocs value))
          (retire_allocs-Weakened m.session_generation owned changed))
]

module _ {S : Type 0} (wire : Wire S) (owned : VirtualAllocation → Bool) (value : ℕ)
    (m : Arena) where
  free_drained-IsArena :
      (a : VirtualAllocation) (dr : Drained S)
      → IsArena m
      → IsArena (free_drained wire owned m a value dr).arena
  unfolding free_drained
  free_drained-IsArena a dr valid =
      elim (Option-cases (remote_free wire a.allocation_id dr.peer).1) [
        | inl failed ↦ rw (failed, free_drained) valid
        | inr (_, done) ↦ rw (done, free_drained) (released-IsArena owned m a value valid)
      ]

  free_entry-IsArena :
      (a : VirtualAllocation) (slots : Slots) (s : S)
      → IsArena m
      → IsArena (free_entry wire owned m a value slots s).arena
  unfolding free_entry
  free_entry-IsArena a slots s valid = elim (Bool-cases (not (a.parent_module_id == 0))) [
    | inl module_owned ↦ rw module_owned valid
    | inr own ↦ elim (Bool-cases (not (a.graph_id == 0) && not a.graph_active)) [
      | inl reserved ↦ rw (own, reserved) valid
      | inr mapped ↦
          elim (Option-cases
            (drain_allocation_transfers_blocking wire a.allocation_id slots s).error) [
              | inl drained ↦ rw (own, mapped, drained) (free_drained-IsArena a _ valid)
              | inr (e, failed) ↦ rw (own, mapped, failed) valid
            ]
    ]
  ]

  -- `cudaFree` keeps the regions of the live allocations apart from each other and in the arena, whatever
  -- its peer answers and whether it succeeds or not.
  pub cuda_free-IsArena :
      (slots : Slots) (s : S) → IsArena m → IsArena (cuda_free wire owned value m slots s).arena
  unfolding cuda_free
  cuda_free-IsArena slots s valid = elim (Bool-cases (value == 0)) [
    | inl null ↦ rw null valid
    | inr some_value ↦
        elim (Option-cases (find_exact_live_base m.session_generation m.allocs value)) [
          | inl missing ↦ rw (some_value, missing) valid
          | inr (a, found) ↦ rw (some_value, found) (free_entry-IsArena a slots s valid)
        ]
  ]
