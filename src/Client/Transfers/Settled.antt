-- ===== src/Client/Transfers/Settled.antt =====
-- A table of pending transfers of src/corex_remote_cuda.c before and after it is drained.
use x_remote_runtime.Prelude.{
  ℕ, zero, suc, ◌≤◌, ◌≡◌, ◌⊎◌, inl, inr, refl, sym, Option, none, some, List, [], ◌∷◌, Bool, true,
  All,
}
use x_remote_runtime.Client.Transfers.{HiddenTransfer, Slots, clear_slot}
use x_remote_runtime.Client.Transfers.Waits.{Consumed}
use x_remote_runtime.Client.Transfers.Oldest.{At}

abbrev pub Among : HiddenTransfer → Consumed → Type 0
Among t [] = ⊥
Among t ((u, bytes) ∷ rest) = (t ≡ u) ⊎ Among t rest

-- Every later one was submitted no earlier.
abbrev pub InOrder : Consumed → Type 0
InOrder [] = Unit {0}
InOrder ((t, bytes) ∷ rest) = All (λ u. t.submit_order ≤ u.0.submit_order) rest × InOrder rest

-- A slot is as before, or it was live, was looked for and was consumed, and is free now.
abbrev pub Settled :
    (HiddenTransfer → Bool) → Consumed → Option HiddenTransfer → Option HiddenTransfer → Type 0
Settled test consumed before after =
    (after ≡ before)
    ⊎ ((t : HiddenTransfer) × (before ≡ some t)
        × (test t ≡ true)
        × Among t consumed
        × (after ≡ none))

abbrev pub AllSettled : (HiddenTransfer → Bool) → Consumed → Slots → Slots → Type 0
AllSettled test consumed [] [] = Unit {0}
AllSettled test consumed [] (y ∷ ys) = ⊥
AllSettled test consumed (x ∷ xs) [] = ⊥
AllSettled test consumed (x ∷ xs) (y ∷ ys) =
    Settled test consumed x y × AllSettled test consumed xs ys

module _ (test : HiddenTransfer → Bool) where
  pub AllSettled-self : (consumed : Consumed) (slots : Slots) → AllSettled test consumed slots slots
  AllSettled-self consumed [] = tt
  AllSettled-self consumed (x ∷ xs) = (inl refl, AllSettled-self consumed xs)

  Settled-more :
      (t : HiddenTransfer) (bytes : List ℕ) (consumed : Consumed) (x y : Option HiddenTransfer)
      → Settled test consumed x y
      → Settled test ((t, bytes) ∷ consumed) x y
  Settled-more t bytes consumed x y (inl same) = inl same
  Settled-more t bytes consumed x y (inr (u, live, match, among, free)) =
      inr (u, live, match, inr among, free)

  AllSettled-more :
      (t : HiddenTransfer) (bytes : List ℕ) (consumed : Consumed) (xs ys : Slots)
      → AllSettled test consumed xs ys
      → AllSettled test ((t, bytes) ∷ consumed) xs ys
  AllSettled-more t bytes consumed [] [] h = tt
  AllSettled-more t bytes consumed [] (y ∷ ys) h = elim h [ ]
  AllSettled-more t bytes consumed (x ∷ xs) [] h = elim h [ ]
  AllSettled-more t bytes consumed (x ∷ xs) (y ∷ ys) (h, hs) =
      (Settled-more t bytes consumed x y h, AllSettled-more t bytes consumed xs ys hs)

  -- One slot is cleared, and the rest settles from there.
  pub AllSettled-clear_slot :
      (t : HiddenTransfer) (bytes : List ℕ) (consumed : Consumed) (i : ℕ) (xs ys : Slots)
      → At t i xs
      → test t ≡ true
      → AllSettled test consumed (clear_slot i xs) ys
      → AllSettled test ((t, bytes) ∷ consumed) xs ys
  unfolding clear_slot
  AllSettled-clear_slot t bytes consumed i [] ys at match h = elim at [ ]
  AllSettled-clear_slot t bytes consumed zero (none ∷ xs) ys at match h = elim at [ ]
  AllSettled-clear_slot t bytes consumed zero (some u ∷ xs) [] at match h = elim h [ ]
  AllSettled-clear_slot t bytes consumed zero (some u ∷ xs) (y ∷ ys) at match (h, hs) = (
    inr (
      u,
      refl,
      rw (← at) match,
      inl (sym at),
      elim h [ inl free ↦ free | inr (v, e, _, _, free) ↦ free ],
    ),
    AllSettled-more t bytes consumed xs ys hs,
  )
  AllSettled-clear_slot t bytes consumed (suc i) (x ∷ xs) [] at match h = elim h [ ]
  AllSettled-clear_slot t bytes consumed (suc i) (x ∷ xs) (y ∷ ys) at match (h, hs) = (
    Settled-more t bytes consumed x y h,
    AllSettled-clear_slot t bytes consumed i xs ys at match hs,
  )
