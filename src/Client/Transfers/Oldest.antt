-- ===== src/Client/Transfers/Oldest.antt =====
-- The transfer that src/corex_remote_cuda.c consumes next is the oldest of those that it looks for.
use x_remote_runtime.Prelude.{
  ℕ, zero, suc, ◌≤◌, ◌≡◌, inl, inr, refl, ap, arith, Option, none, some, [], ◌∷◌, Bool, true, false,
  ltb, if◌then◌else◌, Bool-cases,
}
use x_remote_runtime.Client.Transfers.{
  HiddenTransfer, Slots, live_hidden_transfer_count, older, shift, oldest_matching_transfer,
  clear_slot,
}

-- What holds of the live transfers of a table.
abbrev pub Live : (HiddenTransfer → Type 0) → Slots → Type 0
Live P [] = Unit {0}
Live P (none ∷ slots) = Live P slots
Live P (some t ∷ slots) = P t × Live P slots

-- A transfer in a slot.
abbrev pub At : HiddenTransfer → ℕ → Slots → Type 0
At t i [] = ⊥
At t zero (none ∷ slots) = ⊥
At t zero (some u ∷ slots) = t ≡ u
At t (suc i) (slot ∷ slots) = At t i slots

Live-mono :
    (P Q : HiddenTransfer → Type 0)
    → ((t : HiddenTransfer) → P t → Q t)
    → (slots : Slots) → Live P slots
    → Live Q slots
Live-mono P Q k [] h = tt
Live-mono P Q k (none ∷ slots) h = Live-mono P Q k slots h
Live-mono P Q k (some t ∷ slots) (h, hs) = (k t h, Live-mono P Q k slots hs)

pub Live-clear_slot :
    (P : HiddenTransfer → Type 0) (i : ℕ) (slots : Slots)
    → Live P slots
    → Live P (clear_slot i slots)
unfolding clear_slot
Live-clear_slot P i [] h = tt
Live-clear_slot P zero (none ∷ slots) h = h
Live-clear_slot P zero (some t ∷ slots) (h, hs) = hs
Live-clear_slot P (suc i) (none ∷ slots) h = Live-clear_slot P i slots h
Live-clear_slot P (suc i) (some t ∷ slots) (h, hs) = (h, Live-clear_slot P i slots hs)

pub At-count :
    (t : HiddenTransfer) (i : ℕ) (slots : Slots)
    → At t i slots
    → live_hidden_transfer_count slots ≡ suc (live_hidden_transfer_count (clear_slot i slots))
unfolding live_hidden_transfer_count clear_slot
At-count t i [] h = elim h [ ]
At-count t zero (none ∷ slots) h = elim h [ ]
At-count t zero (some u ∷ slots) h = refl
At-count t (suc i) (none ∷ slots) h = At-count t i slots h
At-count t (suc i) (some u ∷ slots) h = ap suc (At-count t i slots h)

-- The transfer at a place is live.
pub Live-At :
    (P : HiddenTransfer → Type 0) (t : HiddenTransfer) (i : ℕ) (slots : Slots)
    → At t i slots
    → Live P slots
    → P t
Live-At P t i [] at h = elim at [ ]
Live-At P t zero (none ∷ slots) at h = elim at [ ]
Live-At P t zero (some u ∷ slots) at (h, hs) = rw at h
Live-At P t (suc i) (none ∷ slots) at h = Live-At P t i slots at h
Live-At P t (suc i) (some u ∷ slots) at (h, hs) = Live-At P t i slots at hs

module _ (test : HiddenTransfer → Bool) where
  -- Every live transfer that is looked for was submitted at this time or later.
  abbrev pub Since : ℕ → HiddenTransfer → Type 0
  Since order u = test u ≡ true → order ≤ u.submit_order

  -- What the search says.
  abbrev pub Finds : Slots → Option (ℕ × HiddenTransfer) → Type 0
  Finds slots none = Live (λ u. test u ≡ false) slots
  Finds slots (some (i, t)) = At t i slots × (test t ≡ true) × Live (Since t.submit_order) slots

  Since-skip : (k : ℕ) (u : HiddenTransfer) → test u ≡ false → Since k u
  Since-skip k u h e = absurd (ground (arith, h, e))

  pub oldest_matching_transfer-Finds :
      (slots : Slots) → Finds slots (oldest_matching_transfer test slots)
  unfolding oldest_matching_transfer
  oldest_matching_transfer-Finds [] = tt
  oldest_matching_transfer-Finds (none ∷ slots) =
      go (oldest_matching_transfer test slots) (oldest_matching_transfer-Finds slots)
    where
      go : (o : Option (ℕ × HiddenTransfer)) → Finds slots o → Finds (none ∷ slots) (shift o)
      go none h = h
      go (some (i, t)) h = h
  oldest_matching_transfer-Finds (some u ∷ slots) =
      go (oldest_matching_transfer test slots) (oldest_matching_transfer-Finds slots)
    where
      keep :
          (o : Option (ℕ × HiddenTransfer))
          → test u ≡ false
          → Finds slots o
          → Finds (some u ∷ slots) (shift o)
      keep none q h = (q, h)
      keep (some (i, t)) q (at, match, least) = (at, match, (Since-skip t.submit_order u q, least))

      join :
          (o : Option (ℕ × HiddenTransfer))
          → test u ≡ true
          → Finds slots o
          → Finds (some u ∷ slots) (older u o)
      join none q h = (
        refl,
        q,
        (
          (λ _. omega arith),
          Live-mono (λ t. test t ≡ false) (Since u.submit_order) (Since-skip u.submit_order) slots
              h,
        ),
      )
      join (some (i, t)) q (at, match, least) =
          elim (Bool-cases (ltb t.submit_order u.submit_order)) [
            | inl before ↦ rw before (at, match, ((λ _. ground arith), least))
            | inr behind ↦ rw behind (
              refl,
              q,
              (
                (λ _. omega arith),
                Live-mono (Since t.submit_order) (Since u.submit_order)
                    (λ v k e. ground (arith, k e, behind)) slots least,
              ),
            )
          ]

      go :
          (o : Option (ℕ × HiddenTransfer))
          → Finds slots o
          → Finds (some u ∷ slots) (if test u then older u o else shift o)
      go o h = elim (Bool-cases (test u)) [ inl q ↦ rw q (join o q h) | inr q ↦ rw q (keep o q h) ]
