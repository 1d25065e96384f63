-- ===== src/Client/Transfers/Waits.antt =====
-- What the loops of src/corex_remote_cuda.c that drain pending transfers send to the server.
use x_remote_runtime.Prelude.{ℕ, zero, suc, ◌≡◌, Option, none, some, List, [], ◌∷◌, Bool, true, All}
use x_remote_runtime.Client.Calls.{Wire, remote_transfer_wait}
use x_remote_runtime.Client.Transfers.{HiddenTransfer, Slots, clear_slot, expected_bytes}
use x_remote_runtime.Client.Transfers.Oldest.{At}

abbrev pub Consumed : Type 0
Consumed = List (HiddenTransfer × List ℕ)

-- The transfer is live in the table.
abbrev pub InTable : HiddenTransfer → Slots → Type 0
InTable t slots = (i : ℕ) × At t i slots

-- A transfer that is in the table after a slot was cleared was there before.
pub At-clear_slot :
    (t : HiddenTransfer) (i k : ℕ) (slots : Slots) → At t i (clear_slot k slots) → At t i slots
unfolding clear_slot
At-clear_slot t i k [] h = h
At-clear_slot t zero zero (slot ∷ slots) h = elim h [ ]
At-clear_slot t (suc i) zero (slot ∷ slots) h = h
At-clear_slot t zero (suc k) (none ∷ slots) h = h
At-clear_slot t zero (suc k) (some u ∷ slots) h = h
At-clear_slot t (suc i) (suc k) (slot ∷ slots) h = At-clear_slot t i k slots h

-- Every transfer of the list was looked for and is in the table.
abbrev pub AllWanted : (HiddenTransfer → Bool) → Slots → Consumed → Type 0
AllWanted test slots consumed = All (λ u. (test u.0 ≡ true) × InTable u.0 slots) consumed

pub AllWanted-clear_slot :
    (test : HiddenTransfer → Bool) (k : ℕ) (slots : Slots) (consumed : Consumed)
    → AllWanted test (clear_slot k slots) consumed
    → AllWanted test slots consumed
AllWanted-clear_slot test k slots [] h = tt
AllWanted-clear_slot test k slots ((t, bytes) ∷ rest) ((match, (i, at)), h) =
    ((match, (i, At-clear_slot t i k slots at)), AllWanted-clear_slot test k slots rest h)

module _ {S : Type 0} (wire : Wire S) where
  -- The wait for a transfer.
  abbrev pub wait_for : HiddenTransfer → S → S × Option (List ℕ)
  wait_for t s = remote_transfer_wait wire t.transfer_id (expected_bytes t) s

  -- From the one state of the server to the other, exactly the transfers of the list were waited for, in
  -- its order, and each wait was answered with the bytes of the list.
  abbrev pub Waited : S → Consumed → S → Type 0
  Waited s [] s' = s ≡ s'
  Waited s ((t, bytes) ∷ rest) s' =
      ((wait_for t s).1 ≡ some bytes) × Waited (wait_for t s).0 rest s'

  -- One more wait, for a transfer that is looked for and is still in the table, was not answered.
  pub record FailedWait (test : HiddenTransfer → Bool) (slots : Slots) (s s' : S) : Type 0 where
    pub transfer : HiddenTransfer
    pub wanted : test transfer ≡ true
    pub still_there : InTable transfer slots
    pub unanswered : (wait_for transfer s).1 ≡ none
    pub peer : s' ≡ (wait_for transfer s).0
