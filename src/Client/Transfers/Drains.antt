-- ===== src/Client/Transfers/Drains.antt =====
-- The loops of src/corex_remote_cuda.c that drain pending transfers: which are consumed, and in what order.
use x_remote_runtime.Prelude.{
  ℕ, ◌+◌, length, ◌≤◌, ◌≡◌, ◌≢◌, ◌⊎◌, Option, none, some, List, [], ◌∷◌, Bool, false, All,
}
use x_remote_runtime.Client.Calls.{Wire}
use x_remote_runtime.Launch.{CudaError, cuda_success}
use x_remote_runtime.Client.Transfers.{
  HiddenTransfer, Slots, live_hidden_transfer_count, consume_hidden_transfer, Drained,
}
use x_remote_runtime.Client.Transfers.Waits.{AllWanted, Waited, FailedWait}
use x_remote_runtime.Client.Transfers.Settled.{InOrder, AllSettled}
use x_remote_runtime.Client.Transfers.Oldest.{Live, Since}

-- How a run of the loop has ended, after the waits that were answered.
abbrev pub Ends : {S : Type 0} → Wire S → (HiddenTransfer → Bool) → Drained S → S → Type 0
Ends wire test r s' =
    ((r.error ≡ none) × (r.peer ≡ s'))
    ⊎ ((e : CudaError) × (r.error ≡ some e) × FailedWait wire test r.slots s' r.peer)

-- What a run of the loop has done, from the table `slots` and the state `s` of the server.
pub record Drains {S : Type 0} (wire : Wire S) (test : HiddenTransfer → Bool) (slots : Slots)
    (s : S) (r : Drained S) : Type 0 where
  pub wanted : AllWanted test slots r.consumed
  pub count :
      live_hidden_transfer_count slots ≡ length r.consumed + live_hidden_transfer_count r.slots
  pub waits : (s' : S) × Waited wire s r.consumed s' × Ends wire test r s'
  pub settled : AllSettled test r.consumed slots r.slots
  pub in_order : InOrder r.consumed
  pub errors : (e : CudaError) → r.error ≡ some e → e ≢ cuda_success
  pub complete : r.error ≡ none → Live (λ t. test t ≡ false) r.slots
  pub answered :
      ((t : HiddenTransfer) (s : S)
        → (bytes : List ℕ) × ((consume_hidden_transfer wire t s).1 ≡ some bytes))
      → r.error ≡ none

module _ {S : Type 0} (wire : Wire S) (test : HiddenTransfer → Bool) where
  abbrev with_consumed : HiddenTransfer → List ℕ → Drained S → Drained S
  with_consumed t bytes rest = record rest { consumed = (t, bytes) ∷ rest.consumed }

  abbrev ended : Slots → S → Option CudaError → Drained S
  ended slots s error = record { slots = slots; peer = s; consumed = []; error = error }

  abbrev Goes : Slots → S → Drained S → Type 0
  Goes slots s r =
      Drains wire test slots s r
      × ((k : ℕ) → Live (Since test k) slots → All (λ u. k ≤ u.0.submit_order) r.consumed)
