-- ===== src/Client/Arena/Settles.antt =====
-- `cudaFree` of src/corex_remote_cuda.c consumes the pending transfers of an allocation before it goes.
use x_remote_runtime.Prelude.{ℕ, ◌+◌, length, ◌⊎◌, ◌≡◌, ◌≢◌, some, [], Bool, false}
use x_remote_runtime.Launch.{cuda_success}
use x_remote_runtime.Client.Calls.{Wire, remote_free}
use x_remote_runtime.Client.Transfers.{Slots, live_hidden_transfer_count, of_allocation}
use x_remote_runtime.Client.Transfers.Waits.{AllWanted, Waited, FailedWait}
use x_remote_runtime.Client.Transfers.Oldest.{Live}
use x_remote_runtime.Client.Transfers.Settled.{AllSettled, InOrder}
use x_remote_runtime.Client.Transfers.Drains.{Drains}
use x_remote_runtime.Client.Arena.{Arena, VirtualAllocation, Freed}

module _ {S : Type 0} (wire : Wire S) (owned : VirtualAllocation → Bool) (value : ℕ) (m : Arena)
    (a : VirtualAllocation) where
  -- It belongs to a module, or to a graph that does not have it mapped.
  abbrev pub NotFreeable : Type 0
  NotFreeable = (a.parent_module_id ≢ 0) ⊎ ((a.graph_id ≢ 0) × (a.graph_active ≡ false))

  -- What was sent after the waits that were answered, from the state `s'` on: nothing, since the free is
  -- refused; a wait that was not answered; or the free of the allocation on the server.
  abbrev pub FreeEnds : Freed S → S → Type 0
  FreeEnds r s' =
      (NotFreeable × (r.error ≢ cuda_success) × (r.consumed ≡ []) × (r.peer ≡ s'))
      ⊎ ((r.error ≢ cuda_success)
          × FailedWait wire (of_allocation a.allocation_id) r.slots s' r.peer)
      ⊎ (Live (λ t. of_allocation a.allocation_id t ≡ false) r.slots
          × (r.peer ≡ (remote_free wire a.allocation_id s').0)
          × (r.error ≡ cuda_success → (remote_free wire a.allocation_id s').1 ≡ some tt)
          × ((remote_free wire a.allocation_id s').1 ≡ some tt → r.error ≡ cuda_success))

  -- What a free of the allocation has done with the pending transfers, from the table `slots` and the
  -- state `s` of the server.
  pub record SettlesAll (slots : Slots) (s : S) (r : Freed S) : Type 0 where
    pub wanted : AllWanted (of_allocation a.allocation_id) slots r.consumed
    pub count :
        live_hidden_transfer_count slots ≡ length r.consumed + live_hidden_transfer_count r.slots
    pub waits : (s' : S) × Waited wire s r.consumed s' × FreeEnds r s'
    pub settled : AllSettled (of_allocation a.allocation_id) r.consumed slots r.slots
    pub in_order : InOrder r.consumed
    pub gone : r.error ≡ cuda_success → Live (λ t. of_allocation a.allocation_id t ≡ false) r.slots
