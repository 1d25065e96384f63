-- ===== src/Server/Handlers/Invariant/Transfers.antt =====
-- The transfer handlers of server/runtime_server.c and the invariant of the session.
use x_remote_runtime.Prelude.{ℕ, ◌≡◌, ◌⊎◌, inl, inr, arith, List, drop, some}
use x_remote_runtime.Protocol.Words.{read_u64}
use x_remote_runtime.Server.Backend.{Driver}
use x_remote_runtime.Server.Table.{Table, new_slot, remove}
use x_remote_runtime.Server.Session.{
  World, TransferEntry, TransferKind, h2d, d2h, find_allocation, resolve_stream_id, with_session,
}
use x_remote_runtime.Server.Transfers.{
  submit_copy, submit, handle_h2d_async_submit, handle_d2h_async_submit, handle_transfer_wait,
  new_transfer, took_transfer,
}
use x_remote_runtime.Server.Transfers.Stages.{submit_copy-Submitted, submit_cases}
use x_remote_runtime.Server.Handlers.Sessions.{
  IsValid, HasIds, IsValidAfter, IsValid-found, new_slot-IsTable, remove-IsTable, update-IsTable,
  with_transfers-IsValid,
}

module _ (d : Driver) (w : World) (v : IsValid w.session) where
  wait_cases :
      (p : List ℕ)
      → ((handle_transfer_wait d w p).0.session ≡ w.session)
        ⊎ ((handle_transfer_wait d w p).0.session
            ≡ (record w.session { transfers = remove (read_u64 p) w.session.transfers }))
  unfolding handle_transfer_wait
  wait_cases p = ground arith

  pub transfer_wait-IsValid : (p : List ℕ) → IsValidAfter (handle_transfer_wait d w p)
  transfer_wait-IsValid p = elim (wait_cases p) [
    | inl q ↦ rw q v
    | inr q ↦
        rw q
          (with_transfers-IsValid v (remove-IsTable w.session.transfers v.transfers (read_u64 p)))
  ]

  module _ (ids : HasIds w.session) where
    submit_copy-IsValid :
        (e e' : TransferEntry) (l : List ℕ) (p s : ℕ) {table : Table TransferEntry}
        → new_slot w.session.next_transfer_id e w.session.transfers ≡ some table
        → IsValidAfter (
            submit_copy d w.session.next_transfer_id table e' l p s
              (with_session w (took_transfer w.session table)))
    submit_copy-IsValid e e' l p s {table} q =
        let t = new_slot-IsTable w.session.transfers v.transfers e ids.transfer q in
        let w' = with_session w (took_transfer w.session table) in
        elim (submit_copy-Submitted d w.session.next_transfer_id table e' l p s w') [
          | inl (_, r) ↦
              rw r (with_transfers-IsValid v (remove-IsTable table t w.session.next_transfer_id))
          | inr (_, _, _, _, r) ↦
              rw r (with_transfers-IsValid v (update-IsTable table t w.session.next_transfer_id _))
        ]

    submit-IsValid : (k : TransferKind) (p : List ℕ) → IsValidAfter (submit d k w p)
    unfolding submit
    submit-IsValid k p =
        IsValid-found (submit d k w p) (find_allocation w.session (read_u64 p)) v
          (λ e. ground arith)
          λ a e1.
            IsValid-found (submit d k w p) (resolve_stream_id w.session (read_u64 (drop 16 p))) v
              (λ e. ground arith)
              λ stream e2.
                IsValid-found (submit d k w p)
                  (new_slot w.session.next_transfer_id
                    (new_transfer k (read_u64 p) (read_u64 (drop 16 p)) (read_u64 (drop 24 p)))
                    w.session.transfers)
                  v (λ e. ground arith)
                  λ table e3. elim (submit_cases d w k p a stream e1 e2 table e3) [
                    | inl (_, q) ↦ rw q v
                    | inr q ↦ rw q (submit_copy-IsValid _ _ _ _ _ e3)
                  ]

    h2d_cases :
        (p : List ℕ)
        → ((handle_h2d_async_submit d w p).0.session ≡ w.session)
          ⊎ (handle_h2d_async_submit d w p ≡ submit d h2d w p)
    unfolding handle_h2d_async_submit
    h2d_cases p = ground arith

    d2h_cases :
        (p : List ℕ)
        → ((handle_d2h_async_submit d w p).0.session ≡ w.session)
          ⊎ (handle_d2h_async_submit d w p ≡ submit d d2h w p)
    unfolding handle_d2h_async_submit
    d2h_cases p = ground arith

    pub h2d_async_submit-IsValid : (p : List ℕ) → IsValidAfter (handle_h2d_async_submit d w p)
    h2d_async_submit-IsValid p = elim (h2d_cases p) [
      | inl q ↦ rw q v
      | inr q ↦ rw q (submit-IsValid h2d p)
    ]

    pub d2h_async_submit-IsValid : (p : List ℕ) → IsValidAfter (handle_d2h_async_submit d w p)
    d2h_async_submit-IsValid p = elim (d2h_cases p) [
      | inl q ↦ rw q v
      | inr q ↦ rw q (submit-IsValid d2h p)
    ]
