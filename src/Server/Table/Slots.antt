-- ===== src/Server/Table/Slots.antt =====
-- What a lookup finds after the uses that server/runtime_server.c makes of a table.
use x_remote_runtime.Prelude.{ℕ, ◌≡◌, arith, ◌∙◌, ap, none, some, ◌==◌, if◌then◌else◌}
use x_remote_runtime.Server.Table.{Table, find, new_slot, remove, update}
use x_remote_runtime.Server.Table.Laws.{
  IsDistinct, find-remove_ne, find-remove_self, find-update_self, find-update_ne, find-new_slot,
  remove-new_slot,
}

module _ {A : Type 0} (i j : ℕ) where
  pub find-remove :
      (t : Table A) → IsDistinct t → find j (remove i t) ≡ (if i == j then none else find j t)
  find-remove t h = ground (arith, find-remove_ne i j t, find-remove_self i t h)

  pub find-update :
      (f : A → A) (t : Table A) {a : A}
      → find i t ≡ some a
      → find j (update i f t) ≡ (if i == j then some (f a) else find j t)
  find-update f t e = ground (arith, find-update_ne i j f t, find-update_self i f t e)

  -- A slot that was taken and filled.
  pub find-filled :
      (a : A) (f : A → A) (t : Table A) {t' : Table A}
      → find i t ≡ none
      → new_slot i a t ≡ some t'
      → find j (update i f t') ≡ (if i == j then some (f a) else find j t)
  find-filled a f t {t'} h e =
      let here : find i t' ≡ some a = find-new_slot i i a t h e ∙ ground arith in
      find-update f t' here ∙ rw (find-new_slot i j a t h e) (ground arith)

  -- A slot that was taken and given back.
  pub find-given_back :
      (a : A) (t : Table A) {t' : Table A}
      → find i t ≡ none
      → new_slot i a t ≡ some t'
      → find j (remove i t') ≡ find j t
  find-given_back a t h e = ap (find j) (remove-new_slot i a t h e)
