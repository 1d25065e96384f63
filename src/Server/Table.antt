-- ===== src/Server/Table.antt =====
-- The fixed resource tables of server/runtime_server.c (`find_*`, `new_*_slot`).
-- An entry is `none` while its `used` flag is 0: the code zeroes such an entry with `memset`. A used
-- entry is its `id` and the other fields. A pointer to an entry is the id by which it was found.
pub mod Laws
pub mod Slots
use x_remote_runtime.Prelude.{
  ℕ, suc, ◌+◌, ◌%◌, ◌^◌, Option, none, some, List, [], ◌∷◌, ◌==◌, if◌then◌else◌, ◌>>=◌,
}

abbrev pub Table {ℓ} : Type ℓ → Type ℓ
Table A = List (Option (ℕ × A))

-- `session->next_alloc_id++` on a uint64_t.
abbrev pub next_id : ℕ → ℕ
next_id n = (n + 1) % 2 ^ 64

module _ {ℓ} {A : Type ℓ} where
  -- The first used entry with the id.
  unfoldable pub find : ℕ → Table A → Option A
  find id [] = none
  find id (none ∷ t) = find id t
  find id (some (i, a) ∷ t) = if i == id then some a else find id t

  -- The first unused entry is taken; `none` if every entry is in use.
  unfoldable pub new_slot : ℕ → A → Table A → Option (Table A)
  new_slot id a [] = none
  new_slot id a (none ∷ t) = some (some (id, a) ∷ t)
  new_slot id a (some e ∷ t) = do t' ← new_slot id a t; some (some e ∷ t')

  -- `memset(entry, 0, sizeof(*entry))` on the entry that `find` returns.
  unfoldable pub remove : ℕ → Table A → Table A
  remove id [] = []
  remove id (none ∷ t) = none ∷ remove id t
  remove id (some (i, a) ∷ t) = if i == id then none ∷ t else some (i, a) ∷ remove id t

  -- A write to the fields of the entry that `find` returns.
  unfoldable pub update : ℕ → (A → A) → Table A → Table A
  update id f [] = []
  update id f (none ∷ t) = none ∷ update id f t
  update id f (some (i, a) ∷ t) = if i == id then some (i, f a) ∷ t else some (i, a) ∷ update id f t
