-- ===== src/Server/Table/Laws.antt =====
-- The laws of the resource tables of server/runtime_server.c.
use x_remote_runtime.Prelude.{
  ℕ, suc, ◌≤◌, ◌<◌, ◌≡◌, ◌≢◌, refl, ap, inl, inr, arith, none, some, [], ◌∷◌, ◌==◌, if◌then◌else◌,
  length, Option-cases, Bool-cases, ==_refl,
}
use mathlib.Core.Path.{subst}
use x_remote_runtime.Server.Table.{Table, find, new_slot, remove, update}

module _ {A : Type 0} where
  -- No two used entries share an id.
  abbrev pub IsDistinct : Table A → Type 0
  IsDistinct [] = Unit {0}
  IsDistinct (none ∷ t) = IsDistinct t
  IsDistinct (some (i, a) ∷ t) = (find i t ≡ none) × IsDistinct t

  -- Every used id is nonzero and below the next one to be given.
  abbrev pub IsBelow : ℕ → Table A → Type 0
  IsBelow n [] = Unit {0}
  IsBelow n (none ∷ t) = IsBelow n t
  IsBelow n (some (i, a) ∷ t) = (0 < i) × (i < n) × IsBelow n t

  abbrev pub used : Table A → ℕ
  used [] = 0
  used (none ∷ t) = used t
  used (some e ∷ t) = suc (used t)

  pub length-remove : (i : ℕ) (t : Table A) → length (remove i t) ≡ length t
  unfolding remove
  length-remove i [] = refl
  length-remove i (none ∷ t) = ap suc (length-remove i t)
  length-remove i (some (j, a) ∷ t) = ground (arith, length-remove i t)

  pub length-update : (i : ℕ) (f : A → A) (t : Table A) → length (update i f t) ≡ length t
  unfolding update
  length-update i f [] = refl
  length-update i f (none ∷ t) = ap suc (length-update i f t)
  length-update i f (some (j, a) ∷ t) = ground (arith, length-update i f t)

  pub length-new_slot :
      (i : ℕ) (a : A) (t : Table A) {t' : Table A} → new_slot i a t ≡ some t' → length t' ≡ length t
  unfolding new_slot
  length-new_slot i a [] e = ground arith
  length-new_slot i a (none ∷ t) e = ground arith
  length-new_slot i a (some x ∷ t) e = elim (Option-cases (new_slot i a t)) [
    | inl q ↦ ground (arith, q)
    | inr (u, q) ↦ ground (arith, q, length-new_slot i a t q)
  ]

  pub find-remove_ne : (i j : ℕ) (t : Table A) → i ≢ j → find j (remove i t) ≡ find j t
  unfolding find remove
  find-remove_ne i j [] h = refl
  find-remove_ne i j (none ∷ t) h = find-remove_ne i j t h
  find-remove_ne i j (some (k, a) ∷ t) h = ground (arith, find-remove_ne i j t h)

  pub find-remove_self : (i : ℕ) (t : Table A) → IsDistinct t → find i (remove i t) ≡ none
  unfolding find remove
  find-remove_self i [] d = refl
  find-remove_self i (none ∷ t) d = find-remove_self i t d
  find-remove_self i (some (k, a) ∷ t) (fresh, d) = ground (arith, find-remove_self i t d)

  pub remove-IsDistinct : (i : ℕ) (t : Table A) → IsDistinct t → IsDistinct (remove i t)
  unfolding remove
  remove-IsDistinct i [] d = d
  remove-IsDistinct i (none ∷ t) d = remove-IsDistinct i t d
  remove-IsDistinct i (some (k, a) ∷ t) (fresh, d) =
      ground (arith, remove-IsDistinct i t d, find-remove_ne i k t)

  pub remove-IsBelow : (i n : ℕ) (t : Table A) → IsBelow n t → IsBelow n (remove i t)
  unfolding remove
  remove-IsBelow i n [] b = b
  remove-IsBelow i n (none ∷ t) b = remove-IsBelow i n t b
  remove-IsBelow i n (some (k, a) ∷ t) b = ground (arith, remove-IsBelow i n t b.2)

  pub find-update_self :
      (i : ℕ) (f : A → A) (t : Table A) {a : A}
      → find i t ≡ some a
      → find i (update i f t) ≡ some (f a)
  unfolding find update
  find-update_self i f [] e = ground arith
  find-update_self i f (none ∷ t) e = find-update_self i f t e
  find-update_self i f (some (k, b) ∷ t) e = elim (Bool-cases (k == i)) [
    | inl same ↦ rw (same, find, same) (ground (arith, same))
    | inr other ↦ rw (other, find, other) (find-update_self i f t (ground (arith, other)))
  ]

  pub find-update_ne :
      (i j : ℕ) (f : A → A) (t : Table A) → i ≢ j → find j (update i f t) ≡ find j t
  unfolding find update
  find-update_ne i j f [] h = refl
  find-update_ne i j f (none ∷ t) h = find-update_ne i j f t h
  find-update_ne i j f (some (k, a) ∷ t) h = ground (arith, find-update_ne i j f t h)

  pub find-update-none :
      (i j : ℕ) (f : A → A) (t : Table A) → find j t ≡ none → find j (update i f t) ≡ none
  unfolding find update
  find-update-none i j f [] h = refl
  find-update-none i j f (none ∷ t) h = find-update-none i j f t h
  find-update-none i j f (some (k, a) ∷ t) h = ground (arith, find-update-none i j f t)

  pub update-IsDistinct :
      (i : ℕ) (f : A → A) (t : Table A) → IsDistinct t → IsDistinct (update i f t)
  unfolding update
  update-IsDistinct i f [] d = d
  update-IsDistinct i f (none ∷ t) d = update-IsDistinct i f t d
  update-IsDistinct i f (some (k, a) ∷ t) (fresh, d) =
      ground (arith, update-IsDistinct i f t d, find-update-none i k f t fresh)

  pub update-IsBelow : (i n : ℕ) (f : A → A) (t : Table A) → IsBelow n t → IsBelow n (update i f t)
  unfolding update
  update-IsBelow i n f [] b = b
  update-IsBelow i n f (none ∷ t) b = update-IsBelow i n f t b
  update-IsBelow i n f (some (k, a) ∷ t) b = ground (arith, update-IsBelow i n f t b.2)

  pub IsBelow-find : (n i : ℕ) (t : Table A) → IsBelow n t → n ≤ i → find i t ≡ none
  unfolding find
  IsBelow-find n i [] b h = refl
  IsBelow-find n i (none ∷ t) b h = IsBelow-find n i t b h
  IsBelow-find n i (some (k, a) ∷ t) b h = ground (arith, IsBelow-find n i t b.2)

  pub IsBelow-mono : (m n : ℕ) (t : Table A) → m ≤ n → IsBelow m t → IsBelow n t
  IsBelow-mono m n [] h b = tt
  IsBelow-mono m n (none ∷ t) h b = IsBelow-mono m n t h b
  IsBelow-mono m n (some (k, a) ∷ t) h (p, l, b) = (p, omega arith, IsBelow-mono m n t h b)

  -- A new entry is found under its id, and the others as before.
  pub find-new_slot :
      (i j : ℕ) (a : A) (t : Table A) {t' : Table A}
      → find i t ≡ none
      → new_slot i a t ≡ some t'
      → find j t' ≡ (if i == j then some a else find j t)
  unfolding find new_slot
  find-new_slot i j a [] h e = ground arith
  find-new_slot i j a (none ∷ t) h e = ground arith
  find-new_slot i j a (some (k, b) ∷ t) h e = elim (Option-cases (new_slot i a t)) [
    | inl q ↦ ground (arith, q)
    | inr (u, q) ↦ ground (arith, q, find-new_slot i j a t (ground arith) q)
  ]

  pub new_slot-IsDistinct :
      (i : ℕ) (a : A) (t : Table A) {t' : Table A}
      → find i t ≡ none
      → IsDistinct t
      → new_slot i a t ≡ some t'
      → IsDistinct t'
  unfolding new_slot find
  new_slot-IsDistinct i a [] h d e = ground arith
  new_slot-IsDistinct i a (none ∷ t) {t'} h d e =
      let whole : some (i, a) ∷ t ≡ t' = ground arith in subst IsDistinct whole (h, d)
  new_slot-IsDistinct i a (some (k, b) ∷ t) {t'} h (fresh, d) e =
      elim (Option-cases (new_slot i a t)) [
        | inl q ↦ ground (arith, q)
        | inr (u, q) ↦
            let whole : some (k, b) ∷ u ≡ t' = ground (arith, q) in
            subst IsDistinct whole (
              ground (arith, find-new_slot i k a t (ground arith) q),
              new_slot-IsDistinct i a t (ground arith) d q,
            )
      ]

  pub new_slot-IsBelow :
      (i n : ℕ) (a : A) (t : Table A) {t' : Table A}
      → 0 < i
      → i < n
      → IsBelow n t
      → new_slot i a t ≡ some t'
      → IsBelow n t'
  unfolding new_slot
  new_slot-IsBelow i n a [] p l b e = ground arith
  new_slot-IsBelow i n a (none ∷ t) {t'} p l b e =
      let whole : some (i, a) ∷ t ≡ t' = ground arith in subst (IsBelow n) whole (p, l, b)
  new_slot-IsBelow i n a (some (k, c) ∷ t) {t'} p l (pk, lk, b) e =
      elim (Option-cases (new_slot i a t)) [
        | inl q ↦ ground (arith, q)
        | inr (u, q) ↦
            let whole : some (k, c) ∷ u ≡ t' = ground (arith, q) in
            subst (IsBelow n) whole (pk, lk, new_slot-IsBelow i n a t p l b q)
      ]

  -- A slot is refused exactly when the table is full.
  pub new_slot-none : (i : ℕ) (a : A) (t : Table A) → new_slot i a t ≡ none → used t ≡ length t
  unfolding new_slot
  new_slot-none i a [] e = refl
  new_slot-none i a (none ∷ t) e = ground arith
  new_slot-none i a (some x ∷ t) e = elim (Option-cases (new_slot i a t)) [
    | inl q ↦ ap suc (new_slot-none i a t q)
    | inr (u, q) ↦ ground (arith, q)
  ]

  -- Taking a slot and giving it back.
  pub remove-new_slot :
      (i : ℕ) (a : A) (t : Table A) {t' : Table A}
      → find i t ≡ none
      → new_slot i a t ≡ some t'
      → remove i t' ≡ t
  unfolding new_slot find remove
  remove-new_slot i a [] h e = ground arith
  remove-new_slot i a (none ∷ t) {t'} h e =
      let whole : some (i, a) ∷ t ≡ t' = ground arith in rw (← whole) (rw (==_refl i))
  remove-new_slot i a (some (k, c) ∷ t) {t'} h e = elim (Option-cases (new_slot i a t)) [
    | inl q ↦ ground (arith, q)
    | inr (u, q) ↦
        let whole : some (k, c) ∷ u ≡ t' = ground (arith, q) in
        rw (← whole) (ground (arith, remove-new_slot i a t (ground arith) q))
  ]
