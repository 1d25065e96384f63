-- ===== src/Server/Modules/Tables.antt =====
-- A table of server/runtime_server.c after a loop that clears entries, as in invalidate_module_kernels.
use x_remote_runtime.Prelude.{
  suc, ℕ, ◌≡◌, refl, ap, ◌∙◌, arith, Option, none, some, [], ◌∷◌, Bool, ◌==◌, if◌then◌else◌, length,
  Bool-cases, inl, inr,
}
use mathlib.Core.Path.{subst}
use x_remote_runtime.Server.Table.{Table, find}
use x_remote_runtime.Server.Table.Laws.{IsDistinct, IsBelow}
use x_remote_runtime.Server.Handlers.Sessions.{IsTable}
use x_remote_runtime.Server.Modules.{clear_where}

module _ {A : Type 0} (p : A → Bool) where
  abbrev pub kept : Option A → Option A
  kept none = none
  kept (some a) = if p a then none else some a

  -- The entries that the test is true of are gone, and all others are found.
  pub find-clear_where :
      (j : ℕ) (t : Table A) → IsDistinct t → find j (clear_where p t) ≡ kept (find j t)
  unfolding find clear_where
  find-clear_where j [] h = refl
  find-clear_where j (none ∷ t) h = find-clear_where j t h
  find-clear_where j (some (i, a) ∷ t) (fresh, h) =
      let rest = find-clear_where j t h in
      elim (Bool-cases (i == j)) [
        | inl same ↦
            let here : i ≡ j = ground (arith, same) in
            let behind : find j t ≡ none = subst (λ x. find x t ≡ none) here fresh in
            ground (arith, rest, behind, same)
        | inr other ↦ ground (arith, rest, other)
      ]

  clear_where-none : (j : ℕ) (t : Table A) → find j t ≡ none → find j (clear_where p t) ≡ none
  unfolding find clear_where
  clear_where-none j [] h = refl
  clear_where-none j (none ∷ t) h = clear_where-none j t h
  clear_where-none j (some (i, a) ∷ t) h = ground (arith, h, clear_where-none j t)

  clear_where-IsDistinct : (t : Table A) → IsDistinct t → IsDistinct (clear_where p t)
  unfolding clear_where
  clear_where-IsDistinct [] h = tt
  clear_where-IsDistinct (none ∷ t) h = clear_where-IsDistinct t h
  clear_where-IsDistinct (some (i, a) ∷ t) (fresh, h) =
      let rest = clear_where-IsDistinct t h in
      elim (Bool-cases (p a)) [
        | inl gone ↦ rw gone rest
        | inr stays ↦ rw stays (clear_where-none i t fresh, rest)
      ]

  clear_where-IsBelow : (n : ℕ) (t : Table A) → IsBelow n t → IsBelow n (clear_where p t)
  unfolding clear_where
  clear_where-IsBelow n [] h = tt
  clear_where-IsBelow n (none ∷ t) h = clear_where-IsBelow n t h
  clear_where-IsBelow n (some (i, a) ∷ t) (positive, small, h) =
      let rest = clear_where-IsBelow n t h in
      elim (Bool-cases (p a)) [
        | inl gone ↦ rw gone rest
        | inr stays ↦ rw stays (positive, small, rest)
      ]

  length-clear_where : (t : Table A) → length (clear_where p t) ≡ length t
  unfolding clear_where
  length-clear_where [] = refl
  length-clear_where (none ∷ t) = ap suc (length-clear_where t)
  length-clear_where (some (i, a) ∷ t) = ground (arith, length-clear_where t)

  pub clear_where-IsTable :
      {capacity next : ℕ} (t : Table A)
      → IsTable capacity next t
      → IsTable capacity next (clear_where p t)
  clear_where-IsTable {capacity} {next} t v = record {
    distinct = clear_where-IsDistinct t v.distinct;
    below = clear_where-IsBelow next t v.below;
    full_length = length-clear_where t ∙ v.full_length;
    positive = v.positive;
  }
