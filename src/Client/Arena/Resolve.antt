-- ===== src/Client/Arena/Resolve.antt =====
-- `resolve_remote_ptr` of src/corex_remote_cuda.c finds the allocation that a pointer points into.
use x_remote_runtime.Prelude.{
  ℕ, ◌+◌, ◌%◌, ◌^◌, ◌≤◌, ◌<◌, ◌≡◌, ◌⊎◌, ◌↔◌, inl, inr, refl, sym, ◌∙◌, arith, List, [], ◌∷◌, All,
  true, false, ◌||◌, ltb, Bool-cases,
}
use mathlib.Core.Path.{subst}
use x_remote_runtime.Client.Arena.{
  Arena, VirtualAllocation, resolve_ok, resolve_entry, resolve_in, resolve_remote_ptr, is_current,
}
use x_remote_runtime.Client.Arena.Regions.{Apart, AreApart, Inside, IsArena}

abbrev pub Occurs : VirtualAllocation → List VirtualAllocation → Type 0
Occurs a [] = ⊥
Occurs a (b ∷ allocs) = (a ≡ b) ⊎ Occurs a allocs

-- The entry for which `n` bytes at `value` stand, and the offset in it.
pub record PointsInto (generation : ℕ) (value n id offset : ℕ) (a : VirtualAllocation)
    : Type 0 where
  pub current : is_current generation a ≡ true
  pub mapped : (a.graph_id ≡ 0) ⊎ (a.graph_active ≡ true)
  pub place : value ≡ a.virtual_base + offset
  pub fits : offset + n ≤ a.size
  pub names : a.allocation_id ≡ id

All-Occurs :
    (P : VirtualAllocation → Type 0) (a : VirtualAllocation) (allocs : List VirtualAllocation)
    → All P allocs
    → Occurs a allocs
    → P a
All-Occurs P a [] h here = elim here [ ]
All-Occurs P a (b ∷ allocs) (h, hs) (inl same) = subst P (sym same) h
All-Occurs P a (b ∷ allocs) (h, hs) (inr later) = All-Occurs P a allocs hs later

module _ (generation value n id offset : ℕ) where
  -- An entry that answers, if it is in range.
  resolve_entry-ok :
      (a : VirtualAllocation)
      → PointsInto generation value n id offset a
      → resolve_entry false a value n ≡ resolve_ok id offset
  unfolding resolve_entry
  resolve_entry-ok a h = ground (arith, h.current, h.mapped, h.place, h.fits, h.names)

  resolve_in-here :
      (a : VirtualAllocation) (allocs : List VirtualAllocation)
      → a.virtual_base + a.size < 2 ^ 64
      → PointsInto generation value n id offset a
      → resolve_in false generation (a ∷ allocs) value n ≡ resolve_ok id offset
  unfolding resolve_in
  resolve_in-here a allocs short h =
      let in_range : (ltb value a.virtual_base || ltb ((a.virtual_base + a.size) % 2 ^ 64) value)
          ≡ false =
        ground (arith, h.place, h.fits) in
      rw (h.current, in_range) (resolve_entry-ok a h)

  resolve_in-later :
      (a : VirtualAllocation) (allocs : List VirtualAllocation)
      → (is_current generation a ≡ true
          → (a.virtual_base + a.size < 2 ^ 64)
            × ((value < a.virtual_base) ⊎ (a.virtual_base + a.size < value)))
      → resolve_in false generation (a ∷ allocs) value n
        ≡ resolve_in false generation allocs value n
  unfolding resolve_in
  resolve_in-later a allocs k = elim (Bool-cases (is_current generation a)) [
    | inl q ↦
        let (short, away) = k q in
        let out_of_range : (ltb value a.virtual_base
              || ltb ((a.virtual_base + a.size) % 2 ^ 64) value)
            ≡ true =
          ground arith in
        rw (q, out_of_range) refl
    | inr q ↦ rw q refl
  ]

  -- A region in the arena, and another one that is apart from it.
  region-short :
      (va_arena va_next : ℕ) (a : VirtualAllocation)
      → va_arena + va_next < 2 ^ 64
      → Inside va_arena va_next a
      → a.live ≡ true
      → a.virtual_base + a.size < 2 ^ 64
  region-short va_arena va_next a top inside live = let (low, high) = inside live in omega arith

  current-live : (a : VirtualAllocation) → is_current generation a ≡ true → a.live ≡ true
  current-live a h = ground (arith, h)

  Apart-away :
      (a b : VirtualAllocation)
      → PointsInto generation value n id offset a
      → Apart b a
      → b.live ≡ true
      → (value < b.virtual_base) ⊎ (b.virtual_base + b.size < value)
  Apart-away a b h apart live = elim (apart live (current-live a h.current)) [
    | inl before ↦ inr (omega (arith, h.place, before))
    | inr behind ↦ inl (omega (arith, h.place, h.fits, behind))
  ]

  resolve_in-finds :
      (va_arena va_next : ℕ) (a : VirtualAllocation) (allocs : List VirtualAllocation)
      → va_arena + va_next < 2 ^ 64
      → AreApart allocs
      → All (Inside va_arena va_next) allocs
      → Occurs a allocs
      → PointsInto generation value n id offset a
      → resolve_in false generation allocs value n ≡ resolve_ok id offset
  resolve_in-finds va_arena va_next a [] top apart inside here h = elim here [ ]
  resolve_in-finds va_arena va_next a (b ∷ allocs) top (apart, aparts) (inside, insides) here h =
      elim here [
        | inl same ↦
            let in_b : PointsInto generation value n id offset b =
              subst (PointsInto generation value n id offset) same h in
            resolve_in-here b allocs
              (region-short va_arena va_next b top inside (current-live b in_b.current)) in_b
        | inr later ↦
            resolve_in-later b allocs (λ q.
              let live = current-live b q in
              (
                region-short va_arena va_next b top inside live,
                Apart-away a b h (All-Occurs (Apart b) a allocs apart later) live,
              ))
            ∙ resolve_in-finds va_arena va_next a allocs top aparts insides later h
      ]

  resolve_entry-PointsInto :
      (a : VirtualAllocation)
      → is_current generation a ≡ true
      → a.virtual_base ≤ value
      → resolve_entry false a value n ≡ resolve_ok id offset
      → PointsInto generation value n id offset a
  unfolding resolve_entry
  resolve_entry-PointsInto a current low e = record {
    current = current;
    mapped = ground arith;
    place = ground arith;
    fits = ground arith;
    names = ground arith;
  }

  resolve_in-PointsInto :
      (allocs : List VirtualAllocation)
      → resolve_in false generation allocs value n ≡ resolve_ok id offset
      → (a : VirtualAllocation) × Occurs a allocs × PointsInto generation value n id offset a
  unfolding resolve_in
  resolve_in-PointsInto [] e = absurd (ground (arith, e))
  resolve_in-PointsInto (a ∷ allocs) e = elim (Bool-cases (is_current generation a)) [
    | inr dead ↦
        let (b, later, h) = resolve_in-PointsInto allocs (ground (arith, e, dead)) in
        (b, inr later, h)
    | inl current ↦
        elim (Bool-cases
          (ltb value a.virtual_base || ltb ((a.virtual_base + a.size) % 2 ^ 64) value)) [
            | inl out ↦
                let (b, later, h) =
                  resolve_in-PointsInto allocs (ground (arith, e, current, out)) in
                (b, inr later, h)
            | inr in_range ↦ (
              a,
              inl refl,
              resolve_entry-PointsInto a current (ground arith)
                  (ground (arith, e, current, in_range)),
            )
          ]
  ]

-- In an arena whose regions are apart, `resolve_remote_ptr` gives an id and an offset exactly if the
-- pointer is at that offset of a live allocation of the session with that id, whose memory is mapped, and
-- the access fits what is left of it.
pub resolve_remote_ptr_iff :
    (m : Arena) (value n id offset : ℕ)
    → IsArena m
    → (resolve_remote_ptr m value n ≡ resolve_ok id offset) ↔ (
        (a : VirtualAllocation) × Occurs a m.allocs
        × PointsInto m.session_generation value n id offset a)
unfolding resolve_remote_ptr
resolve_remote_ptr_iff m value n id offset valid = (
  resolve_in-PointsInto m.session_generation value n id offset m.allocs,
  λ (a, here, h).
      resolve_in-finds m.session_generation value n id offset m.va_arena m.va_next a m.allocs
        (omega (arith, valid.used, valid.top)) valid.apart valid.inside here h,
)
