-- ===== src/Fatbin/Extract/Bounds.antt =====
-- The loop of `extract_one` of src/corex_fatbin_runtime.c: its rounds, its reads and its result.
use x_remote_runtime.Prelude.{
  ℕ, zero, suc, ◌+◌, ◌≤◌, ◌<◌, ◌≡◌, ◌≢◌, ◌⊎◌, inl, inr, refl, arith, List, false, ◌==◌, leb, length,
  drop, length-drop, Bool-cases,
}
use x_remote_runtime.Bytes.{Outcome, fault, reject, accept, little_endian}
use x_remote_runtime.Fatbin.Elf.{valid_iluvatar_elf}
use x_remote_runtime.Bytes.Ensures.{
  Ensures, Ensures-safe, Ensures-accept, bind-Ensures, check-Ensures,
}
use x_remote_runtime.Bytes.Ensures.{rd-accept}
use x_remote_runtime.Fatbin.Elf.Safety.{valid_iluvatar_elf_safe, valid_iluvatar_elf-IsExtent}
use x_remote_runtime.Fatbin.Extract.{
  Found, nothing_found, extract_round, extract_rounds, extract_one,
}

-- What is found so far is an image of the buffer, if anything is.
abbrev pub IsImage : List ℕ → Found → Type 0
IsImage fatbin f =
    (f.count ≡ 0)
    ⊎ ((f.found_off + f.found_size ≤ length fatbin)
        × (valid_iluvatar_elf (drop f.found_off fatbin) ≡ accept f.found_size))

Outcome-cases :
    {A : Type 0} (o : Outcome A) → (o ≡ fault) ⊎ ((o ≡ reject) ⊎ ((a : A) × (o ≡ accept a)))
Outcome-cases fault = inl refl
Outcome-cases reject = inr (inl refl)
Outcome-cases (accept a) = inr (inr (a, refl))

-- A round advances.
extract_round-Ensures :
    (fatbin : List ℕ) (off : ℕ) (found : Found)
    → off + 4 ≤ length fatbin
    → IsImage fatbin found
    → Ensures (λ r. (off < r.0) × IsImage fatbin r.1) (extract_round fatbin off found)
unfolding extract_round
extract_round-Ensures fatbin off found room image =
    rw (rd-accept 4 fatbin off room)
      (elim (Bool-cases (little_endian 4 (drop off fatbin) == 1179403647)) [
        | inr other ↦ rw other (omega arith, image)
        | inl magic ↦ rw magic (elim (Outcome-cases (valid_iluvatar_elf (drop off fatbin))) [
          | inl bad ↦ absurd (valid_iluvatar_elf_safe (drop off fatbin) bad)
          | inr (inl refused) ↦ rw refused (omega arith, image)
          | inr (inr (e, taken)) ↦
              (let (h, extent) = valid_iluvatar_elf-IsExtent (drop off fatbin) e taken in
                rw taken (
                  ground arith,
                  inr (
                    omega (arith, extent.whole.0, extent.whole.1, length-drop off fatbin),
                    taken,
                  ),
                ))
        ])
      ])

extract_rounds-Ensures :
    (fuel : ℕ) (fatbin : List ℕ) (off : ℕ) (found : Found)
    → IsImage fatbin found
    → Ensures (IsImage fatbin) (extract_rounds fuel fatbin off found)
unfolding extract_rounds
extract_rounds-Ensures zero fatbin off found image = image
extract_rounds-Ensures (suc fuel) fatbin off found image =
    elim (Bool-cases (leb (off + 4) (length fatbin))) [
      | inr done ↦ rw (extract_rounds, done) image
      | inl room ↦
          rw (extract_rounds, room)
            (bind-Ensures (IsImage fatbin) (λ r. (off < r.0) × IsImage fatbin r.1)
              (extract_round fatbin off found) _
              (extract_round-Ensures fatbin off found (ground arith) image)
              λ r (later, image'). extract_rounds-Ensures fuel fatbin r.0 r.1 image')
    ]

-- With a round for each byte that is left, more fuel changes nothing: the loop has ended by itself.
extract_rounds-enough :
    (fuel more : ℕ) (fatbin : List ℕ) (off : ℕ) (found : Found)
    → IsImage fatbin found
    → length fatbin ≤ off + fuel
    → extract_rounds (fuel + more) fatbin off found ≡ extract_rounds fuel fatbin off found
unfolding extract_rounds
extract_rounds-enough zero zero fatbin off found image b = refl
extract_rounds-enough zero (suc more) fatbin off found image b =
    let done : leb (off + 4) (length fatbin) ≡ false = ground arith in
    let e : 0 + suc more ≡ suc more = omega arith in rw (e, extract_rounds, done) refl
extract_rounds-enough (suc fuel) more fatbin off found image b =
    let e : suc fuel + more ≡ suc (fuel + more) = omega arith in
    elim (Bool-cases (leb (off + 4) (length fatbin))) [
      | inr done ↦ rw (e, extract_rounds, done) refl
      | inl room ↦ elim (Outcome-cases (extract_round fatbin off found)) [
        | inl bad ↦ rw (e, extract_rounds, room, bad) refl
        | inr (inl refused) ↦ rw (e, extract_rounds, room, refused) refl
        | inr (inr (r, went)) ↦
            (let (later, image') =
                Ensures-accept (λ r. (off < r.0) × IsImage fatbin r.1)
                  (extract_round fatbin off found)
                  (extract_round-Ensures fatbin off found (ground arith) image) went in
              rw (e, extract_rounds, room, went)
                (extract_rounds-enough fuel more fatbin r.0 r.1 image' (omega arith)))
      ]
    ]

extract_one-Ensures :
    (fatbin : List ℕ)
    → Ensures
        (λ r. (r.0 + r.1 ≤ length fatbin) × (valid_iluvatar_elf (drop r.0 fatbin) ≡ accept r.1))
        (extract_one fatbin)
unfolding extract_one
extract_one-Ensures fatbin =
    bind-Ensures _ (IsImage fatbin) (extract_rounds (length fatbin) fatbin 0 nothing_found) _
      (extract_rounds-Ensures (length fatbin) fatbin 0 nothing_found (inl refl))
      λ f image.
        check-Ensures _ (f.count == 1) (accept (f.found_off, f.found_size))
          λ one. ground (arith, image)

-- `extract_one` reads no byte outside the fat binary.
pub extract_one_safe : (fatbin : List ℕ) → extract_one fatbin ≢ fault
extract_one_safe fatbin =
    Ensures-safe
      (λ r. (r.0 + r.1 ≤ length fatbin) × (valid_iluvatar_elf (drop r.0 fatbin) ≡ accept r.1))
      (extract_one fatbin) (extract_one-Ensures fatbin)

-- The image that `extract_one` reports lies in the fat binary, and `valid_iluvatar_elf` accepts what
-- stands at its offset with its size.
pub extract_one-valid_iluvatar_elf :
    (fatbin : List ℕ) (off size : ℕ)
    → extract_one fatbin ≡ accept (off, size)
    → (off + size ≤ length fatbin) × (valid_iluvatar_elf (drop off fatbin) ≡ accept size)
extract_one-valid_iluvatar_elf fatbin off size e =
    Ensures-accept
      (λ r. (r.0 + r.1 ≤ length fatbin) × (valid_iluvatar_elf (drop r.0 fatbin) ≡ accept r.1))
      (extract_one fatbin) (extract_one-Ensures fatbin) e

-- The loop of `extract_one` ends: with a round for each byte it has ended by itself, and further rounds
-- change nothing.
pub extract_one-enough :
    (fatbin : List ℕ) (more : ℕ)
    → extract_rounds (length fatbin + more) fatbin 0 nothing_found
      ≡ extract_rounds (length fatbin) fatbin 0 nothing_found
extract_one-enough fatbin more =
    extract_rounds-enough (length fatbin) more fatbin 0 nothing_found (inl refl) (omega arith)
