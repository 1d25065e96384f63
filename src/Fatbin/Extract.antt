-- ===== src/Fatbin/Extract.antt =====
-- `extract_one` of src/corex_fatbin_runtime.c: the single image in a fat binary.
pub mod Bounds
use x_remote_runtime.Prelude.{
  ℕ, zero, suc, ◌+◌, ◌%◌, ◌^◌, List, Bool, true, false, not, ◌==◌, ◌&&◌, ltb, leb, if◌then◌else◌,
  length, drop,
}
use x_remote_runtime.Bytes.{Outcome, fault, reject, accept, ◌>>=◌, ◌>>◌, check, rd32}
use x_remote_runtime.Fatbin.Elf.{valid_iluvatar_elf}

-- `count`, `found_off` and `found_size`.
pub record Found : Type 0 where
  pub count : ℕ
  pub found_off : ℕ
  pub found_size : ℕ

abbrev pub nothing_found : Found
nothing_found = record { count = 0; found_off = 0; found_size = 0 }

-- `if (exact && off + exact > off) off += exact - 1;` and the `++off` of the loop.
abbrev pub next_off : ℕ → ℕ → ℕ
next_off off exact =
    if not (exact == 0) && ltb off ((off + exact) % 2 ^ 64) then off + exact else off + 1

-- One round at an offset where four bytes are left: where the next one starts, and what is found by
-- then.
unfoldable pub extract_round : List ℕ → ℕ → Found → Outcome (ℕ × Found)
extract_round fatbin off found = do
  magic ← rd32 fatbin off
  if not (magic == 1179403647)
      then accept (off + 1, found)
      else elim (valid_iluvatar_elf (drop off fatbin)) [
        | fault ↦ fault
        | reject ↦ accept (off + 1, found)
        | accept exact ↦ accept (
          next_off off exact,
          record { count = suc found.count; found_off = off; found_size = exact },
        )
      ]

-- The loop, on fuel.
unfoldable pub extract_rounds : ℕ → List ℕ → ℕ → Found → Outcome Found
extract_rounds zero fatbin off found = accept found
extract_rounds (suc fuel) fatbin off found = elim (leb (off + 4) (length fatbin)) [
  | false ↦ accept found
  | true ↦ extract_round fatbin off found >>= λ r. extract_rounds fuel fatbin r.0 r.1
]

-- The offset and the size of the image. A round for each byte is enough fuel.
unfoldable pub extract_one : List ℕ → Outcome (ℕ × ℕ)
extract_one fatbin = do
  found ← extract_rounds (length fatbin) fatbin 0 nothing_found
  check (found.count == 1)
  accept (found.found_off, found.found_size)
