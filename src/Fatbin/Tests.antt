-- ===== src/Fatbin/Tests.antt =====
-- Runs of src/corex_fatbin_runtime.c on a small image.
use x_remote_runtime.Prelude.{
  ◌≡◌, ◌+◌, ℕ, ◌≢◌, refl, List, [], ◌∷◌, ◌++◌, ◌≤◌, length, drop, replicate,
}
use x_remote_runtime.Bytes.{fault, accept, rd, little_endian}
use x_remote_runtime.Fatbin.Elf.{
  ElfHeader, valid_iluvatar_elf, elf_header, table_end, program_ends, section_ends, range_end,
  add_u64, mul_u64,
}
use x_remote_runtime.Fatbin.Extract.{nothing_found, extract_one, extract_rounds, extract_round}
use x_remote_runtime.Fatbin.Extract.Bounds.{
  extract_one_safe, extract_one-valid_iluvatar_elf, extract_one-enough,
}
use x_remote_runtime.Fatbin.Elf.Safety.{
  IsExtent, valid_iluvatar_elf_safe, valid_iluvatar_elf-IsExtent,
}

abbrev zeros : ℕ → List ℕ
zeros n = replicate n 0

-- A header and one program header, for a segment of eight bytes at 120; 16 more bytes follow.
abbrev image : List ℕ
image =
    127 ∷ 69 ∷ 76 ∷ 70 ∷ 2 ∷ 1 ∷ 1 ∷ 66 ∷ zeros 8
    ++ 1 ∷ 0 ∷ 248 ∷ 0 ∷ 1 ∷ 0 ∷ 0 ∷ 0 ∷ zeros 8
    ++ 64 ∷ zeros 7
    ++ zeros 8
    ++ zeros 4
    ++ 64 ∷ 0 ∷ 56 ∷ 0 ∷ 1 ∷ 0 ∷ 64 ∷ 0 ∷ 0 ∷ 0 ∷ 0 ∷ 0 ∷ []
    ++ 1 ∷ zeros 7
    ++ 120 ∷ zeros 7
    ++ zeros 16
    ++ 8 ∷ zeros 7
    ++ zeros 16
    ++ 9 ∷ 9 ∷ 9 ∷ 9 ∷ 9 ∷ 9 ∷ 9 ∷ 9 ∷ zeros 16

valid_iluvatar_elf_safe_example : valid_iluvatar_elf image ≢ fault
valid_iluvatar_elf_safe_example = valid_iluvatar_elf_safe image

valid_iluvatar_elf-IsExtent_example : (h : ElfHeader) × IsExtent image h 128
unfolding valid_iluvatar_elf elf_header rd little_endian table_end program_ends section_ends
    range_end add_u64 mul_u64
valid_iluvatar_elf-IsExtent_example = valid_iluvatar_elf-IsExtent image 128 refl

-- Four bytes before the image.
abbrev fatbin : List ℕ
fatbin = 1 ∷ 2 ∷ 3 ∷ 4 ∷ image

extract_one_safe_example : extract_one fatbin ≢ fault
extract_one_safe_example = extract_one_safe fatbin

extract_one-valid_iluvatar_elf_example :
    (4 + 128 ≤ length fatbin) × (valid_iluvatar_elf (drop 4 fatbin) ≡ accept 128)
unfolding valid_iluvatar_elf elf_header rd little_endian table_end program_ends section_ends
    range_end add_u64 mul_u64 extract_one extract_rounds extract_round
extract_one-valid_iluvatar_elf_example = extract_one-valid_iluvatar_elf fatbin 4 128 refl

extract_one-enough_example :
    extract_rounds (length fatbin + 9) fatbin 0 nothing_found
    ≡ extract_rounds (length fatbin) fatbin 0 nothing_found
extract_one-enough_example = extract_one-enough fatbin 9
