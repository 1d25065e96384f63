-- ===== src/Fatbin/Elf.antt =====
-- `valid_iluvatar_elf` of src/corex_fatbin_runtime.c and its helpers.
pub mod Safety
pub mod Header
pub mod Segments
use x_remote_runtime.Prelude.{
  ℕ, zero, suc, ◌+◌, ◌-◌, ◌*◌, ◌/◌, ◌^◌, List, [], ◌∷◌, Bool, true, false, not, ◌==◌, ◌&&◌, ◌||◌,
  ltb, leb, if◌then◌else◌, length, drop, take,
}
use x_remote_runtime.Bytes.{
  Outcome, accept, check, fault, little_endian, rd, rd16, rd32, rd64, reject, ◌>>=◌, ◌>>◌,
}

abbrev pub u64_max : ℕ
u64_max = 2 ^ 64 - 1

unfoldable pub add_u64 : ℕ → ℕ → Outcome ℕ
add_u64 a b = if ltb (u64_max - a) b then reject else accept (a + b)

unfoldable pub mul_u64 : ℕ → ℕ → Outcome ℕ
mul_u64 a b = if not (a == 0) && ltb (u64_max / a) b then reject else accept (a * b)

-- Its result is `*end`.
unfoldable pub range_end : ℕ → ℕ → ℕ → Outcome ℕ
range_end off len limit = do end ← add_u64 off len; check (leb end limit); accept end

abbrev pub max_of : ℕ → ℕ → ℕ
max_of e end = if ltb end e then e else end

-- The end of a header table, if it has entries.
unfoldable pub table_end : ℕ → ℕ → ℕ → ℕ → ℕ → Outcome ℕ
table_end avail off entsize num end =
    if num == 0
    then accept end
    else do bytes ← mul_u64 entsize num; e ← range_end off bytes avail; accept (max_of e end)

-- The loop over the program headers from the `i`-th one on, of which `n` are left.
unfoldable pub program_ends : List ℕ → ℕ → ℕ → ℕ → ℕ → ℕ → Outcome ℕ
program_ends base phoff phentsize i zero end = accept end
program_ends base phoff phentsize i (suc n) end = do
  off ← rd64 base (phoff + i * phentsize + 8)
  filesz ← rd64 base (phoff + i * phentsize + 32)
  e ← range_end off filesz (length base)
  program_ends base phoff phentsize (suc i) n (max_of e end)

abbrev pub sht_nobits : ℕ
sht_nobits = 8

-- One section header: the end so far with it.
unfoldable pub section_end : List ℕ → ℕ → ℕ → Outcome ℕ
section_end base sh end = do
  type ← rd32 base (sh + 4)
  off ← rd64 base (sh + 24)
  size ← rd64 base (sh + 32)
  if type == sht_nobits
      then accept end
      else do e ← range_end off size (length base); accept (max_of e end)

-- The loop over the section headers.
unfoldable pub section_ends : List ℕ → ℕ → ℕ → ℕ → ℕ → ℕ → Outcome ℕ
section_ends base shoff shentsize i zero end = accept end
section_ends base shoff shentsize i (suc n) end = do
  end' ← section_end base (shoff + i * shentsize) end
  section_ends base shoff shentsize (suc i) n end'

pub record ElfHeader : Type 0 where
  pub phoff : ℕ
  pub shoff : ℕ
  pub ehsize : ℕ
  pub phentsize : ℕ
  pub phnum : ℕ
  pub shentsize : ℕ
  pub shnum : ℕ

-- The tests on the ELF header and the fields that are read from it. The magic is "\x7fELF"; then come
-- ELFCLASS64, ELFDATA2LSB, EV_CURRENT and the Iluvatar ABI and machine.
unfoldable pub elf_header : List ℕ → Outcome ElfHeader
elf_header base = do
  check (leb 64 (length base))
  magic ← rd32 base 0
  check (magic == 1179403647)
  class ← rd 1 base 4
  data_encoding ← rd 1 base 5
  version ← rd 1 base 6
  osabi ← rd 1 base 7
  check (class == 2 && data_encoding == 1 && version == 1 && osabi == 66)
  machine ← rd16 base 18
  elf_version ← rd32 base 20
  check (machine == 248 && elf_version == 1)
  phoff ← rd64 base 32
  shoff ← rd64 base 40
  ehsize ← rd16 base 52
  phentsize ← rd16 base 54
  phnum ← rd16 base 56
  shentsize ← rd16 base 58
  shnum ← rd16 base 60
  check (
      not (
        not (ehsize == 64)
        || (not (phnum == 0) && ltb phentsize 56)
        || (not (shnum == 0) && ltb shentsize 64)))
  accept (record {
    phoff = phoff;
    shoff = shoff;
    ehsize = ehsize;
    phentsize = phentsize;
    phnum = phnum;
    shentsize = shentsize;
    shnum = shnum;
  })

-- The buffer is as long as `avail` says. The result is `*exact`.
unfoldable pub valid_iluvatar_elf : List ℕ → Outcome ℕ
valid_iluvatar_elf base = do
  h ← elf_header base
  end1 ← table_end (length base) h.phoff h.phentsize h.phnum h.ehsize
  end2 ← table_end (length base) h.shoff h.shentsize h.shnum end1
  end3 ← program_ends base h.phoff h.phentsize 0 h.phnum end2
  end4 ← section_ends base h.shoff h.shentsize 0 h.shnum end3
  check (not (ltb end4 64 || ltb (length base) end4 || ltb u64_max end4))
  accept end4
