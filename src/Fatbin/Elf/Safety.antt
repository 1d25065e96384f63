-- ===== src/Fatbin/Elf/Safety.antt =====
-- The reads of `valid_iluvatar_elf` of src/corex_fatbin_runtime.c, and the length it reports.
use x_remote_runtime.Prelude.{ℕ, ◌+◌, ◌*◌, ◌≤◌, ◌≡◌, ◌≢◌, ◌⊎◌, arith, List, not, ◌||◌, length, ltb}
use x_remote_runtime.Bytes.{fault, accept}
use x_remote_runtime.Fatbin.Elf.{
  table_end, program_ends, section_ends, ElfHeader, elf_header, valid_iluvatar_elf, u64_max,
}
use x_remote_runtime.Bytes.Ensures.{
  Ensures, Ensures-safe, Ensures-accept, Ensures-self, bind-Ensures, check-Ensures,
}
use x_remote_runtime.Fatbin.Elf.Header.{Covers, IsSound, table_end-Ensures, elf_header-Ensures}
use x_remote_runtime.Fatbin.Elf.Segments.{
  AreSegmentsBelow, AreSectionsBelow, program_ends-all, section_ends-all,
}

-- What the length of an accepted image covers.
pub record IsExtent (base : List ℕ) (h : ElfHeader) (e : ℕ) : Type 0 where
  pub header : elf_header base ≡ accept h
  pub whole : (64 ≤ e) × (e ≤ length base)
  pub program_table : (h.phnum ≡ 0) ⊎ (h.phoff + h.phnum * h.phentsize ≤ e)
  pub section_table : (h.shnum ≡ 0) ⊎ (h.shoff + h.shnum * h.shentsize ≤ e)
  pub segments : AreSegmentsBelow base h.phoff h.phentsize 0 h.phnum e
  pub sections : AreSectionsBelow base h.shoff h.shentsize 0 h.shnum e

valid_iluvatar_elf-Ensures :
    (base : List ℕ) → Ensures (λ e. (h : ElfHeader) × IsExtent base h e) (valid_iluvatar_elf base)
unfolding valid_iluvatar_elf
valid_iluvatar_elf-Ensures base =
    let R : ℕ → Type 0 = λ e. (h : ElfHeader) × IsExtent base h e in
    bind-Ensures R (λ h. IsSound base h × (elf_header base ≡ accept h)) (elf_header base) _
      (Ensures-self (IsSound base) (elf_header base) (elf_header-Ensures base))
      λ h ((long, ehsize, ph, sh), header).
        bind-Ensures R (Covers (length base) h.phoff h.phentsize h.phnum h.ehsize)
          (table_end (length base) h.phoff h.phentsize h.phnum h.ehsize) _
          (table_end-Ensures (length base) h.phoff h.phentsize h.phnum h.ehsize)
          λ e1 (m1, p).
            bind-Ensures R (Covers (length base) h.shoff h.shentsize h.shnum e1)
              (table_end (length base) h.shoff h.shentsize h.shnum e1) _
              (table_end-Ensures (length base) h.shoff h.shentsize h.shnum e1)
              λ e2 (m2, s).
                bind-Ensures R
                  (λ e. (e2 ≤ e) × AreSegmentsBelow base h.phoff h.phentsize 0 h.phnum e)
                  (program_ends base h.phoff h.phentsize 0 h.phnum e2) _
                  (program_ends-all base h.phoff h.phentsize h.phnum e2 (λ q. ground (arith, ph q))
                    (λ q. (p q).0))
                  λ e3 (m3, segments).
                    bind-Ensures R
                      (λ e. (e3 ≤ e) × AreSectionsBelow base h.shoff h.shentsize 0 h.shnum e)
                      (section_ends base h.shoff h.shentsize 0 h.shnum e3) _
                      (section_ends-all base h.shoff h.shentsize h.shnum e3
                        (λ q. ground (arith, sh q)) (λ q. (s q).0))
                      λ e4 (m4, sections).
                        check-Ensures R (not (ltb e4 64 || ltb (length base) e4 || ltb u64_max e4))
                          (accept e4)
                          λ good. (
                            h,
                            record {
                              header = header;
                              whole = ground arith;
                              program_table = ground arith;
                              section_table = ground arith;
                              segments = λ k low high. ground (arith, segments k low high);
                              sections = sections;
                            },
                          )

-- `valid_iluvatar_elf` reads no byte outside its buffer, whatever the buffer holds.
pub valid_iluvatar_elf_safe : (base : List ℕ) → valid_iluvatar_elf base ≢ fault
valid_iluvatar_elf_safe base =
    Ensures-safe (λ e. (h : ElfHeader) × IsExtent base h e) (valid_iluvatar_elf base)
      (valid_iluvatar_elf-Ensures base)

-- The length that `valid_iluvatar_elf` reports for an image that it accepts is at least 64, lies in the
-- buffer, and covers both header tables, every segment, and every section with bytes in the file.
pub valid_iluvatar_elf-IsExtent :
    (base : List ℕ) (e : ℕ)
    → valid_iluvatar_elf base ≡ accept e
    → (h : ElfHeader) × IsExtent base h e
valid_iluvatar_elf-IsExtent base e q =
    Ensures-accept (λ e. (h : ElfHeader) × IsExtent base h e) (valid_iluvatar_elf base)
      (valid_iluvatar_elf-Ensures base) q
