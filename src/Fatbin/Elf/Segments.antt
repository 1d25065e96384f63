-- ===== src/Fatbin/Elf/Segments.antt =====
-- The loops of `valid_iluvatar_elf` of src/corex_fatbin_runtime.c over the segments and sections.
use x_remote_runtime.Prelude.{
  ℕ, zero, suc, ◌+◌, ◌*◌, ◌≤◌, ◌<◌, ◌≡◌, inl, inr, arith, List, ◌==◌, length, drop, if◌then◌else◌,
  Bool-cases,
}
use x_remote_runtime.Bytes.{little_endian}
use x_remote_runtime.Fatbin.Elf.{
  range_end, program_ends, section_end, section_ends, max_of, sht_nobits,
}
use x_remote_runtime.Bytes.Ensures.{rd-accept, Ensures, Ensures-mono, bind-Ensures}
use x_remote_runtime.Fatbin.Elf.Header.{range_end-Ensures}

-- The extent of the `k`-th segment.
abbrev pub segment_end : List ℕ → ℕ → ℕ → ℕ → ℕ
segment_end base phoff phentsize k =
    little_endian 8 (drop (phoff + k * phentsize + 8) base)
    + little_endian 8 (drop (phoff + k * phentsize + 32) base)

-- The segments from the `i`-th to the one before the `j`-th lie before `e`.
abbrev pub AreSegmentsBelow : List ℕ → ℕ → ℕ → ℕ → ℕ → ℕ → Type 0
AreSegmentsBelow base phoff phentsize i j e =
    (k : ℕ) → i ≤ k → k < j → segment_end base phoff phentsize k ≤ e

program_ends-Ensures :
    (base : List ℕ) (off size i n end : ℕ)
    → 40 ≤ size
    → off + (i + n) * size ≤ length base
    → Ensures
        (λ e. (end ≤ e) × AreSegmentsBelow base off size i (i + n) e)
        (program_ends base off size i n end)
unfolding program_ends
program_ends-Ensures base off size i zero end h b = (omega arith, λ k l g. omega arith)
program_ends-Ensures base off size i (suc n) end h b =
    rw
      (
        rd-accept 8 base (off + i * size + 8) (omega arith),
        rd-accept 8 base (off + i * size + 32) (omega arith),
      )
      (bind-Ensures _ (λ e. (e ≡ _) × (e ≤ length base)) (range_end _ _ (length base)) _
        (range_end-Ensures _ _ (length base))
        λ e (q, l).
          Ensures-mono _
            (λ a. (max_of e end ≤ a) × AreSegmentsBelow base off size (suc i) (suc i + n) a)
            (program_ends base off size (suc i) n (max_of e end))
            (program_ends-Ensures base off size (suc i) n (max_of e end) h (omega arith))
            λ a (above, rest). (
              ground arith,
              λ k low high. elim (Bool-cases (k == i)) [
                | inl here ↦ (let at : k ≡ i = ground arith in rw at (ground arith))
                | inr later ↦ rest k (ground arith) (omega arith)
              ],
            ))

-- The extent of the section whose header is at `sh`; one without bytes in the file has none.
abbrev pub section_extent : List ℕ → ℕ → ℕ
section_extent base sh =
    if little_endian 4 (drop (sh + 4) base) == sht_nobits
    then 0
    else little_endian 8 (drop (sh + 24) base) + little_endian 8 (drop (sh + 32) base)

abbrev pub AreSectionsBelow : List ℕ → ℕ → ℕ → ℕ → ℕ → ℕ → Type 0
AreSectionsBelow base shoff shentsize i j e =
    (k : ℕ) → i ≤ k → k < j → section_extent base (shoff + k * shentsize) ≤ e

section_end-Ensures :
    (base : List ℕ) (sh end : ℕ)
    → sh + 40 ≤ length base
    → Ensures (λ e. (end ≤ e) × (section_extent base sh ≤ e)) (section_end base sh end)
unfolding section_end
section_end-Ensures base sh end h =
    rw
      (
        rd-accept 4 base (sh + 4) (omega arith),
        rd-accept 8 base (sh + 24) (omega arith),
        rd-accept 8 base (sh + 32) (omega arith),
      )
      (elim (Bool-cases (little_endian 4 (drop (sh + 4) base) == sht_nobits)) [
        | inl nobits ↦ rw nobits (omega arith, omega arith)
        | inr bits ↦ rw bits (
            bind-Ensures _ (λ e. (e ≡ _) × (e ≤ length base)) (range_end _ _ (length base)) _
              (range_end-Ensures _ _ (length base)) λ e (q, l). (ground arith, ground arith))
      ])

section_ends-Ensures :
    (base : List ℕ) (off size i n end : ℕ)
    → 40 ≤ size
    → off + (i + n) * size ≤ length base
    → Ensures
        (λ e. (end ≤ e) × AreSectionsBelow base off size i (i + n) e)
        (section_ends base off size i n end)
unfolding section_ends
section_ends-Ensures base off size i zero end h b = (omega arith, λ k l g. omega arith)
section_ends-Ensures base off size i (suc n) end h b =
    bind-Ensures _ (λ e. (end ≤ e) × (section_extent base (off + i * size) ≤ e))
      (section_end base (off + i * size) end) _
      (section_end-Ensures base (off + i * size) end (omega arith))
      λ e (mono, here).
        Ensures-mono _ (λ a. (e ≤ a) × AreSectionsBelow base off size (suc i) (suc i + n) a)
          (section_ends base off size (suc i) n e)
          (section_ends-Ensures base off size (suc i) n e h (omega arith))
          λ a (above, rest). (
            omega arith,
            λ k low high. elim (Bool-cases (k == i)) [
              | inl same ↦ (let at : k ≡ i = ground arith in rw at (omega arith))
              | inr later ↦ rest k (ground arith) (omega arith)
            ],
          )

-- The loops from the first header on, for tables that may be empty.
pub program_ends-all :
    (base : List ℕ) (off size n end : ℕ)
    → (0 < n → 40 ≤ size)
    → (0 < n → off + n * size ≤ length base)
    → Ensures
        (λ e. (end ≤ e) × AreSegmentsBelow base off size 0 n e)
        (program_ends base off size 0 n end)
unfolding program_ends
program_ends-all base off size zero end h b = (omega arith, λ k l g. omega arith)
program_ends-all base off size (suc n) end h b =
    Ensures-mono _ (λ e. (end ≤ e) × AreSegmentsBelow base off size 0 (0 + suc n) e)
      (program_ends base off size 0 (suc n) end)
      (program_ends-Ensures base off size 0 (suc n) end (h (omega arith)) (ground (arith, b)))
      λ a (above, all). (above, λ k low high. all k low (omega arith))

pub section_ends-all :
    (base : List ℕ) (off size n end : ℕ)
    → (0 < n → 40 ≤ size)
    → (0 < n → off + n * size ≤ length base)
    → Ensures
        (λ e. (end ≤ e) × AreSectionsBelow base off size 0 n e)
        (section_ends base off size 0 n end)
unfolding section_ends
section_ends-all base off size zero end h b = (omega arith, λ k l g. omega arith)
section_ends-all base off size (suc n) end h b =
    Ensures-mono _ (λ e. (end ≤ e) × AreSectionsBelow base off size 0 (0 + suc n) e)
      (section_ends base off size 0 (suc n) end)
      (section_ends-Ensures base off size 0 (suc n) end (h (omega arith)) (ground (arith, b)))
      λ a (above, all). (above, λ k low high. all k low (omega arith))
