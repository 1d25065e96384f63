-- ===== src/Fatbin/Elf/Header.antt =====
-- The ELF header and its tables in `valid_iluvatar_elf` of src/corex_fatbin_runtime.c.
use x_remote_runtime.Prelude.{
  ℕ, ◌+◌, ◌-◌, ◌/◌, ◌*◌, ◌≤◌, ◌<◌, ◌≡◌, inl, inr, refl, arith, List, not, ◌==◌, ◌&&◌, ◌||◌, length,
  drop, leb, ltb, Bool-cases,
}
use x_remote_runtime.Bytes.{accept, little_endian, ◌>>◌, check}
use x_remote_runtime.Fatbin.Elf.{
  range_end, table_end, ElfHeader, elf_header, add_u64, mul_u64, u64_max,
}
use x_remote_runtime.Bytes.Ensures.{rd-accept, Ensures, bind-Ensures, check-Ensures}

pub range_end-Ensures :
    (off len limit : ℕ) → Ensures (λ e. (e ≡ off + len) × (e ≤ limit)) (range_end off len limit)
unfolding range_end add_u64
range_end-Ensures off len limit = elim (Bool-cases (ltb (u64_max - off) len)) [
  | inl big ↦ rw big tt
  | inr small ↦
      rw small
        (check-Ensures _ (leb (off + len) limit) (accept (off + len)) λ h. (refl, ground arith))
]

mul_u64-Ensures : (a b : ℕ) → Ensures (λ m. m ≡ a * b) (mul_u64 a b)
unfolding mul_u64
mul_u64-Ensures a b = elim (Bool-cases (not (a == 0) && ltb (u64_max / a) b)) [
  | inl big ↦ rw big tt
  | inr small ↦ rw small refl
]

-- The table has entries: it lies in the buffer, and the end is behind it.
abbrev pub Covers : ℕ → ℕ → ℕ → ℕ → ℕ → ℕ → Type 0
Covers avail off entsize num end e =
    (end ≤ e) × (0 < num → (off + num * entsize ≤ avail) × (off + num * entsize ≤ e))

pub table_end-Ensures :
    (avail off entsize num end : ℕ)
    → Ensures (Covers avail off entsize num end) (table_end avail off entsize num end)
unfolding table_end
table_end-Ensures avail off entsize num end = elim (Bool-cases (num == 0)) [
  | inl empty ↦ rw empty (omega arith, λ p. ground arith)
  | inr some ↦ rw some (
      bind-Ensures _ (λ m. m ≡ entsize * num) (mul_u64 entsize num) _ (mul_u64-Ensures entsize num)
        λ bytes q.
          bind-Ensures _ (λ e. (e ≡ off + bytes) × (e ≤ avail)) (range_end off bytes avail) _
            (range_end-Ensures off bytes avail)
            λ e (r, l). (ground arith, λ p. (omega arith, ground arith)))
]

-- What the tests of the header say of the two tables.
abbrev pub IsSound : List ℕ → ElfHeader → Type 0
IsSound base h =
    (64 ≤ length base)
    × (h.ehsize ≡ 64)
    × (0 < h.phnum → 56 ≤ h.phentsize)
    × (0 < h.shnum → 64 ≤ h.shentsize)

sizes-IsSound :
    (base : List ℕ) (phoff shoff ehsize phentsize phnum shentsize shnum : ℕ)
    → 64 ≤ length base
    → Ensures (IsSound base) (
        check (
          not (
            not (ehsize == 64)
            || (not (phnum == 0) && ltb phentsize 56)
            || (not (shnum == 0) && ltb shentsize 64)))
        >> accept (record {
          phoff = phoff;
          shoff = shoff;
          ehsize = ehsize;
          phentsize = phentsize;
          phnum = phnum;
          shentsize = shentsize;
          shnum = shnum;
        }))
sizes-IsSound base phoff shoff ehsize phentsize phnum shentsize shnum room = ground arith

pub elf_header-Ensures : (base : List ℕ) → Ensures (IsSound base) (elf_header base)
unfolding elf_header
elf_header-Ensures base =
    let S = IsSound base in
    check-Ensures S (leb 64 (length base)) _ λ long.
      let room : 64 ≤ length base = ground arith in
      rw
        (
          rd-accept 4 base 0 (omega arith),
          rd-accept 1 base 4 (omega arith),
          rd-accept 1 base 5 (omega arith),
          rd-accept 1 base 6 (omega arith),
          rd-accept 1 base 7 (omega arith),
          rd-accept 2 base 18 (omega arith),
          rd-accept 4 base 20 (omega arith),
          rd-accept 8 base 32 (omega arith),
          rd-accept 8 base 40 (omega arith),
          rd-accept 2 base 52 (omega arith),
          rd-accept 2 base 54 (omega arith),
          rd-accept 2 base 56 (omega arith),
          rd-accept 2 base 58 (omega arith),
          rd-accept 2 base 60 (omega arith),
        )
        (elim (Bool-cases (little_endian 4 (drop 0 base) == 1179403647)) [
          | inr bad ↦ rw bad tt
          | inl magic ↦
              rw magic
                (elim (Bool-cases (
                  little_endian 1 (drop 4 base) == 2
                  && little_endian 1 (drop 5 base) == 1
                  && little_endian 1 (drop 6 base) == 1
                  && little_endian 1 (drop 7 base) == 66)) [
                    | inr bad ↦ rw bad tt
                    | inl ident ↦
                        rw ident
                          (elim (Bool-cases (
                            little_endian 2 (drop 18 base) == 248
                            && little_endian 4 (drop 20 base) == 1)) [
                              | inr bad ↦ rw bad tt
                              | inl machine ↦ rw machine (
                                  sizes-IsSound base (little_endian 8 (drop 32 base))
                                    (little_endian 8 (drop 40 base))
                                    (little_endian 2 (drop 52 base))
                                    (little_endian 2 (drop 54 base))
                                    (little_endian 2 (drop 56 base))
                                    (little_endian 2 (drop 58 base))
                                    (little_endian 2 (drop 60 base)) room)
                            ])
                  ])
        ])
