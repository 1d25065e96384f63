-- ===== src/Metadata/Image/Safety.antt =====
-- `corex_parse_metadata` of src/corex_metadata.c stays in its buffer, and what it finds is well formed.
use x_remote_runtime.Prelude.{
  ℕ, zero, suc, ◌+◌, ◌-◌, ◌*◌, ◌%◌, ◌^◌, ◌≤◌, ◌<◌, ◌≡◌, ◌≢◌, inl, inr, arith, List, ◌∷◌, not, ◌==◌,
  ◌&&◌, ◌||◌, ltb, leb, length, take, drop, Bool-cases,
}
use x_remote_runtime.Bytes.{Outcome, fault, accept, ◌>>◌, little_endian}
use x_remote_runtime.Bytes.Ensures.{
  Ensures, Ensures-safe, Ensures-accept, bind-Ensures, check-Ensures, if-Ensures, read-Ensures,
  read_bytes-Ensures,
}
use x_remote_runtime.Metadata.Text.{codes, same_bytes}
use x_remote_runtime.Metadata.Module.{ModuleMeta, parse_root_metadata}
use x_remote_runtime.Metadata.Module.Bounds.{IsModule, parse_root_metadata-Ensures}
use x_remote_runtime.Metadata.Image.{
  align4, safe_range, Section, get_section, section_name_equals, find_note_section,
  owner_is_iluvatar, parse_note, note_at, find_metadata_note, parse_sections, corex_parse_metadata,
}

-- Metadata of at least one kernel.
abbrev pub Describes : ModuleMeta → Type 0
Describes m = IsModule m × (1 ≤ length m.kernels)

safe_range-Ensures :
    {A : Type 0} (Q : A → Type 0) (total offset size : ℕ) (m : Outcome A)
    → (offset + size ≤ total → Ensures Q m)
    → Ensures Q (safe_range total offset size >> m)
unfolding safe_range
safe_range-Ensures Q total offset size m k = elim (Bool-cases (ltb total offset)) [
  | inl q ↦ rw q tt
  | inr q ↦ rw q (check-Ensures Q (not (ltb (total - offset) size)) m λ e. k (ground arith))
]

module _ (image : List ℕ) where
  InRange : Section → Type 0
  InRange s = s.section_offset + s.section_size ≤ length image

  get_section-InRange :
      (shoff shentsize index : ℕ)
      → 64 ≤ shentsize
      → Ensures InRange (get_section image shoff shentsize index)
  unfolding get_section InRange
  get_section-InRange shoff shentsize index h =
      let off : ℕ = (shoff + index * shentsize) % 2 ^ 64 in
      safe_range-Ensures InRange (length image) off shentsize _ λ room.
        read-Ensures InRange 4 image off _ (omega arith) (
          read-Ensures InRange 8 image (off + 24) _ (omega arith) (
            read-Ensures InRange 8 image (off + 32) _ (omega arith) (
              safe_range-Ensures InRange (length image) (little_endian 8 (drop (off + 24) image))
                (little_endian 8 (drop (off + 32) image)) _ λ h. h)))

  section_name_equals-Ensures :
      (names : List ℕ) (off : ℕ) (wanted : List ℕ)
      → Ensures (λ _. Unit {0}) (section_name_equals names off wanted)
  unfolding section_name_equals
  section_name_equals-Ensures names off wanted =
      if-Ensures (λ _. Unit {0}) (leb (length names) off) _ _ (λ _. tt)
        λ p.
          if-Ensures (λ _. Unit {0}) (ltb (length names - off) (length wanted + 1)) _ _ (λ _. tt)
            λ q.
              read_bytes-Ensures (λ _. Unit {0}) (length wanted + 1) names off _ (ground arith) tt

  find_note_section-InRange :
      (names : List ℕ) (shoff shentsize i n : ℕ)
      → 64 ≤ shentsize
      → Ensures InRange (find_note_section image names shoff shentsize i n)
  unfolding find_note_section
  find_note_section-InRange names shoff shentsize i zero h = tt
  find_note_section-InRange names shoff shentsize i (suc n) h =
      bind-Ensures InRange InRange (get_section image shoff shentsize i) _
        (get_section-InRange shoff shentsize i h)
        λ section ranged.
          bind-Ensures InRange (λ _. Unit {0})
            (section_name_equals names section.name_offset (codes ".note")) _
            (section_name_equals-Ensures names section.name_offset (codes ".note"))
            λ is_note _.
              if-Ensures InRange is_note (accept section) _ (λ _. ranged)
                λ _. find_note_section-InRange names shoff shentsize (suc i) n h

align4_le : (n : ℕ) → n ≤ align4 n
unfolding align4
align4_le n = omega arith

owner_is_iluvatar-Ensures :
    (namesz : ℕ) (notes : List ℕ) (owner : ℕ)
    → owner + align4 namesz ≤ length notes
    → Ensures (λ _. Unit {0}) (owner_is_iluvatar namesz notes owner)
unfolding owner_is_iluvatar align4
owner_is_iluvatar-Ensures namesz notes owner h =
    if-Ensures (λ _. Unit {0}) (ltb namesz 8) _ _ (λ _. tt)
      λ p. read_bytes-Ensures (λ _. Unit {0}) 8 notes owner _ (ground arith) tt

parse_note-Describes :
    (notes : List ℕ) (desc descsz : ℕ)
    → desc + descsz ≤ length notes
    → Ensures Describes (parse_note notes desc descsz)
unfolding parse_note
parse_note-Describes notes desc descsz h = read_bytes-Ensures Describes descsz notes desc _ h (
    bind-Ensures Describes IsModule (parse_root_metadata (take descsz (drop desc notes))) _
      (parse_root_metadata-Ensures (take descsz (drop desc notes)))
      λ m good.
        check-Ensures Describes (not (length m.kernels == 0)) (accept m) λ e. (good, ground arith))

note_at-Describes :
    (next : ℕ → Outcome ModuleMeta) (notes : List ℕ) (owner namesz descsz type : ℕ)
    → owner ≤ length notes
    → ((pos : ℕ) → owner ≤ pos → pos ≤ length notes → Ensures Describes (next pos))
    → Ensures Describes (note_at next notes owner namesz descsz type)
unfolding note_at
note_at-Describes next notes owner namesz descsz type h k =
    check-Ensures Describes (leb (align4 namesz) (length notes - owner)) _ λ p.
      let desc : ℕ = owner + align4 namesz in
      check-Ensures Describes (leb (align4 descsz) (length notes - desc)) _ λ q.
        bind-Ensures Describes (λ _. Unit {0}) (owner_is_iluvatar namesz notes owner) _
          (owner_is_iluvatar-Ensures namesz notes owner (ground arith))
          λ is_iluvatar _.
            if-Ensures Describes (is_iluvatar && type == 10) _ _
              (λ _. parse_note-Describes notes desc descsz (ground (arith, align4_le descsz)))
              λ _. k (desc + align4 descsz) (omega arith) (ground arith)

find_metadata_note-Describes :
    (fuel : ℕ) (notes : List ℕ) (pos : ℕ)
    → length notes < pos + fuel
    → pos ≤ length notes
    → Ensures Describes (find_metadata_note fuel notes pos)
unfolding find_metadata_note
find_metadata_note-Describes zero notes pos enough h = absurd (omega arith)
find_metadata_note-Describes (suc fuel) notes pos enough h =
    if-Ensures Describes (ltb (length notes) (pos + 12)) _ _ (λ _. tt)
      λ q. read-Ensures Describes 4 notes pos _ (ground arith) (
        read-Ensures Describes 4 notes (pos + 4) _ (ground arith) (
          read-Ensures Describes 4 notes (pos + 8) _ (ground arith) (
            note_at-Describes (find_metadata_note fuel notes) notes (pos + 12)
              (little_endian 4 (drop pos notes)) (little_endian 4 (drop (pos + 4) notes))
              (little_endian 4 (drop (pos + 8) notes)) (ground arith)
              λ p low high. find_metadata_note-Describes fuel notes p (omega arith) high)))

parse_sections-Describes :
    (image : List ℕ) (shoff shentsize shnum shstrndx : ℕ)
    → Ensures Describes (parse_sections image shoff shentsize shnum shstrndx)
unfolding parse_sections InRange
parse_sections-Describes image shoff shentsize shnum shstrndx =
    check-Ensures Describes (not (ltb shentsize 64 || shnum == 0 || leb shnum shstrndx)) _ λ good.
      let wide : 64 ≤ shentsize = ground arith in
      safe_range-Ensures Describes (length image) shoff (shentsize * shnum) _ λ _.
        bind-Ensures Describes (InRange image) (get_section image shoff shentsize shstrndx) _
          (get_section-InRange image shoff shentsize shstrndx wide)
          λ shstr ranged.
            let names : List ℕ = take shstr.section_size (drop shstr.section_offset image) in
            read_bytes-Ensures Describes shstr.section_size image shstr.section_offset _ ranged (
              bind-Ensures Describes (InRange image)
                (find_note_section image names shoff shentsize 0 shnum) _
                (find_note_section-InRange image names shoff shentsize 0 shnum wide)
                λ note ranged'.
                  let notes : List ℕ = take note.section_size (drop note.section_offset image) in
                  read_bytes-Ensures Describes note.section_size image note.section_offset _ ranged'
                    (find_metadata_note-Describes (suc (length notes)) notes 0 (omega arith)
                      (omega arith)))

corex_parse_metadata-Describes : (image : List ℕ) → Ensures Describes (corex_parse_metadata image)
unfolding corex_parse_metadata
corex_parse_metadata-Describes image =
    check-Ensures Describes (not (ltb (length image) 64)) _ λ long.
      read_bytes-Ensures Describes 4 image 0 _ (ground arith) (
        check-Ensures Describes (same_bytes (take 4 image) (127 ∷ codes "ELF")) _ λ _.
          read-Ensures Describes 1 image 4 _ (ground arith) (
            check-Ensures Describes (little_endian 1 (drop 4 image) == 2) _ λ _.
              read-Ensures Describes 1 image 5 _ (ground arith) (
                check-Ensures Describes (little_endian 1 (drop 5 image) == 1) _ λ _.
                  read-Ensures Describes 8 image 40 _ (ground arith) (
                    read-Ensures Describes 2 image 58 _ (ground arith) (
                      read-Ensures Describes 2 image 60 _ (ground arith) (
                        read-Ensures Describes 2 image 62 _ (ground arith) (
                          parse_sections-Describes image (little_endian 8 (drop 40 image))
                            (little_endian 2 (drop 58 image)) (little_endian 2 (drop 60 image))
                            (little_endian 2 (drop 62 image)))))))))

-- `corex_parse_metadata` reads no byte outside the image, whatever it holds, and its loops and its
-- recursion end.
pub corex_parse_metadata_safe : (image : List ℕ) → corex_parse_metadata image ≢ fault
corex_parse_metadata_safe image =
    Ensures-safe Describes (corex_parse_metadata image) (corex_parse_metadata-Describes image)

-- The metadata that `corex_parse_metadata` accepts has from 1 to 32 kernels with at most 32 arguments
-- each; every name fits its array with the NUL behind it, every number is a uint32_t, and the kind of an
-- argument is the one of its value kind.
pub corex_parse_metadata-IsModule :
    (image : List ℕ) (m : ModuleMeta)
    → corex_parse_metadata image ≡ accept m
    → IsModule m × (1 ≤ length m.kernels)
corex_parse_metadata-IsModule image m e =
    Ensures-accept Describes (corex_parse_metadata image) (corex_parse_metadata-Describes image) e
