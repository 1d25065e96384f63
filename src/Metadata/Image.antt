-- ===== src/Metadata/Image.antt =====
-- `corex_parse_metadata` of src/corex_metadata.c: the metadata note of an ELF image. The tests for null
-- pointers and the error texts are left out. A size_t has 64 bits.
pub mod Safety
pub mod Kernels
use x_remote_runtime.Prelude.{
  ℕ, zero, suc, ◌+◌, ◌-◌, ◌*◌, ◌/◌, ◌%◌, ◌^◌, List, [], ◌∷◌, ◌++◌, Bool, false, not, ◌==◌, ◌&&◌,
  ◌||◌, ltb, leb, if◌then◌else◌, length, Option, none, some,
}
use x_remote_runtime.Bytes.{
  Outcome, fault, reject, accept, ◌>>=◌, ◌>>◌, check, rd, rd16, rd32, rd64, rd_bytes,
}
use x_remote_runtime.Metadata.Text.{codes, same_bytes, strcmp_equal}
use x_remote_runtime.Metadata.Module.{
  ArgKind, unknown, global_buffer, by_value, KernelMeta, ModuleMeta, parse_root_metadata,
}

-- `(value + 3) & ~3`.
unfoldable pub align4 : ℕ → ℕ
align4 value = (value + 3) / 4 * 4

unfoldable pub safe_range : ℕ → ℕ → ℕ → Outcome (Unit {0})
safe_range total offset size = do
  check (not (ltb total offset))
  check (not (ltb (total - offset) size))

pub record Section : Type 0 where
  pub name_offset : ℕ
  pub section_offset : ℕ
  pub section_size : ℕ

unfoldable pub get_section : List ℕ → ℕ → ℕ → ℕ → Outcome Section
get_section image shoff shentsize index =
    let off = (shoff + index * shentsize) % 2 ^ 64 in
    do
      safe_range (length image) off shentsize
      name_offset ← rd32 image off
      section_offset ← rd64 image (off + 24)
      section_size ← rd64 image (off + 32)
      safe_range (length image) section_offset section_size
      accept (record {
        name_offset = name_offset;
        section_offset = section_offset;
        section_size = section_size;
      })

-- `wanted` is a literal, without its NUL.
unfoldable pub section_name_equals : List ℕ → ℕ → List ℕ → Outcome Bool
section_name_equals names name_offset wanted =
    if leb (length names) name_offset
    then accept false
    else if ltb (length names - name_offset) (length wanted + 1)
    then accept false
    else do
      s ← rd_bytes (length wanted + 1) names name_offset
      accept (same_bytes s (wanted ++ 0 ∷ []))

-- The loop over the sections from the `i`-th on, of which `n` are left.
unfoldable pub find_note_section : List ℕ → List ℕ → ℕ → ℕ → ℕ → ℕ → Outcome Section
find_note_section image names shoff shentsize i zero = reject
find_note_section image names shoff shentsize i (suc n) = do
  section ← get_section image shoff shentsize i
  is_note ← section_name_equals names section.name_offset (codes ".note")
  if is_note then accept section else find_note_section image names shoff shentsize (suc i) n

-- `namesz >= 8 && memcmp(owner, "Iluvatar", 8) == 0`.
unfoldable pub owner_is_iluvatar : ℕ → List ℕ → ℕ → Outcome Bool
owner_is_iluvatar namesz notes owner =
    if ltb namesz 8
    then accept false
    else do s ← rd_bytes 8 notes owner; accept (same_bytes s (codes "Iluvatar"))

-- The note that is looked for, and whose description is `descsz` bytes at `desc`.
unfoldable pub parse_note : List ℕ → ℕ → ℕ → Outcome ModuleMeta
parse_note notes desc descsz = do
  bytes ← rd_bytes descsz notes desc
  m ← parse_root_metadata bytes
  check (not (length m.kernels == 0))
  accept m

-- A note after its three words. `next` is what the loop does at a later position.
unfoldable pub note_at : (ℕ → Outcome ModuleMeta) → List ℕ → ℕ → ℕ → ℕ → ℕ → Outcome ModuleMeta
note_at next notes owner namesz descsz type = do
  check (leb (align4 namesz) (length notes - owner))
  let desc = owner + align4 namesz
  check (leb (align4 descsz) (length notes - desc))
  is_iluvatar ← owner_is_iluvatar namesz notes owner
  if is_iluvatar && type == 10 then parse_note notes desc descsz else next (desc + align4 descsz)

-- The loop over the notes, on fuel. Running out of it is also a `fault`.
unfoldable pub find_metadata_note : ℕ → List ℕ → ℕ → Outcome ModuleMeta
find_metadata_note zero notes pos = fault
find_metadata_note (suc fuel) notes pos = if ltb (length notes) (pos + 12) then reject else do
  namesz ← rd32 notes pos
  descsz ← rd32 notes (pos + 4)
  type ← rd32 notes (pos + 8)
  note_at (find_metadata_note fuel notes) notes (pos + 12) namesz descsz type

-- From the fields of the ELF header on.
unfoldable pub parse_sections : List ℕ → ℕ → ℕ → ℕ → ℕ → Outcome ModuleMeta
parse_sections image shoff shentsize shnum shstrndx = do
  check (not (ltb shentsize 64 || shnum == 0 || leb shnum shstrndx))
  safe_range (length image) shoff (shentsize * shnum)
  shstr ← get_section image shoff shentsize shstrndx
  names ← rd_bytes shstr.section_size image shstr.section_offset
  note ← find_note_section image names shoff shentsize 0 shnum
  notes ← rd_bytes note.section_size image note.section_offset
  find_metadata_note (suc (length notes)) notes 0

unfoldable pub corex_parse_metadata : List ℕ → Outcome ModuleMeta
corex_parse_metadata image = do
  check (not (ltb (length image) 64))
  magic ← rd_bytes 4 image 0
  check (same_bytes magic (127 ∷ codes "ELF"))
  class ← rd 1 image 4
  check (class == 2)
  encoding ← rd 1 image 5
  check (encoding == 1)
  shoff ← rd64 image 40
  shentsize ← rd16 image 58
  shnum ← rd16 image 60
  shstrndx ← rd16 image 62
  parse_sections image shoff shentsize shnum shstrndx

unfoldable pub find_named : List KernelMeta → List ℕ → Option KernelMeta
find_named [] kernel_name = none
find_named (k ∷ kernels) kernel_name =
    let rest = find_named kernels kernel_name in
    if strcmp_equal k.name kernel_name then some k else rest

unfoldable pub corex_find_kernel_meta : ModuleMeta → List ℕ → Option KernelMeta
corex_find_kernel_meta m kernel_name = find_named m.kernels kernel_name

unfoldable pub corex_meta_arg_kind_name : ArgKind → List ℕ
corex_meta_arg_kind_name global_buffer = codes "global_buffer"
corex_meta_arg_kind_name by_value = codes "by_value"
corex_meta_arg_kind_name unknown = codes "unknown"
