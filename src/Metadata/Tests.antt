-- ===== src/Metadata/Tests.antt =====
-- Runs of src/corex_metadata.c on a small image.
use x_remote_runtime.Prelude.{
  ◌↔◌, ◌≡◌, ◌≢◌, ℕ, ◌≤◌, refl, List, [], ◌∷◌, ◌++◌, length, replicate, some,
}
use x_remote_runtime.Bytes.{fault, rd, little_endian, rd_bytes}
use x_remote_runtime.Metadata.Text.{codes, c_string, same_bytes, strcmp_equal}
use x_remote_runtime.Metadata.Reader.{
  mp_need, mp_get_u8, mp_read_map_len, mp_read_array_len, mp_string_len, mp_read_string,
}
use x_remote_runtime.Metadata.Module.{
  by_value, KernelMeta, ModuleMeta, blank_arg, blank_kernel, parse_arg_kind, read_fields,
  read_entries, arg_field, parse_arg, kernel_field, parse_kernel, root_field, parse_root_metadata,
}
use x_remote_runtime.Metadata.Module.Bounds.{IsModule}
use x_remote_runtime.Metadata.Image.{
  align4, safe_range, get_section, section_name_equals, find_note_section, owner_is_iluvatar,
  parse_note, note_at, find_metadata_note, parse_sections, corex_parse_metadata,
  corex_find_kernel_meta, corex_meta_arg_kind_name,
}
use x_remote_runtime.Metadata.Image.Safety.{
  corex_parse_metadata_safe, corex_parse_metadata-IsModule,
}
use x_remote_runtime.Metadata.Image.Kernels.{
  IsFirst, corex_find_kernel_meta_iff, parse_arg_kind-corex_meta_arg_kind_name,
}

abbrev zeros : ℕ → List ℕ
zeros n = replicate n 0

-- { "iluvatar.kernels": [{ ".name": "k", ".args": [{ ".value_kind": "by_value" }] }] }
abbrev desc : List ℕ
desc =
    129 ∷ 176 ∷ codes "iluvatar.kernels"
    ++ 145 ∷ 130 ∷ 165 ∷ codes ".name"
    ++ 161 ∷ codes "k"
    ++ 165 ∷ codes ".args"
    ++ 145 ∷ 129 ∷ 171 ∷ codes ".value_kind"
    ++ 168 ∷ codes "by_value"

-- The header; two section headers at 64; the section names at 192; the notes at 200.
abbrev image : List ℕ
image =
    127 ∷ codes "ELF"
    ++ 2 ∷ 1 ∷ zeros 34
    ++ 64 ∷ zeros 17
    ++ 64 ∷ 0 ∷ 2 ∷ 0 ∷ 0 ∷ 0 ∷ []
    ++ zeros 24
    ++ 192 ∷ zeros 7
    ++ 7 ∷ zeros 31
    ++ 1 ∷ zeros 23
    ++ 200 ∷ zeros 7
    ++ 80 ∷ zeros 31
    ++ 0 ∷ codes ".note"
    ++ 0 ∷ 0 ∷ 8 ∷ 0 ∷ 0 ∷ 0 ∷ length desc ∷ 0 ∷ 0 ∷ 0 ∷ 10 ∷ 0 ∷ 0 ∷ 0 ∷ codes "Iluvatar"
    ++ desc
    ++ zeros 3

abbrev described : ModuleMeta
described = record {
  version_major = 0;
  version_minor = 0;
  kernels =
      record blank_kernel {
        name = codes "k";
        args = record blank_arg { kind = by_value; value_kind = codes "by_value" } ∷ [];
      }
      ∷ [];
}

corex_parse_metadata_safe_example : corex_parse_metadata image ≢ fault
corex_parse_metadata_safe_example = corex_parse_metadata_safe image

corex_parse_metadata-IsModule_example : IsModule described × (1 ≤ length described.kernels)
unfolding corex_parse_metadata parse_sections find_metadata_note note_at parse_note
    owner_is_iluvatar find_note_section section_name_equals get_section safe_range align4
    parse_root_metadata root_field parse_kernel kernel_field parse_arg arg_field read_fields
    read_entries parse_arg_kind mp_read_string mp_string_len mp_read_array_len mp_read_map_len
    mp_get_u8 mp_need strcmp_equal same_bytes c_string rd little_endian rd_bytes
corex_parse_metadata-IsModule_example = corex_parse_metadata-IsModule image described refl

abbrev kernel_k : KernelMeta
kernel_k = record blank_kernel { name = codes "k" }

abbrev two_kernels : ModuleMeta
two_kernels = record described { kernels = blank_kernel ∷ kernel_k ∷ [] }

corex_find_kernel_meta_iff_example :
    (corex_find_kernel_meta two_kernels (codes "k") ≡ some kernel_k)
    ↔ IsFirst two_kernels.kernels (codes "k") kernel_k
corex_find_kernel_meta_iff_example = corex_find_kernel_meta_iff two_kernels (codes "k") kernel_k

parse_arg_kind-corex_meta_arg_kind_name_example :
    parse_arg_kind (corex_meta_arg_kind_name by_value) ≡ by_value
parse_arg_kind-corex_meta_arg_kind_name_example = parse_arg_kind-corex_meta_arg_kind_name by_value
