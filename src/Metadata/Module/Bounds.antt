-- ===== src/Metadata/Module/Bounds.antt =====
-- What `parse_root_metadata` of src/corex_metadata.c reads fits the arrays and the integers of
-- include/internal/corex_metadata.h.
use x_remote_runtime.Prelude.{
  ℕ, zero, suc, ◌^◌, ◌≤◌, ◌<◌, ◌≡◌, refl, arith, List, All, length, ◌==◌,
}
use x_remote_runtime.Bytes.{accept}
use x_remote_runtime.Bytes.Ensures.{Ensures, bind-Ensures, check-Ensures}
use x_remote_runtime.Metadata.Text.{codes, c_string, same_bytes, strcmp_equal}
use x_remote_runtime.Metadata.Reader.{mp_read_map_len}
use x_remote_runtime.Metadata.Reader.Bounds.{From, mp_read_map_len-ReadsOn}
use x_remote_runtime.Metadata.Module.{
  ArgMeta, KernelMeta, ModuleMeta, blank_arg, blank_kernel, blank_module, parse_arg_kind, max_args,
  max_kernels, arg_field, parse_arg, kernel_field, parse_kernel, set_version, read_version,
  root_field, parse_root_metadata, read_fields,
}
use x_remote_runtime.Metadata.Module.Fields.{
  Yields, if-Yields, stop-Yields, string-Yields, uint64-Yields, array-Yields, map-Yields,
  set_string-Yields, set_word-Yields, set_checked-Yields, set_entries-Yields, skip_field-Yields,
  read_fields-Yields,
}

-- Each char array has room for a NUL behind what it holds.
pub record IsArg (a : ArgMeta) : Type 0 where
  pub name : length a.name < 64
  pub offset : a.offset < 2 ^ 32
  pub size : a.size < 2 ^ 32
  pub kind : a.kind ≡ parse_arg_kind a.value_kind
  pub value_kind : length a.value_kind < 32
  pub address_space : length a.address_space < 32

pub record IsKernel (k : KernelMeta) : Type 0 where
  pub name : length k.name < 128
  pub symbol : length k.symbol < 128
  pub kernarg_segment_align : k.kernarg_segment_align < 2 ^ 32
  pub kernarg_segment_size : k.kernarg_segment_size < 2 ^ 32
  pub warp_size : k.warp_size < 2 ^ 32
  pub argc : length k.args ≤ max_args
  pub args : All IsArg k.args

pub record IsModule (m : ModuleMeta) : Type 0 where
  pub version_major : m.version_major < 2 ^ 32
  pub version_minor : m.version_minor < 2 ^ 32
  pub kernel_count : length m.kernels ≤ max_kernels
  pub kernels : All IsKernel m.kernels

blank_arg-IsArg : IsArg blank_arg
unfolding parse_arg_kind strcmp_equal c_string same_bytes
blank_arg-IsArg = record {
  name = omega arith;
  offset = omega arith;
  size = omega arith;
  kind = refl;
  value_kind = omega arith;
  address_space = omega arith;
}

blank_kernel-IsKernel : IsKernel blank_kernel
blank_kernel-IsKernel = record {
  name = omega arith;
  symbol = omega arith;
  kernarg_segment_align = omega arith;
  kernarg_segment_size = omega arith;
  warp_size = omega arith;
  argc = omega arith;
  args = tt;
}

blank_module-IsModule : IsModule blank_module
blank_module-IsModule = record {
  version_major = omega arith;
  version_minor = omega arith;
  kernel_count = omega arith;
  kernels = tt;
}

module _ (bytes : List ℕ) where
  arg_field-Yields :
      (arg : ArgMeta) (pos : ℕ)
      → IsArg arg
      → pos ≤ length bytes
      → Yields bytes IsArg pos (arg_field bytes arg pos)
  unfolding arg_field
  arg_field-Yields arg pos good h = string-Yields bytes IsArg 64 pos _ h λ key p _ h'.
      if-Yields bytes IsArg (strcmp_equal key (codes ".name")) p _ _
        (set_string-Yields bytes IsArg 64 p (λ s. record arg { name = s }) h' λ s short. search)
        (if-Yields bytes IsArg (strcmp_equal key (codes ".offset")) p _ _
          (set_checked-Yields bytes IsArg p (λ v. record arg { offset = v }) h' λ v small. search)
          (if-Yields bytes IsArg (strcmp_equal key (codes ".size")) p _ _
            (set_checked-Yields bytes IsArg p (λ v. record arg { size = v }) h' λ v small. search)
            (if-Yields bytes IsArg (strcmp_equal key (codes ".value_kind")) p _ _
              (set_string-Yields bytes IsArg 32 p
                (λ s. record arg { value_kind = s; kind = parse_arg_kind s }) h' λ s short. search)
              (if-Yields bytes IsArg (strcmp_equal key (codes ".address_space")) p _ _
                (set_string-Yields bytes IsArg 32 p (λ s. record arg { address_space = s }) h'
                  λ s short. search)
                (skip_field-Yields bytes IsArg arg p good h')))))

  parse_arg-Yields : (pos : ℕ) → pos ≤ length bytes → Yields bytes IsArg pos (parse_arg bytes pos)
  unfolding parse_arg
  parse_arg-Yields pos h = map-Yields bytes IsArg pos _ h λ fields p h'.
      read_fields-Yields bytes IsArg fields (arg_field bytes) blank_arg p arg_field-Yields
        blank_arg-IsArg h'

  kernel_field-Yields :
      (kernel : KernelMeta) (pos : ℕ)
      → IsKernel kernel
      → pos ≤ length bytes
      → Yields bytes IsKernel pos (kernel_field bytes kernel pos)
  unfolding kernel_field
  kernel_field-Yields kernel pos good h = string-Yields bytes IsKernel 96 pos _ h λ key p _ h'.
      if-Yields bytes IsKernel (strcmp_equal key (codes ".name")) p _ _
        (set_string-Yields bytes IsKernel 128 p (λ s. record kernel { name = s }) h'
          λ s short. search)
        (if-Yields bytes IsKernel (strcmp_equal key (codes ".symbol")) p _ _
          (set_string-Yields bytes IsKernel 128 p (λ s. record kernel { symbol = s }) h'
            λ s short. search)
          (if-Yields bytes IsKernel (strcmp_equal key (codes ".kernarg_segment_align")) p _ _
            (set_word-Yields bytes IsKernel p (λ v. record kernel { kernarg_segment_align = v }) h'
              λ v small. search)
            (if-Yields bytes IsKernel (strcmp_equal key (codes ".kernarg_segment_size")) p _ _
              (set_word-Yields bytes IsKernel p (λ v. record kernel { kernarg_segment_size = v }) h'
                λ v small. search)
              (if-Yields bytes IsKernel (strcmp_equal key (codes ".warp_size")) p _ _
                (set_word-Yields bytes IsKernel p (λ v. record kernel { warp_size = v }) h'
                  λ v small. search)
                (if-Yields bytes IsKernel (strcmp_equal key (codes ".args")) p _ _
                  (set_entries-Yields bytes IsKernel IsArg max_args (parse_arg bytes) p
                    (λ entries. record kernel { args = entries }) h' parse_arg-Yields
                    λ entries few all. search)
                  (skip_field-Yields bytes IsKernel kernel p good h'))))))

  parse_kernel-Yields :
      (pos : ℕ) → pos ≤ length bytes → Yields bytes IsKernel pos (parse_kernel bytes pos)
  unfolding parse_kernel
  parse_kernel-Yields pos h = map-Yields bytes IsKernel pos _ h λ fields p h'.
      read_fields-Yields bytes IsKernel fields (kernel_field bytes) blank_kernel p
        kernel_field-Yields blank_kernel-IsKernel h'

  set_version-IsModule : (j v : ℕ) (m : ModuleMeta) → IsModule m → IsModule (set_version j v m)
  unfolding set_version
  set_version-IsModule zero v m good = search arith
  set_version-IsModule (suc zero) v m good = search arith
  set_version-IsModule (suc (suc j)) v m good = good

  read_version-Yields :
      (j n : ℕ) (m : ModuleMeta) (pos : ℕ)
      → IsModule m
      → pos ≤ length bytes
      → Yields bytes IsModule pos (read_version bytes j n m pos)
  unfolding read_version
  read_version-Yields j zero m pos good h = stop-Yields bytes IsModule m pos good h
  read_version-Yields j (suc n) m pos good h = uint64-Yields bytes IsModule pos _ h λ v p h'.
      read_version-Yields (suc j) n (set_version j v m) p (set_version-IsModule j v m good) h'

  root_field-Yields :
      (m : ModuleMeta) (pos : ℕ)
      → IsModule m
      → pos ≤ length bytes
      → Yields bytes IsModule pos (root_field bytes m pos)
  unfolding root_field
  root_field-Yields m pos good h = string-Yields bytes IsModule 96 pos _ h λ key p _ h'.
      if-Yields bytes IsModule (strcmp_equal key (codes "iluvatar.kernels")) p _ _
        (set_entries-Yields bytes IsModule IsKernel max_kernels (parse_kernel bytes) p
          (λ entries. record m { kernels = entries }) h' parse_kernel-Yields
          λ entries few all. search)
        (if-Yields bytes IsModule (strcmp_equal key (codes "iluvatar.version")) p _ _
          (array-Yields bytes IsModule p _ h'
            λ count q h''. read_version-Yields 0 count m q good h'')
          (skip_field-Yields bytes IsModule m p good h'))

  pub parse_root_metadata-Ensures : Ensures IsModule (parse_root_metadata bytes)
  unfolding parse_root_metadata
  parse_root_metadata-Ensures =
      bind-Ensures IsModule (λ r. From bytes 1 r.1) (mp_read_map_len bytes 0) _
        (mp_read_map_len-ReadsOn bytes 0 (omega arith))
        λ (fields, p) (low, high).
          bind-Ensures IsModule (λ r. IsModule r.0 × From bytes p r.1)
            (read_fields fields (root_field bytes) blank_module p) _
            (read_fields-Yields bytes IsModule fields (root_field bytes) blank_module p
              root_field-Yields blank_module-IsModule high)
            λ (m, q) (good, _). check-Ensures IsModule (q == length bytes) (accept m) λ _. good
