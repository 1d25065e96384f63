-- ===== src/Metadata/Module.antt =====
-- The kernels and arguments that the metadata note of a device image describes: `parse_root_metadata`
-- of src/corex_metadata.c and what it calls. A char array is what stands before the NUL that
-- `mp_read_string` puts into it; `args` and `kernels` hold the first `argc` and `kernel_count` entries.
pub mod Fields
pub mod Bounds
use x_remote_runtime.Prelude.{
  ℕ, zero, suc, ◌+◌, ◌-◌, ◌%◌, ◌^◌, List, [], ◌∷◌, Bool, not, ◌==◌, leb, if◌then◌else◌, length,
}
use x_remote_runtime.Bytes.{Outcome, reject, accept, ◌>>=◌, ◌>>◌, check}
use x_remote_runtime.Metadata.Text.{codes, strcmp_equal}
use x_remote_runtime.Metadata.Reader.{
  mp_read_map_len, mp_read_array_len, mp_read_string, mp_read_uint64, mp_skip,
}

abbrev pub max_kernels : ℕ
max_kernels = 32

abbrev pub max_args : ℕ
max_args = 32

pub data ArgKind : Type 0 where
  unknown global_buffer by_value : ArgKind

pub record ArgMeta : Type 0 where
  pub name : List ℕ
  pub offset : ℕ
  pub size : ℕ
  pub kind : ArgKind
  pub value_kind : List ℕ
  pub address_space : List ℕ

pub record KernelMeta : Type 0 where
  pub name : List ℕ
  pub symbol : List ℕ
  pub kernarg_segment_align : ℕ
  pub kernarg_segment_size : ℕ
  pub warp_size : ℕ
  pub args : List ArgMeta

pub record ModuleMeta : Type 0 where
  pub version_major : ℕ
  pub version_minor : ℕ
  pub kernels : List KernelMeta

-- `memset(.., 0, ..)`.
abbrev pub blank_arg : ArgMeta
blank_arg = record {
  name = [];
  offset = 0;
  size = 0;
  kind = unknown;
  value_kind = [];
  address_space = [];
}

abbrev pub blank_kernel : KernelMeta
blank_kernel = record {
  name = [];
  symbol = [];
  kernarg_segment_align = 0;
  kernarg_segment_size = 0;
  warp_size = 0;
  args = [];
}

abbrev pub blank_module : ModuleMeta
blank_module = record { version_major = 0; version_minor = 0; kernels = [] }

unfoldable pub parse_arg_kind : List ℕ → ArgKind
parse_arg_kind value_kind =
    if strcmp_equal value_kind (codes "global_buffer")
    then global_buffer
    else if strcmp_equal value_kind (codes "by_value")
    then by_value
    else unknown

-- The loop over so many fields, each of which changes what is read so far.
unfoldable pub read_fields {ℓ} :
    {A : Type ℓ} → ℕ → (A → ℕ → Outcome (A × ℕ)) → A → ℕ → Outcome (A × ℕ)
read_fields zero field a pos = accept (a, pos)
read_fields (suc n) field a pos = do (b, p) ← field a pos; read_fields n field b p

-- The loop that fills so many entries of an array.
unfoldable pub read_entries {ℓ} :
    {A : Type ℓ} → ℕ → (ℕ → Outcome (A × ℕ)) → ℕ → Outcome (List A × ℕ)
read_entries zero entry pos = accept ([], pos)
read_entries (suc n) entry pos = do
  (a, p) ← entry pos
  (entries, q) ← read_entries n entry p
  accept (a ∷ entries, q)

-- `mp_skip` with fuel for the whole buffer.
abbrev pub skip_field : {A : Type 0} → List ℕ → A → ℕ → Outcome (A × ℕ)
skip_field bytes a pos = do p ← mp_skip (suc (length bytes)) bytes pos; accept (a, p)

-- One field of an argument.
unfoldable pub arg_field : List ℕ → ArgMeta → ℕ → Outcome (ArgMeta × ℕ)
arg_field bytes arg pos = do
  (key, p) ← mp_read_string 64 bytes pos
  if strcmp_equal key (codes ".name")
      then (do (s, q) ← mp_read_string 64 bytes p; accept (record arg { name = s }, q))
      else if strcmp_equal key (codes ".offset")
      then (do
        (v, q) ← mp_read_uint64 bytes p
        check (leb v (2 ^ 32 - 1))
        accept (record arg { offset = v }, q))
      else if strcmp_equal key (codes ".size")
      then (do
        (v, q) ← mp_read_uint64 bytes p
        check (leb v (2 ^ 32 - 1))
        accept (record arg { size = v }, q))
      else if strcmp_equal key (codes ".value_kind")
      then (do
        (s, q) ← mp_read_string 32 bytes p
        accept (record arg { value_kind = s; kind = parse_arg_kind s }, q))
      else if strcmp_equal key (codes ".address_space")
      then (do (s, q) ← mp_read_string 32 bytes p; accept (record arg { address_space = s }, q))
      else skip_field bytes arg p

unfoldable pub parse_arg : List ℕ → ℕ → Outcome (ArgMeta × ℕ)
parse_arg bytes pos = do
  (fields, p) ← mp_read_map_len bytes pos
  read_fields fields (arg_field bytes) blank_arg p

-- One field of a kernel.
unfoldable pub kernel_field : List ℕ → KernelMeta → ℕ → Outcome (KernelMeta × ℕ)
kernel_field bytes kernel pos = do
  (key, p) ← mp_read_string 96 bytes pos
  if strcmp_equal key (codes ".name")
      then (do (s, q) ← mp_read_string 128 bytes p; accept (record kernel { name = s }, q))
      else if strcmp_equal key (codes ".symbol")
      then (do (s, q) ← mp_read_string 128 bytes p; accept (record kernel { symbol = s }, q))
      else if strcmp_equal key (codes ".kernarg_segment_align")
      then (do
        (v, q) ← mp_read_uint64 bytes p
        accept (record kernel { kernarg_segment_align = v % 2 ^ 32 }, q))
      else if strcmp_equal key (codes ".kernarg_segment_size")
      then (do
        (v, q) ← mp_read_uint64 bytes p
        accept (record kernel { kernarg_segment_size = v % 2 ^ 32 }, q))
      else if strcmp_equal key (codes ".warp_size")
      then (do
        (v, q) ← mp_read_uint64 bytes p
        accept (record kernel { warp_size = v % 2 ^ 32 }, q))
      else if strcmp_equal key (codes ".args")
      then (do
        (count, q) ← mp_read_array_len bytes p
        check (leb count max_args)
        (entries, q') ← read_entries count (parse_arg bytes) q
        accept (record kernel { args = entries }, q'))
      else skip_field bytes kernel p

unfoldable pub parse_kernel : List ℕ → ℕ → Outcome (KernelMeta × ℕ)
parse_kernel bytes pos = do
  (fields, p) ← mp_read_map_len bytes pos
  read_fields fields (kernel_field bytes) blank_kernel p

-- The `j`-th number of the version.
unfoldable pub set_version : ℕ → ℕ → ModuleMeta → ModuleMeta
set_version zero v m = record m { version_major = v % 2 ^ 32 }
set_version (suc zero) v m = record m { version_minor = v % 2 ^ 32 }
set_version (suc (suc j)) v m = m

-- The loop over the numbers of the version from the `j`-th on, of which `n` are left.
unfoldable pub read_version : List ℕ → ℕ → ℕ → ModuleMeta → ℕ → Outcome (ModuleMeta × ℕ)
read_version bytes j zero m pos = accept (m, pos)
read_version bytes j (suc n) m pos = do
  (v, p) ← mp_read_uint64 bytes pos
  read_version bytes (suc j) n (set_version j v m) p

-- One field of the root.
unfoldable pub root_field : List ℕ → ModuleMeta → ℕ → Outcome (ModuleMeta × ℕ)
root_field bytes m pos = do
  (key, p) ← mp_read_string 96 bytes pos
  if strcmp_equal key (codes "iluvatar.kernels")
      then (do
        (count, q) ← mp_read_array_len bytes p
        check (leb count max_kernels)
        (ks, q') ← read_entries count (parse_kernel bytes) q
        accept (record m { kernels = ks }, q'))
      else if strcmp_equal key (codes "iluvatar.version")
      then (do (count, q) ← mp_read_array_len bytes p; read_version bytes 0 count m q)
      else skip_field bytes m p

-- It fills the module that the caller has cleared.
unfoldable pub parse_root_metadata : List ℕ → Outcome ModuleMeta
parse_root_metadata bytes = do
  (fields, p) ← mp_read_map_len bytes 0
  (m, q) ← read_fields fields (root_field bytes) blank_module p
  check (q == length bytes)
  accept m
