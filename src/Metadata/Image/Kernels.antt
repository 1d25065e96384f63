-- ===== src/Metadata/Image/Kernels.antt =====
-- `corex_find_kernel_meta` of src/corex_metadata.c finds the first kernel of a name.
use x_remote_runtime.Prelude.{
  ℕ, ◌≡◌, ◌≢◌, ◌↔◌, inl, inr, refl, ◌∙◌, ap, List, [], ◌∷◌, ◌++◌, All, false, some, Bool-cases,
}
use native.Mathlib.Omega.{arith}
use mathlib.Core.Path.{subst}
use x_remote_runtime.Metadata.Text.{c_string, same_bytes, strcmp_equal}
use x_remote_runtime.Metadata.Text.Laws.{strcmp_equal_iff}
use x_remote_runtime.Metadata.Module.{
  ArgKind, unknown, global_buffer, by_value, KernelMeta, ModuleMeta, parse_arg_kind,
}
use x_remote_runtime.Metadata.Image.{find_named, corex_find_kernel_meta, corex_meta_arg_kind_name}

-- The kernels before one, and those behind it.
pub record IsFirst (kernels : List KernelMeta) (name : List ℕ) (k : KernelMeta) : Type 0 where
  pub before : List KernelMeta
  pub after : List KernelMeta
  pub place : kernels ≡ before ++ k ∷ after
  pub named : c_string k.name ≡ c_string name
  pub first : All (λ j. c_string j.name ≢ c_string name) before

find_named-IsFirst :
    (kernels : List KernelMeta) (name : List ℕ) (k : KernelMeta)
    → find_named kernels name ≡ some k
    → IsFirst kernels name k
unfolding find_named
find_named-IsFirst [] name k e = absurd (ground arith)
find_named-IsFirst (j ∷ kernels) name k e = elim (Bool-cases (strcmp_equal j.name name)) [
  | inl q ↦
      let same : j ≡ k = ground arith in
      record {
        before = [];
        after = kernels;
        place = ap (λ i. i ∷ kernels) same;
        named =
            subst (λ i. c_string i.name ≡ c_string name) same ((strcmp_equal_iff j.name name).0 q);
        first = tt;
      }
  | inr q ↦
      let rest : IsFirst kernels name k = find_named-IsFirst kernels name k (ground arith) in
      record {
        before = j ∷ rest.before;
        after = rest.after;
        place = ap (◌∷◌ j) rest.place;
        named = rest.named;
        first = (λ same. ground (arith, strcmp_equal_iff j.name name), rest.first);
      }
]

IsFirst-find_named :
    (name : List ℕ) (k : KernelMeta) (before after : List KernelMeta)
    → c_string k.name ≡ c_string name
    → All (λ j. c_string j.name ≢ c_string name) before
    → find_named (before ++ k ∷ after) name ≡ some k
unfolding find_named
IsFirst-find_named name k [] after named first = rw ((strcmp_equal_iff k.name name).1 named) refl
IsFirst-find_named name k (j ∷ before) after named (other, first) =
    let differs : strcmp_equal j.name name ≡ false = ground (arith, strcmp_equal_iff j.name name) in
    rw differs (IsFirst-find_named name k before after named first)

-- `corex_find_kernel_meta` finds a kernel exactly if that is the first one of the module whose name is
-- the given one, as C strings.
pub corex_find_kernel_meta_iff :
    (m : ModuleMeta) (name : List ℕ) (k : KernelMeta)
    → (corex_find_kernel_meta m name ≡ some k) ↔ IsFirst m.kernels name k
unfolding corex_find_kernel_meta
corex_find_kernel_meta_iff m name k = (
  find_named-IsFirst m.kernels name k,
  λ found.
      ap (λ kernels. find_named kernels name) found.place
      ∙ IsFirst-find_named name k found.before found.after found.named found.first,
)

-- The name that `corex_meta_arg_kind_name` gives a kind is read back as that kind by `parse_arg_kind`.
pub parse_arg_kind-corex_meta_arg_kind_name :
    (kind : ArgKind) → parse_arg_kind (corex_meta_arg_kind_name kind) ≡ kind
unfolding parse_arg_kind corex_meta_arg_kind_name strcmp_equal c_string same_bytes
parse_arg_kind-corex_meta_arg_kind_name unknown = refl
parse_arg_kind-corex_meta_arg_kind_name global_buffer = refl
parse_arg_kind-corex_meta_arg_kind_name by_value = refl
