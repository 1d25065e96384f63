-- ===== src/Metadata/Text/Laws.antt =====
-- `strcmp(s, t) == 0` of src/corex_metadata.c is the equality of the strings.
use x_remote_runtime.Prelude.{ℕ, ◌≡◌, ◌↔◌, arith, List, [], ◌∷◌, true}
use x_remote_runtime.Metadata.Text.{c_string, same_bytes, strcmp_equal}

pub same_bytes_iff : (s t : List ℕ) → (same_bytes s t ≡ true) ↔ (s ≡ t)
unfolding same_bytes
same_bytes_iff [] [] = ground arith
same_bytes_iff [] (d ∷ t) = ground arith
same_bytes_iff (c ∷ s) [] = ground arith
same_bytes_iff (c ∷ s) (d ∷ t) = grind (arith, same_bytes_iff s t)

pub strcmp_equal_iff : (s t : List ℕ) → (strcmp_equal s t ≡ true) ↔ (c_string s ≡ c_string t)
unfolding strcmp_equal
strcmp_equal_iff s t = same_bytes_iff (c_string s) (c_string t)
