-- ===== src/Metadata/Text.antt =====
-- The C strings that src/corex_metadata.c compares: a buffer up to its first NUL.
pub mod Laws
use x_remote_runtime.Prelude.{ℕ, ◌==◌, ◌&&◌, List, [], ◌∷◌, Bool, true, false, if◌then◌else◌}
use Prim.Native.Char.{code}
use Prim.Native.String.{String}

-- The bytes of an ASCII literal.
abbrev pub codes : String → List ℕ
codes String.[] = []
codes (String.◌∷◌ c s) = code c ∷ codes s

-- A string as its bytes up to the first NUL.
unfoldable pub c_string : List ℕ → List ℕ
c_string [] = []
c_string (c ∷ s) = let rest = c_string s in if c == 0 then [] else c ∷ rest

-- Both lists have the same bytes.
unfoldable pub same_bytes : List ℕ → List ℕ → Bool
same_bytes [] [] = true
same_bytes [] (d ∷ t) = false
same_bytes (c ∷ s) [] = false
same_bytes (c ∷ s) (d ∷ t) = let rest = same_bytes s t in c == d && rest

-- `strcmp(s, t) == 0`.
unfoldable pub strcmp_equal : List ℕ → List ℕ → Bool
strcmp_equal s t = same_bytes (c_string s) (c_string t)
