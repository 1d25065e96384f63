-- ===== src/Protocol/Capabilities.antt =====
-- The capabilities of a HELLO message of include/internal/corex_protocol.h.
use x_remote_runtime.Prelude.{
  ℕ, zero, suc, ◌+◌, ◌*◌, ◌≡◌, ◌≢◌, ◌↔◌, refl, sym, ap, ◌∙◌, arith, none, some, List, [], ◌∷◌, ◌++◌,
  length, drop, All, inl, inr, false,
}
use mathlib.Core.List.{append-nil, append_assoc}
use x_remote_runtime.Protocol.Words.{IsByte, IsU32, take_u32, be32, write_u32, write_u32-be32}
use x_remote_runtime.Protocol.Take.{take_u32_cases, take_u32_at}
use x_remote_runtime.Protocol.Hello.{write_words, contains, decode_capabilities}

unfoldable pub be_words : List ℕ → List ℕ
be_words [] = []
be_words (w ∷ ws) = be32 w ++ be_words ws

pub length-be_words : (ws : List ℕ) → length (be_words ws) ≡ 4 * length ws
unfolding be_words
length-be_words [] = omega arith
length-be_words (w ∷ ws) = omega (arith, length-be_words ws)

pub write_words-be : (out ws : List ℕ) → All IsU32 ws → write_words out ws ≡ out ++ be_words ws
unfolding write_words be_words
write_words-be out [] h = sym (append-nil out)
write_words-be out (w ∷ ws) (hw, hws) =
    write_words-be (write_u32 out w) ws hws
    ∙ rw (write_u32-be32 out w hw) (append_assoc out (be32 w) (be_words ws))

-- A capability differs from every one in `seen`.
abbrev IsNew : List ℕ → ℕ → Type 0
IsNew seen c = All (λ x. x ≢ c) seen

-- Capabilities are nonzero words, each different from `seen` and from those before it.
abbrev pub AreFresh : List ℕ → List ℕ → Type 0
AreFresh seen [] = Unit {0}
AreFresh seen (c ∷ cs) = IsU32 c × (c ≢ 0) × IsNew seen c × AreFresh (seen ++ (c ∷ [])) cs

contains-IsNew : (seen : List ℕ) (c : ℕ) → (contains seen c ≡ false) ↔ IsNew seen c
unfolding contains
contains-IsNew [] c = ((λ e. tt), (λ e. refl))
contains-IsNew (x ∷ xs) c = ground (arith, contains-IsNew xs c)

pub decode_capabilities-be :
    (cs seen input : List ℕ) (p : ℕ) (rest : List ℕ)
    → AreFresh seen cs
    → drop p input ≡ be_words cs ++ rest
    → decode_capabilities (length cs) seen input p ≡ some (seen ++ cs, p + 4 * length cs)
unfolding decode_capabilities be_words
decode_capabilities-be [] seen input p rest h e = ground (arith, append-nil seen)
decode_capabilities-be (c ∷ cs) seen input p rest (hc, nz, new, more) e =
    let step = take_u32_at input p c (be_words cs ++ rest) hc e in
    let ih = decode_capabilities-be cs (seen ++ (c ∷ [])) input (p + 4) rest more step.1 in
    rw (step.0, (contains-IsNew seen c).1 new, ih) (ground (arith, append_assoc seen (c ∷ []) cs))

decode_capabilities_step :
    (n : ℕ) (seen input : List ℕ) (p v p' : ℕ) (result : List ℕ × ℕ)
    → take_u32 input p ≡ some (v, p')
    → decode_capabilities (suc n) seen input p ≡ some result
    → (v ≢ 0)
      × (contains seen v ≡ false)
      × (decode_capabilities n (seen ++ (v ∷ [])) input p' ≡ some result)
unfolding decode_capabilities
decode_capabilities_step n seen input p v p' result t e = ground arith

decode_capabilities-ne_none :
    (n : ℕ) (seen input : List ℕ) (p : ℕ) (result : List ℕ × ℕ)
    → take_u32 input p ≡ none
    → decode_capabilities (suc n) seen input p ≢ some result
unfolding decode_capabilities
decode_capabilities-ne_none n seen input p result t e = ground arith

pub decode_capabilities_sound :
    (n : ℕ) (seen input : List ℕ) (p : ℕ) (r : List ℕ) (q : ℕ)
    → All IsByte input
    → decode_capabilities n seen input p ≡ some (r, q)
    → (cs : List ℕ) × (r ≡ seen ++ cs)
      × AreFresh seen cs
      × (length cs ≡ n)
      × (q ≡ p + 4 * n)
      × (drop p input ≡ be_words cs ++ drop q input)
unfolding decode_capabilities be_words
decode_capabilities_sound zero seen input p r q b e =
    let end : p ≡ q = ground arith in
    ([], ground (arith, append-nil seen), tt, refl, omega arith, ap (λ (t : ℕ). drop t input) end)
decode_capabilities_sound (suc n) seen input p r q b e = elim (take_u32_cases input p b) [
  | inl short ↦ absurd (decode_capabilities-ne_none n seen input p (r, q) short e)
  | inr (v, t, small, _, split) ↦
      let (nz, new, more) = decode_capabilities_step n seen input p v (p + 4) (r, q) t e in
      let (cs, er, fresh, len, eq, bytes) =
        decode_capabilities_sound n (seen ++ (v ∷ [])) input (p + 4) r q b more in
      (
        v ∷ cs,
        er ∙ append_assoc seen (v ∷ []) cs,
        (small, nz, (contains-IsNew seen v).0 new, fresh),
        ap suc len,
        omega arith,
        split ∙ ap (◌++◌ (be32 v)) bytes,
      )
]
