-- ===== src/Protocol/HelloRoundTrip.antt =====
-- Encoding and decoding the HELLO message of include/internal/corex_protocol.h.
use x_remote_runtime.Prelude.{
  ℕ, ◌+◌, ◌*◌, ◌≤◌, ◌≡◌, ◌≢◌, refl, sym, ap, ◌∙◌, arith, none, some, List, [], ◌∷◌, ◌++◌, length,
  drop, All, inl, inr, Bool-cases, ◌>>=◌, ltb, drop-length,
}
use mathlib.Core.List.{append-nil}
use x_remote_runtime.Protocol.Words.{IsByte, IsU32, take_u32, be32}
use x_remote_runtime.Protocol.Take.{take_u32_cases, take_u32_at}
use x_remote_runtime.Protocol.Header.{protocol_magic, protocol_version}
use x_remote_runtime.Protocol.Hello.{
  CorexHello, hello_schema_version, encode_hello, decode_hello, decode_capabilities,
}
use x_remote_runtime.Protocol.Capabilities.{
  be_words, length-be_words, write_words-be, AreFresh, decode_capabilities-be,
  decode_capabilities_sound,
}

-- A message the decoder accepts: every field a word, at least one device, at most 32 distinct
-- nonzero capabilities.
pub record IsValid (h : CorexHello) : Type 0 where
  pub major : IsU32 h.server_major
  pub minor : IsU32 h.server_minor
  pub patch : IsU32 h.server_patch
  pub backend : IsU32 h.backend_id
  pub version : IsU32 h.backend_version
  pub devices : IsU32 h.device_count
  pub profile : IsU32 h.device_profile_id
  pub some_device : h.device_count ≢ 0
  pub few : length h.capabilities ≤ 32
  pub fresh : AreFresh [] h.capabilities

AreFresh-IsU32 : (seen cs : List ℕ) → AreFresh seen cs → All IsU32 cs
AreFresh-IsU32 seen [] h = tt
AreFresh-IsU32 seen (c ∷ cs) (hc, nz, new, more) = (hc, AreFresh-IsU32 (seen ++ (c ∷ [])) cs more)

-- The words of a message, in the order in which they are sent.
abbrev hello_words : CorexHello → List ℕ
hello_words h =
    protocol_magic
    ∷ protocol_version
    ∷ hello_schema_version
    ∷ h.server_major
    ∷ h.server_minor
    ∷ h.server_patch
    ∷ h.backend_id
    ∷ h.backend_version
    ∷ h.device_count
    ∷ h.device_profile_id
    ∷ length h.capabilities
    ∷ h.capabilities

encode_hello-be : (h : CorexHello) → IsValid h → encode_hello h ≡ some (be_words (hello_words h))
unfolding encode_hello
encode_hello-be h v =
    let words : All IsU32 (hello_words h) = (
      omega arith,
      (
        omega arith,
        (
          omega arith,
          (
            v.major,
            (
              v.minor,
              (
                v.patch,
                (
                  v.backend,
                  (
                    v.version,
                    (
                      v.devices,
                      (v.profile, (omega arith, AreFresh-IsU32 [] h.capabilities v.fresh)),
                    ),
                  ),
                ),
              ),
            ),
          ),
        ),
      ),
    ) in
    elim (Bool-cases (ltb 32 (length h.capabilities))) [
      | inl many ↦ absurd (ground arith)
      | inr fits ↦ rw fits (ap some (write_words-be [] (hello_words h) words))
    ]

take_word :
    (input : List ℕ) (p w : ℕ) (ws : List ℕ)
    → IsU32 w
    → drop p input ≡ be_words (w ∷ ws)
    → (take_u32 input p ≡ some (w, p + 4)) × (drop (p + 4) input ≡ be_words ws)
unfolding be_words
take_word input p w ws h e = take_u32_at input p w (be_words ws) h e

decode_hello-words :
    (h : CorexHello) (input : List ℕ)
    → IsValid h
    → input ≡ be_words (hello_words h)
    → decode_hello input ≡ some h
unfolding decode_hello
decode_hello-words h input v e =
    let t0 = take_word input 0 _ _ (omega arith) e in
    let t1 = take_word input 4 _ _ (omega arith) t0.1 in
    let t2 = take_word input 8 _ _ (omega arith) t1.1 in
    let t3 = take_word input 12 _ _ v.major t2.1 in
    let t4 = take_word input 16 _ _ v.minor t3.1 in
    let t5 = take_word input 20 _ _ v.patch t4.1 in
    let t6 = take_word input 24 _ _ v.backend t5.1 in
    let t7 = take_word input 28 _ _ v.version t6.1 in
    let t8 = take_word input 32 _ _ v.devices t7.1 in
    let t9 = take_word input 36 _ _ v.profile t8.1 in
    let t10 = take_word input 40 _ _ (omega arith) t9.1 in
    let caps =
      decode_capabilities-be h.capabilities [] input 44 [] v.fresh (t10.1 ∙ sym (append-nil _)) in
    let size : length input ≡ 44 + 4 * length h.capabilities =
      omega (arith, ap length e, length-be_words (hello_words h)) in
    ground (arith, t0.0, t1.0, t2.0, t3.0, t4.0, t5.0, t6.0, t7.0, t8.0, t9.0, t10.0, caps, size)

-- A valid message has an encoding, and that decodes to the message again.
pub decode-encode_hello : (h : CorexHello) → IsValid h → (encode_hello h >>= decode_hello) ≡ some h
decode-encode_hello h v = rw (encode_hello-be h v) (decode_hello-words h _ v refl)

module _ (input : List ℕ) (h : CorexHello) (b : All IsByte input)
    (e : decode_hello input ≡ some h) where
  decode_hello-count_ok : take_u32 input 40 ≢ none
  unfolding decode_hello
  decode_hello-count_ok none_read = ground (
    arith,
    take_u32_cases input 0 b,
    take_u32_cases input 4 b,
    take_u32_cases input 8 b,
    take_u32_cases input 12 b,
    take_u32_cases input 16 b,
    take_u32_cases input 20 b,
    take_u32_cases input 24 b,
    take_u32_cases input 28 b,
    take_u32_cases input 32 b,
    take_u32_cases input 36 b,
  )

  module _ (count : ℕ) (t : take_u32 input 40 ≡ some (count, 44)) where
    decode_hello_tail :
        (decode_capabilities count [] input 44 ≡ some (h.capabilities, length input))
        × (count ≤ 32)
        × (length input ≡ 44 + 4 * count)
    unfolding decode_hello
    decode_hello_tail = ground (
      arith,
      take_u32_cases input 0 b,
      take_u32_cases input 4 b,
      take_u32_cases input 8 b,
      take_u32_cases input 12 b,
      take_u32_cases input 16 b,
      take_u32_cases input 20 b,
      take_u32_cases input 24 b,
      take_u32_cases input 28 b,
      take_u32_cases input 32 b,
      take_u32_cases input 36 b,
      t,
    )

    decode_hello_head :
        (input
          ≡ be_words (
              protocol_magic ∷ protocol_version ∷ hello_schema_version ∷ h.server_major
              ∷ h.server_minor ∷ h.server_patch ∷ h.backend_id ∷ h.backend_version ∷ h.device_count
              ∷ h.device_profile_id ∷ [])
            ++ drop 40 input)
        × IsU32 h.server_major
        × IsU32 h.server_minor
        × IsU32 h.server_patch
        × IsU32 h.backend_id
        × IsU32 h.backend_version
        × IsU32 h.device_count
        × IsU32 h.device_profile_id
        × (h.device_count ≢ 0)
    unfolding decode_hello be_words
    decode_hello_head = ground (
      arith,
      take_u32_cases input 0 b,
      take_u32_cases input 4 b,
      take_u32_cases input 8 b,
      take_u32_cases input 12 b,
      take_u32_cases input 16 b,
      take_u32_cases input 20 b,
      take_u32_cases input 24 b,
      take_u32_cases input 28 b,
      take_u32_cases input 32 b,
      take_u32_cases input 36 b,
      t,
    )

    be32_at_40 : drop 40 input ≡ be32 count ++ drop 44 input
    be32_at_40 = ground (arith, take_u32_cases input 40 b, t)

    decode_hello-IsValid : IsValid h × (encode_hello h ≡ some input)
    decode_hello-IsValid =
        let (caps, few, size) = decode_hello_tail in
        let (front, u0, u1, u2, u3, u4, u5, u6, one) = decode_hello_head in
        let (cs, er, fresh, len, _, bytes) =
          decode_capabilities_sound count [] input 44 h.capabilities (length input) b caps in
        let same : length h.capabilities ≡ count = omega (arith, ap length er, len) in
        let valid : IsValid h = record {
          major = u0;
          minor = u1;
          patch = u2;
          backend = u3;
          version = u4;
          devices = u5;
          profile = u6;
          some_device = one;
          few = omega arith;
          fresh = rw er fresh;
        } in
        let tail : drop 44 input ≡ be_words h.capabilities =
          bytes ∙ rw (drop-length input, er) (append-nil (be_words cs)) in
        let whole : input ≡ be_words (hello_words h) =
          front ∙ rw (be32_at_40, tail, ← same) (unfold be_words in refl) in
        (valid, encode_hello-be h valid ∙ ap some (sym whole))

-- If bytes decode to a message, the message is valid, so that it names a device and its capabilities
-- are distinct, nonzero and at most 32, and the bytes are its encoding, with none left over.
pub decode_hello_sound :
    (input : List ℕ) (h : CorexHello)
    → All IsByte input
    → decode_hello input ≡ some h
    → IsValid h × (encode_hello h ≡ some input)
decode_hello_sound input h b e = elim (take_u32_cases input 40 b) [
  | inl none_read ↦ absurd (decode_hello-count_ok input h b e none_read)
  | inr (count, t, _, _, _) ↦ decode_hello-IsValid input h b e count t
]
