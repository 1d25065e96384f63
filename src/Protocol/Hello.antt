-- ===== src/Protocol/Hello.antt =====
-- The HELLO message of include/internal/corex_protocol.h.
-- Of `capabilities[32]` the model keeps the first `capability_count` entries, so that the count is
-- the length of the list.
use x_remote_runtime.Prelude.{
  ℕ, zero, suc, ◌+◌, ◌*◌, Option, none, some, List, [], ◌∷◌, ◌++◌, Bool, false, not, ◌&&◌, ◌||◌,
  ◌==◌, ltb, leb, guard, ◌>>=◌, ◌>>◌, if◌then◌else◌, length,
}
use x_remote_runtime.Protocol.Words.{write_u32, take_u32}
use x_remote_runtime.Protocol.Header.{protocol_magic, protocol_version}

abbrev pub hello_schema_version : ℕ
hello_schema_version = 1

abbrev pub hello_fixed_words : ℕ
hello_fixed_words = 11

abbrev pub hello_max_capabilities : ℕ
hello_max_capabilities = 32

abbrev pub hello_max_bytes : ℕ
hello_max_bytes = (hello_fixed_words + hello_max_capabilities) * 4

pub record CorexHello : Type 0 where
  pub server_major : ℕ
  pub server_minor : ℕ
  pub server_patch : ℕ
  pub backend_id : ℕ
  pub backend_version : ℕ
  pub device_count : ℕ
  pub device_profile_id : ℕ
  pub capabilities : List ℕ

unfoldable pub write_words : List ℕ → List ℕ → List ℕ
write_words out [] = out
write_words out (w ∷ ws) = write_words (write_u32 out w) ws

unfoldable pub encode_hello : CorexHello → Option (List ℕ)
unfolding write_words
encode_hello hello =
    if ltb hello_max_capabilities (length hello.capabilities)
    then none
    else some (
        write_words [] (
          protocol_magic
          ∷ protocol_version
          ∷ hello_schema_version
          ∷ hello.server_major
          ∷ hello.server_minor
          ∷ hello.server_patch
          ∷ hello.backend_id
          ∷ hello.backend_version
          ∷ hello.device_count
          ∷ hello.device_profile_id
          ∷ length hello.capabilities
          ∷ hello.capabilities))

unfoldable pub contains : List ℕ → ℕ → Bool
contains [] a = false
contains (x ∷ xs) a = x == a || contains xs a

-- The loop over the capabilities, with those decoded so far and the rounds left.
unfoldable pub decode_capabilities : ℕ → List ℕ → List ℕ → ℕ → Option (List ℕ × ℕ)
unfolding contains
decode_capabilities zero seen input position = some (seen, position)
decode_capabilities (suc left) seen input position = do
  (capability, next) ← take_u32 input position
  guard (not (capability == 0))
  guard (not (contains seen capability))
  decode_capabilities left (seen ++ (capability ∷ [])) input next

unfoldable pub decode_hello : List ℕ → Option CorexHello
unfolding decode_capabilities
decode_hello input = do
  guard (leb (hello_fixed_words * 4) (length input) && leb (length input) hello_max_bytes)
  (magic, p1) ← take_u32 input 0
  (version, p2) ← take_u32 input p1
  (schema, p3) ← take_u32 input p2
  guard (magic == protocol_magic && version == protocol_version && schema == hello_schema_version)
  (server_major, p4) ← take_u32 input p3
  (server_minor, p5) ← take_u32 input p4
  (server_patch, p6) ← take_u32 input p5
  (backend_id, p7) ← take_u32 input p6
  (backend_version, p8) ← take_u32 input p7
  (device_count, p9) ← take_u32 input p8
  (device_profile_id, p10) ← take_u32 input p9
  (capability_count, p11) ← take_u32 input p10
  guard (not (device_count == 0))
  guard (leb capability_count hello_max_capabilities)
  guard (length input == (hello_fixed_words + capability_count) * 4)
  (capabilities, position) ← decode_capabilities capability_count [] input p11
  guard (position == length input)
  some (record {
    server_major = server_major;
    server_minor = server_minor;
    server_patch = server_patch;
    backend_id = backend_id;
    backend_version = backend_version;
    device_count = device_count;
    device_profile_id = device_profile_id;
    capabilities = capabilities;
  })
