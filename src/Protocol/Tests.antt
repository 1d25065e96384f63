-- ===== src/Protocol/Tests.antt =====
-- Runs of the codecs of include/internal/corex_protocol.h.
use x_remote_runtime.Prelude.{ℕ, ◌≡◌, refl, arith, some, List, [], ◌∷◌, ◌>>=◌, All}
use x_remote_runtime.Protocol.Words.{IsByte, read_u32, take_u32}
use x_remote_runtime.Protocol.Header.{
  RequestHeader, ResponseHeader, encode_request_header, decode_request_header,
  encode_response_header, decode_response_header,
}
use x_remote_runtime.Protocol.Hello.{CorexHello, encode_hello, decode_hello}
use x_remote_runtime.Protocol.RoundTrip.{decode-encode_request, decode-encode_response}
use x_remote_runtime.Protocol.HelloRoundTrip.{IsValid, decode-encode_hello, decode_hello_sound}

abbrev request : RequestHeader
request = record { opcode = 2; request_id = 7; payload_length = 8 }

decode-encode_request_example : decode_request_header (encode_request_header request) ≡ some request
decode-encode_request_example =
    decode-encode_request request (omega arith) (omega arith) (omega arith)

abbrev response : ResponseHeader
response = record { opcode = 2; request_id = 7; status = 3; payload_length = 0 }

decode-encode_response_example :
    decode_response_header (encode_response_header response) ≡ some response
decode-encode_response_example =
    decode-encode_response response (omega arith) (omega arith) (omega arith) (omega arith)

abbrev hello : CorexHello
hello = record {
  server_major = 1;
  server_minor = 0;
  server_patch = 2;
  backend_id = 1;
  backend_version = 10020;
  device_count = 1;
  device_profile_id = 1;
  capabilities = 1 ∷ 3 ∷ [];
}

hello-IsValid : IsValid hello
hello-IsValid = record {
  major = omega arith;
  minor = omega arith;
  patch = omega arith;
  backend = omega arith;
  version = omega arith;
  devices = omega arith;
  profile = omega arith;
  some_device = omega arith;
  few = omega arith;
  fresh = ground arith;
}

decode-encode_hello_example : (encode_hello hello >>= decode_hello) ≡ some hello
decode-encode_hello_example = decode-encode_hello hello hello-IsValid

abbrev hello_bytes : List ℕ
hello_bytes =
    67 ∷ 82 ∷ 88 ∷ 57 ∷ 0 ∷ 0 ∷ 0 ∷ 3 ∷ 0 ∷ 0 ∷ 0 ∷ 1 ∷ 0 ∷ 0 ∷ 0 ∷ 1 ∷ 0 ∷ 0 ∷ 0 ∷ 0 ∷ 0 ∷ 0 ∷ 0
    ∷ 2 ∷ 0 ∷ 0 ∷ 0 ∷ 1 ∷ 0 ∷ 0 ∷ 39 ∷ 36 ∷ 0 ∷ 0 ∷ 0 ∷ 1 ∷ 0 ∷ 0 ∷ 0 ∷ 1 ∷ 0 ∷ 0 ∷ 0 ∷ 2 ∷ 0 ∷ 0
    ∷ 0 ∷ 1 ∷ 0 ∷ 0 ∷ 0 ∷ 3 ∷ []

hello_bytes-IsByte : All IsByte hello_bytes
hello_bytes-IsByte = ground arith

decode_hello_sound_example : IsValid hello × (encode_hello hello ≡ some hello_bytes)
unfolding decode_hello take_u32 read_u32
decode_hello_sound_example = decode_hello_sound hello_bytes hello hello_bytes-IsByte refl
