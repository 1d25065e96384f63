-- ===== src/Protocol/RoundTrip.antt =====
-- Encoding and decoding the headers of include/internal/corex_protocol.h.
use x_remote_runtime.Prelude.{ℕ, ◌≡◌, arith, some, List, ◌++◌, drop, All}
use x_remote_runtime.Protocol.Take.{take_u32_cases}
use x_remote_runtime.Protocol.Words.{IsByte, IsU32, take_u32, read_u32}
use x_remote_runtime.Protocol.Header.{
  RequestHeader, ResponseHeader, encode_request_header, decode_request_header,
  encode_response_header, decode_response_header,
}

-- A request header whose three fields are 32-bit words decodes from its encoding.
pub decode-encode_request :
    (h : RequestHeader)
    → IsU32 h.opcode
    → IsU32 h.request_id
    → IsU32 h.payload_length
    → decode_request_header (encode_request_header h) ≡ some h
unfolding encode_request_header decode_request_header take_u32 read_u32
decode-encode_request h a b c = ground arith

-- A response header whose four fields are 32-bit words decodes from its encoding.
pub decode-encode_response :
    (h : ResponseHeader)
    → IsU32 h.opcode
    → IsU32 h.request_id
    → IsU32 h.status
    → IsU32 h.payload_length
    → decode_response_header (encode_response_header h) ≡ some h
unfolding encode_response_header decode_response_header take_u32 read_u32
decode-encode_response h a b c d = ground arith

-- If bytes decode to a request header, their first 20 are its encoding, and its fields are 32-bit words:
-- a header has one encoding only.
decode_request-encode :
    (input : List ℕ) (h : RequestHeader)
    → All IsByte input
    → decode_request_header input ≡ some h
    → (input ≡ encode_request_header h ++ drop 20 input)
      × IsU32 h.opcode
      × IsU32 h.request_id
      × IsU32 h.payload_length
unfolding decode_request_header encode_request_header
decode_request-encode input h b e = ground (
  arith,
  take_u32_cases input 0 b,
  take_u32_cases input 4 b,
  take_u32_cases input 8 b,
  take_u32_cases input 12 b,
  take_u32_cases input 16 b,
)

-- If bytes decode to a response header, their first 24 are its encoding, and its fields are 32-bit
-- words.
decode_response-encode :
    (input : List ℕ) (h : ResponseHeader)
    → All IsByte input
    → decode_response_header input ≡ some h
    → (input ≡ encode_response_header h ++ drop 24 input)
      × IsU32 h.opcode
      × IsU32 h.request_id
      × IsU32 h.status
      × IsU32 h.payload_length
unfolding decode_response_header encode_response_header
decode_response-encode input h b e = ground (
  arith,
  take_u32_cases input 0 b,
  take_u32_cases input 4 b,
  take_u32_cases input 8 b,
  take_u32_cases input 12 b,
  take_u32_cases input 16 b,
  take_u32_cases input 20 b,
)
