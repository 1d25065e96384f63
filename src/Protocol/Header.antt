-- ===== src/Protocol/Header.antt =====
-- The request and response headers of include/internal/corex_protocol.h.
use x_remote_runtime.Prelude.{ℕ, Option, some, List, [], ◌&&◌, ◌==◌, guard, ◌>>=◌, ◌>>◌}
use x_remote_runtime.Protocol.Words.{write_u32, take_u32}

abbrev pub protocol_magic : ℕ
protocol_magic = 0x43525839

abbrev pub protocol_version : ℕ
protocol_version = 3

abbrev pub request_header_bytes : ℕ
request_header_bytes = 20

abbrev pub response_header_bytes : ℕ
response_header_bytes = 24

pub record RequestHeader : Type 0 where
  pub opcode : ℕ
  pub request_id : ℕ
  pub payload_length : ℕ

pub record ResponseHeader : Type 0 where
  pub opcode : ℕ
  pub request_id : ℕ
  pub status : ℕ
  pub payload_length : ℕ

unfoldable pub encode_request_header : RequestHeader → List ℕ
unfolding write_u32
encode_request_header h =
    let o1 = write_u32 [] protocol_magic in
    let o2 = write_u32 o1 protocol_version in
    let o3 = write_u32 o2 h.opcode in
    let o4 = write_u32 o3 h.request_id in write_u32 o4 h.payload_length

-- `none` is the result -1.
unfoldable pub decode_request_header : List ℕ → Option RequestHeader
decode_request_header input = do
  (magic, p1) ← take_u32 input 0
  (version, p2) ← take_u32 input p1
  (opcode, p3) ← take_u32 input p2
  (request_id, p4) ← take_u32 input p3
  (payload_length, p5) ← take_u32 input p4
  guard (magic == protocol_magic && version == protocol_version)
  some (record { opcode = opcode; request_id = request_id; payload_length = payload_length })

unfoldable pub encode_response_header : ResponseHeader → List ℕ
unfolding write_u32
encode_response_header h =
    let o1 = write_u32 [] protocol_magic in
    let o2 = write_u32 o1 protocol_version in
    let o3 = write_u32 o2 h.opcode in
    let o4 = write_u32 o3 h.request_id in
    let o5 = write_u32 o4 h.status in write_u32 o5 h.payload_length

unfoldable pub decode_response_header : List ℕ → Option ResponseHeader
decode_response_header input = do
  (magic, p1) ← take_u32 input 0
  (version, p2) ← take_u32 input p1
  (opcode, p3) ← take_u32 input p2
  (request_id, p4) ← take_u32 input p3
  (status, p5) ← take_u32 input p4
  (payload_length, p6) ← take_u32 input p5
  guard (magic == protocol_magic && version == protocol_version)
  some (record {
    opcode = opcode;
    request_id = request_id;
    status = status;
    payload_length = payload_length;
  })
