-- ===== src/Server/Dispatch.antt =====
-- `serve_session` of server/runtime_server.c: the loop that receives requests, dispatches each one to
-- its handler and sends the responses. The peer is the bytes that it sends until it disconnects. That
-- sending, or the allocation of a payload, fails is not modelled.
pub mod Turns
pub mod Invariant
pub mod Termination
use x_remote_runtime.Prelude.{
  ℕ, zero, suc, ◌+◌, Option, none, some, List, [], ◌∷◌, ◌++◌, Bool, true, false, not, ◌==◌, ◌&&◌,
  ltb, if◌then◌else◌, length, take,
}
use x_remote_runtime.Protocol.Header.{
  RequestHeader, ResponseHeader, decode_request_header, encode_response_header,
  request_header_bytes,
}
use x_remote_runtime.Protocol.Hello.{CorexHello, encode_hello}
use x_remote_runtime.Protocol.Socket.{recv_all}
use x_remote_runtime.Server.Backend.{Driver, capture_exchange, succeeds}
use x_remote_runtime.Server.Session.{
  World, Response, ok, bad_request, internal, cuda_error, capture_unsupported, status_code, reply,
  reply_with, ask, called, max_payload,
}
use x_remote_runtime.Server.Handlers.{handler}
use x_remote_runtime.Server.Registry.{
  Entry, serves, legacy_launch, close, hello, not_modelled, g_handlers, generated_schema_error,
  capture_safe_opcode, op_alloc, op_close,
}

-- `g_backend_version` and `g_memory_pools_supported`.
pub record BackendInfo : Type 0 where
  pub backend_version : ℕ
  pub memory_pools_supported : Bool

-- What the loop keeps beside the tables: `capture_graph` and `capture_allow_alloc`.
pub record Serving : Type 0 where
  pub world : World
  pub capture_graph : ℕ
  pub capture_allow_alloc : Bool

-- The capabilities in the order of `handle_hello`; the last one is left out without memory pools.
unfoldable pub server_hello : BackendInfo → CorexHello
server_hello b = record {
  server_major = 1;
  server_minor = 1;
  server_patch = 0;
  backend_id = 1;
  backend_version = b.backend_version;
  device_count = 1;
  device_profile_id = 1;
  capabilities =
      take (if b.memory_pools_supported then 10 else 9)
        (1 ∷ 2 ∷ 3 ∷ 4 ∷ 5 ∷ 6 ∷ 7 ∷ 9 ∷ 10 ∷ 8 ∷ []);
}

unfoldable pub handle_hello : BackendInfo → World → List ℕ → World × Response
handle_hello b w payload =
    if not (length payload == 0)
    then reply w bad_request
    else elim (encode_hello (server_hello b)) [
      | none ↦ reply w internal
      | some bytes ↦ reply_with w bytes
    ]

unfoldable pub handle_close : World → List ℕ → World × Response
handle_close w payload = reply w (if length payload == 0 then ok else bad_request)

-- What a request comes to: a response, or a handler that is not modelled.
pub data Turn : Type 0 where
  beyond_model : Turn
  answered : Serving → Response → Turn

abbrev in_world : Serving → World × Response → Turn
in_world s r = answered (record s { world = r.0 }) r.1

unfoldable pub serve_entry : Driver → BackendInfo → Entry → List ℕ → Serving → Turn
serve_entry d b not_modelled payload s = beyond_model
serve_entry d b legacy_launch payload s = in_world s (reply s.world bad_request)
serve_entry d b close payload s = in_world s (handle_close s.world payload)
serve_entry d b hello payload s = in_world s (handle_hello b s.world payload)
serve_entry d b (serves op) payload s = in_world s (handler d op s.world payload)

-- The handler of the opcode, if the payload is one that the schema allows.
unfoldable pub run_entry : Driver → BackendInfo → ℕ → List ℕ → Serving → Turn
run_entry d b opcode payload s =
    if generated_schema_error opcode (length payload)
    then in_world s (reply s.world bad_request)
    else elim (g_handlers opcode) [
      | none ↦ in_world s (reply s.world bad_request)
      | some e ↦ serve_entry d b e payload s
    ]

abbrev call_in : Serving → Serving
call_in s = record s { world = called capture_exchange s.world }

-- The second exchange of the capture mode, after the handler of an allocation.
unfoldable pub exchange_back : Turn → Turn
exchange_back beyond_model = beyond_model
exchange_back (answered s r) = answered (call_in s) r

unfoldable pub dispatch : Driver → BackendInfo → ℕ → List ℕ → Serving → Turn
dispatch d b opcode payload s =
    let capturing = not (s.capture_graph == 0) in
    let allow_alloc = capturing && s.capture_allow_alloc && opcode == op_alloc in
    let s' = record s { capture_allow_alloc = false } in
    if capturing && not (capture_safe_opcode opcode) && not allow_alloc
    then in_world s' (reply s.world capture_unsupported)
    else if allow_alloc
    then (if succeeds (ask d capture_exchange s.world).result
        then exchange_back (run_entry d b opcode payload (call_in s'))
        else in_world (call_in s') (reply (called capture_exchange s.world) cuda_error))
    else run_entry d b opcode payload s'

-- The bytes of `send_response`.
unfoldable pub send_response : ℕ → ℕ → Response → List ℕ
send_response opcode req_id r =
    encode_response_header (record {
      opcode = opcode;
      request_id = req_id;
      status = status_code r.status;
      payload_length = length r.payload;
    })
    ++ r.payload

-- How a session ends: the peer disconnects, sends what is no request, disconnects in a payload, or has
-- asked to close. The model also stops at a handler that it lacks, and without fuel.
pub data Ending : Type 0 where
  disconnected protocol_error payload_lost closed at_outside out_of_fuel : Ending

-- The state at the end, and all bytes sent.
pub record Served : Type 0 where
  pub state : Serving
  pub sent : List ℕ
  pub ending : Ending

abbrev pub stop : Serving → Ending → Served
stop s e = record { state = s; sent = []; ending = e }

abbrev pub after : List ℕ → Served → Served
after bytes r = record r { sent = bytes ++ r.sent }

-- One request from the received header: `next` goes on with the loop.
unfoldable pub serve_request :
    Driver → BackendInfo → (List ℕ → Serving → Served) → RequestHeader → List ℕ → Serving → Served
serve_request d b next h input s =
    if ltb max_payload h.payload_length
    then stop s protocol_error
    else elim (recv_all h.payload_length input) [
      | none ↦ stop s payload_lost
      | some (payload, rest) ↦ elim (dispatch d b h.opcode payload s) [
        | beyond_model ↦ stop s at_outside
        | answered s' r ↦
            after (send_response h.opcode h.request_id r) (
              if h.opcode == op_close && h.payload_length == 0
              then stop s' closed
              else next rest s')
      ]
    ]

unfoldable pub serve_session : ℕ → Driver → BackendInfo → List ℕ → Serving → Served
serve_session zero d b input s = stop s out_of_fuel
serve_session (suc fuel) d b input s = elim (recv_all request_header_bytes input) [
  | none ↦ stop s disconnected
  | some (header, rest) ↦ elim (decode_request_header header) [
    | none ↦ stop s protocol_error
    | some h ↦ serve_request d b (serve_session fuel d b) h rest s
  ]
]
