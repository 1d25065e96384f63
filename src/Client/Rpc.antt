-- ===== src/Client/Rpc.antt =====
-- `rpc` of src/corex_remote_cuda.c: one request to the server and its response, while the client
-- captures no graph. The socket is the bytes that the server will have sent. That sending, or the
-- allocation of the response, fails is not modelled.
pub mod Server
use x_remote_runtime.Prelude.{
  ℕ, suc, ◌%◌, ◌^◌, ◌+◌, Option, none, some, List, [], ◌++◌, Bool, true, false, not, ◌==◌, ◌&&◌,
  ◌||◌, ltb, if◌then◌else◌, length, ◌≢◌, arith,
}
use x_remote_runtime.Protocol.Header.{
  RequestHeader, ResponseHeader, encode_request_header, decode_response_header,
  response_header_bytes,
}
use x_remote_runtime.Protocol.Hello.{hello_max_bytes}
use x_remote_runtime.Protocol.Socket.{recv_all}
use x_remote_runtime.Server.Registry.{op_hello}
use x_remote_runtime.Launch.{
  CudaError, cuda_success, error_invalid_value, error_memory_allocation, error_invalid_device,
  error_invalid_resource_handle, error_symbol_not_found, error_not_supported,
  error_stream_capture_unsupported, error_unknown,
}

-- What is sent for a request.
unfoldable pub rpc_request : ℕ → ℕ → List ℕ → List ℕ
rpc_request opcode req_id payload =
    encode_request_header
      (record { opcode = opcode; request_id = req_id; payload_length = length payload })
    ++ payload

-- A failure of the transport, after which the session is dead; an error that the server reports; or a
-- response.
pub data RpcReply : Type 0 where
  transport_error : RpcReply
  remote_error : ℕ → RpcReply
  replied : List ℕ → RpcReply

-- The payload of a response, after its header.
unfoldable pub rpc_payload : ResponseHeader → List ℕ → RpcReply × List ℕ
rpc_payload h input = elim (recv_all h.payload_length input) [
  | none ↦ (transport_error, input)
  | some (response, rest) ↦
      (if not (h.status == 0) then remote_error h.status else replied response, rest)
]

-- What is received for it, and what is left on the socket.
unfoldable pub rpc_receive : ℕ → ℕ → List ℕ → RpcReply × List ℕ
rpc_receive opcode req_id input = elim (recv_all response_header_bytes input) [
  | none ↦ (transport_error, input)
  | some (header, rest) ↦ elim (decode_response_header header) [
    | none ↦ (transport_error, rest)
    | some h ↦
        if not (h.opcode == opcode) || not (h.request_id == req_id)
        then (transport_error, rest)
        else if opcode == op_hello
            && (ltb hello_max_bytes h.payload_length
                || not (h.status == 0) && not (h.payload_length == 0))
        then (transport_error, rest)
        else rpc_payload h rest
  ]
]

-- `fallback` stands for the error that the caller chooses.
unfoldable pub map_last_rpc_error : RpcReply → CudaError → CudaError
map_last_rpc_error transport_error fallback = error_unknown
map_last_rpc_error (replied response) fallback = fallback
map_last_rpc_error (remote_error status) fallback =
    if status == 1 || status == 6 || status == 7
    then error_invalid_value
    else if status == 2
    then error_invalid_resource_handle
    else if status == 8
    then error_invalid_device
    else if status == 9
    then error_symbol_not_found
    else if status == 10
    then error_not_supported
    else if status == 11
    then error_stream_capture_unsupported
    else if status == 5
    then error_memory_allocation
    else fallback

-- An error is never reported as a success.
pub map_last_rpc_error-ne-success :
    (r : RpcReply) → map_last_rpc_error r error_unknown ≢ cuda_success
unfolding map_last_rpc_error
map_last_rpc_error-ne-success r h = ground arith
