-- ===== src/Client/Rpc/Server.antt =====
-- A remote call of src/corex_remote_cuda.c against the loop of server/runtime_server.c.
use x_remote_runtime.Prelude.{
  ℕ, suc, ◌≤◌, ◌<◌, ◌≡◌, ◌≢◌, refl, ap, ◌∙◌, arith, some, List, ◌++◌, true, false, ◌==◌, ltb,
  length, if◌then◌else◌,
}
use mathlib.Core.List.{append_assoc}
use x_remote_runtime.Protocol.Words.{IsU32, write_u32}
use x_remote_runtime.Protocol.Header.{
  RequestHeader, ResponseHeader, encode_request_header, encode_response_header,
  request_header_bytes, response_header_bytes,
}
use x_remote_runtime.Protocol.RoundTrip.{decode-encode_request, decode-encode_response}
use x_remote_runtime.Protocol.Socket.{recv_all, recv_all-append}
use x_remote_runtime.Server.Backend.{Driver}
use x_remote_runtime.Server.Session.{Response, ProtocolStatus, status_code, max_payload}
use x_remote_runtime.Server.Registry.{op_hello, op_close}
use x_remote_runtime.Server.Dispatch.{
  BackendInfo, Serving, answered, dispatch, send_response, after, serve_request, serve_session,
}
use x_remote_runtime.Client.Rpc.{
  RpcReply, remote_error, replied, rpc_request, rpc_payload, rpc_receive,
}

length-request : (h : RequestHeader) → length (encode_request_header h) ≡ request_header_bytes
unfolding encode_request_header write_u32
length-request h = refl

length-response : (h : ResponseHeader) → length (encode_response_header h) ≡ response_header_bytes
unfolding encode_response_header write_u32
length-response h = refl

recv_request :
    (h : RequestHeader) (more : List ℕ)
    → recv_all request_header_bytes (encode_request_header h ++ more)
      ≡ some (encode_request_header h, more)
recv_request h more = rw (← length-request h) (recv_all-append (encode_request_header h) more)

recv_response :
    (h : ResponseHeader) (more : List ℕ)
    → recv_all response_header_bytes (encode_response_header h ++ more)
      ≡ some (encode_response_header h, more)
recv_response h more = rw (← length-response h) (recv_all-append (encode_response_header h) more)

status_code-small : (s : ProtocolStatus) → status_code s < 12
status_code-small s = ground arith

-- What the caller should see of a response.
abbrev pub reply_of : Response → RpcReply
reply_of r =
    if status_code r.status == 0 then replied r.payload else remote_error (status_code r.status)

module _ (opcode req_id : ℕ) (o : IsU32 opcode) (i : IsU32 req_id) where
  -- The client reads the response that the server has sent.
  rpc_receive-send_response :
      (r : Response) (more : List ℕ)
      → opcode ≢ op_hello
      → IsU32 (length r.payload)
      → rpc_receive opcode req_id (send_response opcode req_id r ++ more) ≡ (reply_of r, more)
  unfolding rpc_receive rpc_payload send_response
  rpc_receive-send_response r more plain small =
      let h : ResponseHeader = record {
        opcode = opcode;
        request_id = req_id;
        status = status_code r.status;
        payload_length = length r.payload;
      } in
      let status : IsU32 (status_code r.status) = omega (arith, status_code-small r.status) in
      let same_opcode : (opcode == opcode) ≡ true = ground arith in
      let same_id : (req_id == req_id) ≡ true = ground arith in
      let no_hello : (opcode == op_hello) ≡ false = ground arith in
      rw
        (
          append_assoc (encode_response_header h) r.payload more,
          recv_response h (r.payload ++ more),
          decode-encode_response h o i status small,
          same_opcode,
          same_id,
          no_hello,
          recv_all-append r.payload more,
          rpc_receive,
          rpc_payload,
        )
        (ground arith)

  -- The server takes the request that the client has sent.
  serve_session-rpc_request :
      (d : Driver) (b : BackendInfo) (fuel : ℕ) (payload more : List ℕ) (s s' : Serving)
      (r : Response)
      → opcode ≢ op_close
      → length payload ≤ max_payload
      → dispatch d b opcode payload s ≡ answered s' r
      → serve_session (suc fuel) d b (rpc_request opcode req_id payload ++ more) s
        ≡ after (send_response opcode req_id r) (serve_session fuel d b more s')
  unfolding serve_session rpc_request serve_request
  serve_session-rpc_request d b fuel payload more s s' r on small e =
      let h : RequestHeader = record {
        opcode = opcode;
        request_id = req_id;
        payload_length = length payload;
      } in
      let fits : ltb max_payload (length payload) ≡ false = ground arith in
      let stays : (opcode == op_close) ≡ false = ground arith in
      rw
        (
          append_assoc (encode_request_header h) payload more,
          recv_request h (payload ++ more),
          decode-encode_request h o i (omega arith),
          fits,
          recv_all-append payload more,
          e,
          stays,
          serve_session,
          serve_request,
        )
        refl

-- A remote call is a call of the server's dispatch. The client sends an opcode other than HELLO and
-- CLOSE, with a payload that the server takes, and perhaps further bytes; the dispatch answers it with
-- a response whose length is a uint32_t. Then the client reads that response from what the server sends,
-- as a result if its status is `ST_OK` and as an error with that status if not; the session goes on as
-- the dispatch has left it, and what else is sent answers the further bytes.
pub rpc-serve_session :
    (d : Driver) (b : BackendInfo) (fuel opcode req_id : ℕ) (payload more : List ℕ) (s s' : Serving)
    (r : Response)
    → IsU32 opcode
    → IsU32 req_id
    → opcode ≢ op_hello
    → opcode ≢ op_close
    → length payload ≤ max_payload
    → IsU32 (length r.payload)
    → dispatch d b opcode payload s ≡ answered s' r
    → (rpc_receive opcode req_id
          (serve_session (suc fuel) d b (rpc_request opcode req_id payload ++ more) s).sent
        ≡ (reply_of r, (serve_session fuel d b more s').sent))
      × ((serve_session (suc fuel) d b (rpc_request opcode req_id payload ++ more) s).state
          ≡ (serve_session fuel d b more s').state)
rpc-serve_session d b fuel opcode req_id payload more s s' r o i plain on fits small e =
    let step = serve_session-rpc_request opcode req_id o i d b fuel payload more s s' r on fits e in
    (
      ap (λ served. rpc_receive opcode req_id served.sent) step
          ∙ rpc_receive-send_response opcode req_id o i r (serve_session fuel d b more s').sent
              plain small,
      ap (λ served. served.state) step,
    )
