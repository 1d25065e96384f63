-- ===== src/Client/Calls/Direct.antt =====
-- The remote calls of src/corex_remote_cuda.c, answered by the dispatch of server/runtime_server.c.
-- `rpc-serve_session` says why the sockets between them may be left out.
pub mod Memory
use x_remote_runtime.Prelude.{
  ℕ, ◌≤◌, ◌≡◌, refl, arith, List, false, ◌==◌, ap, ◌∙◌, true, ltb, length, if◌then◌else◌,
}
use x_remote_runtime.Server.Backend.{Driver}
use x_remote_runtime.Server.Session.{World, Response, max_payload}
use x_remote_runtime.Server.Handlers.{Opcode, handler}
use x_remote_runtime.Server.Registry.{
  registry, lookup, g_handlers, generated_apis, generated_schema_error, serves,
}
use x_remote_runtime.Server.Dispatch.{
  BackendInfo, Serving, Turn, beyond_model, answered, serve_entry, run_entry, dispatch,
}
use x_remote_runtime.Client.Rpc.{RpcReply, transport_error}
use x_remote_runtime.Client.Rpc.Server.{reply_of}
use x_remote_runtime.Client.Calls.{Wire}

-- A handler that is not modelled is a failure here.
abbrev pub turn_reply : Serving → Turn → Serving × RpcReply
turn_reply s beyond_model = (s, transport_error)
turn_reply s (answered s' r) = (s', reply_of r)

-- A payload over the limit ends the connection.
unfoldable pub direct : Driver → BackendInfo → Wire Serving
direct d b opcode payload s =
    if ltb max_payload (length payload)
    then (s, transport_error)
    else turn_reply s (dispatch d b opcode payload s)

-- What a handler has done, outside a capture.
abbrev pub handled : Serving → World × Response → Serving × RpcReply
handled s r = (record s { world = r.0; capture_allow_alloc = false }, reply_of r.1)

module _ (d : Driver) (b : BackendInfo) (payload : List ℕ) (s : Serving) where
  accepted : length payload ≤ max_payload → ltb max_payload (length payload) ≡ false
  accepted h = ground arith

  dispatch-run_entry :
      (opcode : ℕ)
      → s.capture_graph ≡ 0
      → dispatch d b opcode payload s
        ≡ run_entry d b opcode payload (record s { capture_allow_alloc = false })
  unfolding dispatch
  dispatch-run_entry opcode h = rw h refl

  pub direct-alloc :
      s.capture_graph ≡ 0
      → length payload ≤ max_payload
      → direct d b 1 payload s ≡ handled s (handler d Opcode.alloc s.world payload)
  unfolding direct run_entry serve_entry g_handlers generated_schema_error registry lookup
      generated_apis
  direct-alloc h fits = rw (accepted fits, direct) (ap (turn_reply s) (dispatch-run_entry 1 h))

  pub direct-h2d :
      s.capture_graph ≡ 0
      → length payload ≤ max_payload
      → direct d b 2 payload s ≡ handled s (handler d Opcode.h2d s.world payload)
  unfolding direct run_entry serve_entry g_handlers generated_schema_error registry lookup
      generated_apis
  direct-h2d h fits = rw (accepted fits, direct) (ap (turn_reply s) (dispatch-run_entry 2 h))

  pub direct-memset :
      s.capture_graph ≡ 0
      → length payload ≤ max_payload
      → direct d b 29 payload s ≡ handled s (handler d Opcode.memset s.world payload)
  unfolding direct run_entry serve_entry g_handlers generated_schema_error registry lookup
      generated_apis
  direct-memset h fits = rw (accepted fits, direct) (ap (turn_reply s) (dispatch-run_entry 29 h))

  pub direct-launch :
      s.capture_graph ≡ 0
      → length payload ≤ max_payload
      → direct d b 11 payload s ≡ handled s (handler d Opcode.launch s.world payload)
  unfolding direct run_entry serve_entry g_handlers generated_schema_error registry lookup
      generated_apis
  direct-launch h fits = rw (accepted fits, direct) (ap (turn_reply s) (dispatch-run_entry 11 h))
