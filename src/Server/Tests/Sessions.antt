-- ===== src/Server/Tests/Sessions.antt =====
-- Runs of `serve_session` of server/runtime_server.c.
use x_remote_runtime.Prelude.{◌≢◌, arith, List, [], ◌∷◌, ◌++◌, length, suc, ℕ, true, false}
use x_remote_runtime.Protocol.Header.{encode_request_header}
use x_remote_runtime.Protocol.Words.{write_u32, write_u64}
use x_remote_runtime.Server.Session.{server_session_init}
use x_remote_runtime.Server.Handlers.Sessions.{IsValid}
use x_remote_runtime.Server.Dispatch.{BackendInfo, Serving, out_of_fuel, serve_session}
use x_remote_runtime.Server.Dispatch.Invariant.{CanServe, serve_session-IsValid}
use x_remote_runtime.Server.Dispatch.Termination.{serve_session-ends}
use x_remote_runtime.Server.Tests.{driver, start, start-IsValid, word}

abbrev pub backend : BackendInfo
backend = record { backend_version = 4; memory_pools_supported = true }

abbrev pub serving : Serving
serving = record { world = start; capture_graph = 0; capture_allow_alloc = false }

-- An allocation of 256 bytes, and a part of a header.
abbrev requests : List ℕ
requests =
    encode_request_header (record { opcode = 1; request_id = 5; payload_length = 8 })
    ++ word 256
    ++ 67 ∷ 82 ∷ []

start-CanServe : CanServe (length requests) serving.world.session
unfolding server_session_init encode_request_header write_u32 write_u64
start-CanServe = record {
  valid = start-IsValid;
  alloc = omega arith;
  stream = omega arith;
  event = omega arith;
  transfer = omega arith;
}

serve_session-IsValid_example :
    IsValid (serve_session 9 driver backend requests serving).state.world.session
serve_session-IsValid_example =
    serve_session-IsValid driver backend 9 requests serving start-CanServe

serve_session-ends_example :
    (serve_session (suc (length requests)) driver backend requests serving).ending ≢ out_of_fuel
serve_session-ends_example =
    serve_session-ends driver backend (suc (length requests)) requests serving (omega arith)
