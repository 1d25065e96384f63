-- ===== src/Server/Dispatch/Termination.antt =====
-- The loop of `serve_session` of server/runtime_server.c ends.
use x_remote_runtime.Prelude.{
  ℕ, zero, suc, ◌<◌, ◌≤◌, ◌≢◌, inl, inr, arith, List, length, Option-cases, Bool-cases, ltb, ◌&&◌,
  ◌==◌,
}
use x_remote_runtime.Protocol.Header.{RequestHeader, decode_request_header, request_header_bytes}
use x_remote_runtime.Protocol.Socket.{recv_all}
use x_remote_runtime.Server.Backend.{Driver}
use x_remote_runtime.Server.Session.{max_payload}
use x_remote_runtime.Server.Registry.{op_close}
use x_remote_runtime.Server.Dispatch.{
  BackendInfo, Serving, dispatch, Served, out_of_fuel, serve_request, serve_session,
}
use x_remote_runtime.Server.Dispatch.Turns.{Turn-cases, recv_all-shorter}

module _ (d : Driver) (b : BackendInfo) where
  serve_request-ends :
      (next : List ℕ → Serving → Served) (h : RequestHeader) (input : List ℕ) (s : Serving)
      → ((rest : List ℕ) (s' : Serving)
          → length rest ≤ length input
          → (next rest s').ending ≢ out_of_fuel)
      → (serve_request d b next h input s).ending ≢ out_of_fuel
  unfolding serve_request
  serve_request-ends next h input s k = elim (Bool-cases (ltb max_payload h.payload_length)) [
    | inl large ↦ rw large (ground arith)
    | inr small ↦ elim (Option-cases (recv_all h.payload_length input)) [
      | inl lost ↦ rw (small, lost) (ground arith)
      | inr ((payload, rest), got) ↦
          let shorter = recv_all-shorter h.payload_length input payload rest got in
          elim (Turn-cases (dispatch d b h.opcode payload s)) [
            | inl q ↦ rw (small, got, q) (ground arith)
            | inr (s', r, q) ↦ elim (Bool-cases (h.opcode == op_close && h.payload_length == 0)) [
              | inl last ↦ rw (small, got, q, last) (ground arith)
              | inr more ↦ rw (small, got, q, more) (k rest s' (omega arith))
            ]
          ]
    ]
  ]

  -- `serve_session` takes at most a round for each byte of the peer, and one to see that it has
  -- disconnected.
  pub serve_session-ends :
      (fuel : ℕ) (input : List ℕ) (s : Serving)
      → length input < fuel
      → (serve_session fuel d b input s).ending ≢ out_of_fuel
  unfolding serve_session
  serve_session-ends zero input s enough = absurd (omega arith)
  serve_session-ends (suc fuel) input s enough =
      elim (Option-cases (recv_all request_header_bytes input)) [
        | inl gone ↦ rw (gone, serve_session) (ground arith)
        | inr ((header, rest), got) ↦
            let shorter = recv_all-shorter request_header_bytes input header rest got in
            elim (Option-cases (decode_request_header header)) [
              | inl bad ↦ rw (got, bad, serve_session) (ground arith)
              | inr (h, good) ↦
                  rw (got, good, serve_session)
                    (serve_request-ends (serve_session fuel d b) h rest s
                      λ rest' s' fewer. serve_session-ends fuel rest' s' (omega arith))
            ]
      ]
