-- ===== src/Server/Dispatch/Turns.antt =====
-- What a turn of `serve_session` of server/runtime_server.c may be, and what it takes from the socket.
use x_remote_runtime.Prelude.{
  ℕ, ◌+◌, ◌≡◌, ◌⊎◌, inl, inr, refl, arith, List, some, length, length-drop,
}
use x_remote_runtime.Protocol.Socket.{recv_all}
use x_remote_runtime.Server.Session.{Response}
use x_remote_runtime.Server.Dispatch.{Serving, Turn, beyond_model, answered}

pub Turn-cases :
    (t : Turn) → (t ≡ beyond_model) ⊎ ((s : Serving) × (r : Response) × (t ≡ answered s r))
Turn-cases beyond_model = inl refl
Turn-cases (answered s r) = inr (s, r, refl)

-- What is left is that much shorter.
pub recv_all-shorter :
    (n : ℕ) (input got rest : List ℕ)
    → recv_all n input ≡ some (got, rest)
    → length rest + n ≡ length input
unfolding recv_all
recv_all-shorter n input got rest e = ground (arith, length-drop n input)
