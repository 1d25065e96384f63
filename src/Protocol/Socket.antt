-- ===== src/Protocol/Socket.antt =====
-- A socket as the bytes that its peer will have sent until it closes: `recv_all` of
-- server/runtime_server.c and src/corex_remote_cuda.c. An interrupted or partial `recv` goes on.
use x_remote_runtime.Prelude.{
  ℕ, Option, none, some, List, leb, if◌then◌else◌, length, drop, take, ◌++◌, ◌≡◌, refl, true, arith,
  length-append, take-append, drop-append,
}

-- The bytes that are received, and those that are left.
unfoldable pub recv_all : ℕ → List ℕ → Option (List ℕ × List ℕ)
recv_all len input = if leb len (length input) then some (take len input, drop len input) else none

-- What was sent first is received first.
pub recv_all-append :
    (sent more : List ℕ) → recv_all (length sent) (sent ++ more) ≡ some (sent, more)
unfolding recv_all
recv_all-append sent more =
    let enough : leb (length sent) (length (sent ++ more)) ≡ true =
      ground (arith, length-append sent more) in
    rw (enough, take-append sent more, drop-append sent more) refl
