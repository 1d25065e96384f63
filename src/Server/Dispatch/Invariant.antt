-- ===== src/Server/Dispatch/Invariant.antt =====
-- The sessions that `serve_session` of server/runtime_server.c comes to.
use x_remote_runtime.Prelude.{
  ℕ, zero, suc, ◌+◌, ◌^◌, ◌≤◌, ◌<◌, ◌≡◌, inl, inr, arith, List, Bool, true, false, ltb,
  if◌then◌else◌, length, Option-cases, Bool-cases, ◌==◌, ◌&&◌,
}
use mathlib.Core.Path.{subst}
use x_remote_runtime.Protocol.Header.{RequestHeader, decode_request_header, request_header_bytes}
use x_remote_runtime.Protocol.Socket.{recv_all}
use x_remote_runtime.Server.Backend.{Driver}
use x_remote_runtime.Server.Session.{World, ServerSession, Response, max_payload}
use x_remote_runtime.Server.Handlers.{Opcode, handler}
use x_remote_runtime.Server.Handlers.Sessions.{IsValid}
use x_remote_runtime.Server.Handlers.Invariant.{handler-IsValid}
use x_remote_runtime.Server.Handlers.Counters.{IsNext, handler-IsNext}
use x_remote_runtime.Server.Registry.{
  op_close, generated_schema_error, g_handlers, Entry, serves, legacy_launch, close, hello,
  not_modelled,
}
use x_remote_runtime.Server.Dispatch.Turns.{Turn-cases, recv_all-shorter}
use x_remote_runtime.Server.Dispatch.{
  BackendInfo, Serving, Turn, beyond_model, answered, handle_hello, handle_close, serve_entry,
  run_entry, exchange_back, dispatch, Served, serve_request, serve_session,
}

-- A valid session with ids for so many requests more.
pub record CanServe (n : ℕ) (s : ServerSession) : Type 0 where
  pub valid : IsValid s
  pub alloc : s.next_alloc_id + n < 2 ^ 64
  pub stream : s.next_stream_id + n < 2 ^ 64
  pub event : s.next_event_id + n < 2 ^ 64
  pub transfer : s.next_transfer_id + n < 2 ^ 64

-- A turn that leaves the session with ids for so many more.
TurnsTo : ℕ → Turn → Type 0
TurnsTo n beyond_model = Unit {0}
TurnsTo n (answered s r) = CanServe n s.world.session

module _ (d : Driver) (b : BackendInfo) (n : ℕ) where
  waste : (s : ServerSession) → CanServe (suc n) s → CanServe n s
  waste s c = record {
    valid = c.valid;
    alloc = omega (arith, c.alloc);
    stream = omega (arith, c.stream);
    event = omega (arith, c.event);
    transfer = omega (arith, c.transfer);
  }

  handled :
      (op : Opcode) (w : World) (p : List ℕ)
      → CanServe (suc n) w.session
      → CanServe n (handler d op w p).0.session
  handled op w p c =
      let next : IsNext w.session (handler d op w p).0.session = handler-IsNext d op w p in
      record {
        valid = handler-IsValid d op w p c.valid (record {
          alloc = omega (arith, c.alloc);
          stream = omega (arith, c.stream);
          event = omega (arith, c.event);
          transfer = omega (arith, c.transfer);
        });
        alloc = omega (arith, c.alloc, next.alloc);
        stream = omega (arith, c.stream, next.stream);
        event = omega (arith, c.event, next.event);
        transfer = omega (arith, c.transfer, next.transfer);
      }

  hello-session : (w : World) (p : List ℕ) → (handle_hello b w p).0.session ≡ w.session
  unfolding handle_hello
  hello-session w p = ground arith

  serve_entry-TurnsTo :
      (e : Entry) (payload : List ℕ) (s : Serving)
      → CanServe (suc n) s.world.session
      → TurnsTo n (serve_entry d b e payload s)
  unfolding serve_entry TurnsTo handle_close
  serve_entry-TurnsTo not_modelled payload s c = tt
  serve_entry-TurnsTo legacy_launch payload s c = waste s.world.session c
  serve_entry-TurnsTo close payload s c = waste s.world.session c
  serve_entry-TurnsTo hello payload s c =
      rw (hello-session s.world payload) (waste s.world.session c)
  serve_entry-TurnsTo (serves op) payload s c = handled op s.world payload c

  run_entry-TurnsTo :
      (opcode : ℕ) (payload : List ℕ) (s : Serving)
      → CanServe (suc n) s.world.session
      → TurnsTo n (run_entry d b opcode payload s)
  unfolding run_entry TurnsTo
  run_entry-TurnsTo opcode payload s c =
      elim (Bool-cases (generated_schema_error opcode (length payload))) [
        | inl bad ↦ rw bad (waste s.world.session c)
        | inr good ↦ elim (Option-cases (g_handlers opcode)) [
          | inl q ↦ rw (good, q) (waste s.world.session c)
          | inr (e, q) ↦ rw (good, q) (serve_entry-TurnsTo e payload s c)
        ]
      ]

  exchange_back-TurnsTo : (t : Turn) → TurnsTo n t → TurnsTo n (exchange_back t)
  unfolding exchange_back TurnsTo
  exchange_back-TurnsTo beyond_model h = tt
  exchange_back-TurnsTo (answered s r) h = h

  if-TurnsTo :
      (c : Bool) (t t' : Turn) → TurnsTo n t → TurnsTo n t' → TurnsTo n (if c then t else t')
  if-TurnsTo true t t' h h' = h
  if-TurnsTo false t t' h h' = h'

  dispatch-TurnsTo :
      (opcode : ℕ) (payload : List ℕ) (s : Serving)
      → CanServe (suc n) s.world.session
      → TurnsTo n (dispatch d b opcode payload s)
  unfolding dispatch TurnsTo
  dispatch-TurnsTo opcode payload s c =
      let same = waste s.world.session c in
      search (if-TurnsTo, exchange_back-TurnsTo, run_entry-TurnsTo, same)

-- Served with a valid session.
abbrev IsServed : Served → Type 0
IsServed r = IsValid r.state.world.session

answered-CanServe :
    (n : ℕ) (s : Serving) (r : Response) → TurnsTo n (answered s r) → CanServe n s.world.session
unfolding TurnsTo
answered-CanServe n s r c = c

CanServe-fewer : {m n : ℕ} {s : ServerSession} → CanServe m s → n ≤ m → CanServe n s
CanServe-fewer c h = record {
  valid = c.valid;
  alloc = omega (arith, c.alloc, h);
  stream = omega (arith, c.stream, h);
  event = omega (arith, c.event, h);
  transfer = omega (arith, c.transfer, h);
}

module _ (d : Driver) (b : BackendInfo) where
  serve_request-IsServed :
      (next : List ℕ → Serving → Served) (h : RequestHeader) (input : List ℕ) (s : Serving)
      → CanServe (suc (length input)) s.world.session
      → ((rest : List ℕ) (s' : Serving)
          → length rest ≤ length input
          → CanServe (length rest) s'.world.session
          → IsServed (next rest s'))
      → IsServed (serve_request d b next h input s)
  unfolding serve_request
  serve_request-IsServed next h input s c k = elim (Bool-cases (ltb max_payload h.payload_length)) [
    | inl large ↦ rw large c.valid
    | inr small ↦ elim (Option-cases (recv_all h.payload_length input)) [
      | inl lost ↦ rw (small, lost) c.valid
      | inr ((payload, rest), got) ↦
          let n = length rest in
          let shorter = recv_all-shorter h.payload_length input payload rest got in
          let turn = dispatch-TurnsTo d b n h.opcode payload s (CanServe-fewer c (omega arith)) in
          elim (Turn-cases (dispatch d b h.opcode payload s)) [
            | inl q ↦ rw (small, got, q) c.valid
            | inr (s', r, q) ↦
                let good : CanServe n s'.world.session =
                  answered-CanServe n s' r (subst (TurnsTo n) q turn) in
                elim (Bool-cases (h.opcode == op_close && h.payload_length == 0)) [
                  | inl last ↦ rw (small, got, q, last) good.valid
                  | inr more ↦ rw (small, got, q, more) (k rest s' (omega arith) good)
                ]
          ]
    ]
  ]

  -- Whatever the bytes of the peer are and the driver answers, `serve_session` keeps the session valid, if
  -- each id counter and the number of the bytes sum up to less than 2^64: from a fresh session, for less
  -- than 2^64 - 1 bytes.
  pub serve_session-IsValid :
      (fuel : ℕ) (input : List ℕ) (s : Serving)
      → CanServe (length input) s.world.session
      → IsValid (serve_session fuel d b input s).state.world.session
  unfolding serve_session
  serve_session-IsValid zero input s c = c.valid
  serve_session-IsValid (suc fuel) input s c =
      elim (Option-cases (recv_all request_header_bytes input)) [
        | inl gone ↦ rw (gone, serve_session) c.valid
        | inr ((header, rest), got) ↦
            let shorter = recv_all-shorter request_header_bytes input header rest got in
            elim (Option-cases (decode_request_header header)) [
              | inl bad ↦ rw (got, bad, serve_session) c.valid
              | inr (h, good) ↦
                  rw (got, good, serve_session)
                    (serve_request-IsServed (serve_session fuel d b) h rest s
                      (CanServe-fewer c (omega arith))
                      λ rest' s' _ c'. serve_session-IsValid fuel rest' s' c')
            ]
      ]
