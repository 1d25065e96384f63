-- ===== src/Server/Memory/Fill.antt =====
-- The memset handlers of server/runtime_server.c, linear and pitched.
use x_remote_runtime.Prelude.{
  ℕ, ◌-◌, ◌*◌, ◌/◌, ◌%◌, Option, none, some, List, Bool, true, false, not, ◌==◌, ◌||◌, ltb,
  if◌then◌else◌, length, drop, guard, ◌>>=◌, ◌>>◌,
}
use x_remote_runtime.Protocol.Words.{read_u32, read_u64}
use x_remote_runtime.Server.Backend.{
  Driver, BackendCall, memset_d8, memset_d8_async, memset_d2d8, memset_d2d8_async, succeeds,
}
use x_remote_runtime.Server.Session.{
  Allocation, World, Response, Handler, ServerSession, ask, called, reply, add_u64, bad_request,
  cuda_error, ok, find_allocation, resolve_stream_id,
}

pub record MemsetRequest : Type 0 where
  pub allocation : Allocation
  pub stream : ℕ
  pub offset : ℕ
  pub value : ℕ
  pub bytes : ℕ

-- `none` is the result -1.
unfoldable pub decode_memset_payload : ServerSession → List ℕ → Bool → Option MemsetRequest
decode_memset_payload s payload async = do
  guard (length payload == (if async then 36 else 28))
  let offset = read_u64 (drop 8 payload)
  let value = read_u32 (drop 16 payload)
  let bytes = read_u64 (drop 20 payload)
  a ← find_allocation s (read_u64 payload)
  guard (not (ltb 0xff value || ltb a.size offset || ltb (a.size - offset) bytes))
  stream ← if async then resolve_stream_id s (read_u64 (drop 28 payload)) else some 0
  some (record { allocation = a; stream = stream; offset = offset; value = value; bytes = bytes })

abbrev pub reply_result : Driver → BackendCall → World → World × Response
reply_result d c w =
    if not (succeeds (ask d c w).result)
    then reply (called c w) cuda_error
    else reply (called c w) ok

unfoldable pub handle_memset : Driver → Handler
unfolding decode_memset_payload
handle_memset d w payload = elim (decode_memset_payload w.session payload false) [
  | none ↦ reply w bad_request
  | some r ↦ reply_result d (memset_d8 (add_u64 r.allocation.ptr r.offset) r.value r.bytes) w
]

unfoldable pub handle_memset_async : Driver → Handler
unfolding decode_memset_payload
handle_memset_async d w payload = elim (decode_memset_payload w.session payload true) [
  | none ↦ reply w bad_request
  | some r ↦
      reply_result d (memset_d8_async (add_u64 r.allocation.ptr r.offset) r.value r.bytes r.stream)
        w
]

-- The rectangle does not fit, or is empty. The order of the tests is that of the source, where each
-- guards the arithmetic of the next.
unfoldable pub bad_rectangle : Allocation → ℕ → ℕ → ℕ → ℕ → Bool
bad_rectangle a offset pitch width height =
    width == 0
    || height == 0
    || pitch == 0
    || ltb pitch width
    || ltb a.size offset
    || ltb ((a.size - offset) / pitch) (height - 1)
    || ltb (a.size - offset - (height - 1) * pitch) width

unfoldable pub handle_memset_2d : Driver → Bool → Handler
handle_memset_2d d async w payload =
    if not (length payload == (if async then 52 else 44))
    then reply w bad_request
    else (let offset = read_u64 (drop 8 payload) in
        let pitch = read_u64 (drop 16 payload) in
        let width = read_u64 (drop 24 payload) in
        let height = read_u64 (drop 32 payload) in
        let value = read_u32 (drop 40 payload) % 256 in
        elim (if async then resolve_stream_id w.session (read_u64 (drop 44 payload)) else some 0) [
          | none ↦ reply w bad_request
          | some stream ↦ elim (find_allocation w.session (read_u64 payload)) [
            | none ↦ reply w bad_request
            | some a ↦
                if bad_rectangle a offset pitch width height
                then reply w bad_request
                else (let p = add_u64 a.ptr offset in
                    reply_result d
                      (if async
                        then memset_d2d8_async p pitch value width height stream
                        else memset_d2d8 p pitch value width height)
                      w)
          ]
        ])
