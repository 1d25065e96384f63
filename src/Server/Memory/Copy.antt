-- ===== src/Server/Memory/Copy.antt =====
-- `handle_h2d`, `handle_d2h`, `handle_d2d` and `handle_d2d_async` of server/runtime_server.c.
-- The `malloc` of a reply buffer does not fail.
use x_remote_runtime.Prelude.{
  ℕ, ◌+◌, ◌-◌, ◌^◌, none, some, Bool, not, ◌==◌, ◌||◌, ◌&&◌, ltb, if◌then◌else◌, length, drop,
}
use x_remote_runtime.Protocol.Words.{read_u64}
use x_remote_runtime.Server.Backend.{Driver, copy_h2d, copy_d2h, copy_d2d, copy_d2d_async, succeeds}
use x_remote_runtime.Server.Session.{
  Allocation, Handler, ask, called, reply, reply_with, add_u64, bad_request, not_found, cuda_error,
  ok, find_allocation, resolve_stream_id,
}

abbrev pub u32_max : ℕ
u32_max = 2 ^ 32 - 1

unfoldable pub handle_h2d : Driver → Handler
handle_h2d d w payload =
    if ltb (length payload) 24
    then reply w bad_request
    else (let id = read_u64 payload in
        let offset = read_u64 (drop 8 payload) in
        let bytes = read_u64 (drop 16 payload) in
        if ltb u32_max bytes || not (24 + bytes == length payload)
        then reply w bad_request
        else elim (find_allocation w.session id) [
          | none ↦ reply w not_found
          | some a ↦
              if ltb a.size offset || ltb (a.size - offset) bytes
              then reply w bad_request
              else (let c = copy_h2d (add_u64 a.ptr offset) (drop 24 payload) in
                  if not (succeeds (ask d c w).result)
                  then reply (called c w) cuda_error
                  else reply (called c w) ok)
        ])

unfoldable pub handle_d2h : Driver → Handler
handle_d2h d w payload =
    if not (length payload == 24)
    then reply w bad_request
    else (let id = read_u64 payload in
        let offset = read_u64 (drop 8 payload) in
        let bytes = read_u64 (drop 16 payload) in
        if ltb u32_max bytes then reply w bad_request else elim (find_allocation w.session id) [
          | none ↦ reply w not_found
          | some a ↦
              if ltb a.size offset || ltb (a.size - offset) bytes
              then reply w bad_request
              else (let c = copy_d2h (add_u64 a.ptr offset) bytes in
                  if not (succeeds (ask d c w).result)
                  then reply (called c w) cuda_error
                  else reply_with (called c w) (ask d c w).bytes)
        ])

-- `dst == src` compares two entries that were found by their ids: they are one if the ids are.
unfoldable pub overlaps : ℕ → ℕ → ℕ → ℕ → ℕ → Bool
overlaps dst_id dst_offset src_id src_offset bytes =
    dst_id == src_id
    && ltb dst_offset (add_u64 src_offset bytes)
    && ltb src_offset (add_u64 dst_offset bytes)

unfoldable pub outside : Allocation → Allocation → ℕ → ℕ → ℕ → Bool
outside dst src dst_offset src_offset bytes =
    ltb dst.size dst_offset
    || ltb src.size src_offset
    || ltb (dst.size - dst_offset) bytes
    || ltb (src.size - src_offset) bytes

unfoldable pub handle_d2d : Driver → Handler
handle_d2d d w payload =
    if not (length payload == 40)
    then reply w bad_request
    else (let dst_id = read_u64 payload in
        let dst_offset = read_u64 (drop 8 payload) in
        let src_id = read_u64 (drop 16 payload) in
        let src_offset = read_u64 (drop 24 payload) in
        let bytes = read_u64 (drop 32 payload) in
        elim (find_allocation w.session dst_id) [
          | none ↦ reply w not_found
          | some dst ↦ elim (find_allocation w.session src_id) [
            | none ↦ reply w not_found
            | some src ↦
                if outside dst src dst_offset src_offset bytes
                then reply w bad_request
                else if overlaps dst_id dst_offset src_id src_offset bytes
                then reply w bad_request
                else (let c =
                      copy_d2d (add_u64 dst.ptr dst_offset) (add_u64 src.ptr src_offset) bytes in
                    if not (succeeds (ask d c w).result)
                    then reply (called c w) cuda_error
                    else reply (called c w) ok)
          ]
        ])

-- Every refusal of the asynchronous copy is `ST_BAD_REQUEST`, also for an unknown id.
unfoldable pub handle_d2d_async : Driver → Handler
handle_d2d_async d w payload =
    if not (length payload == 48)
    then reply w bad_request
    else (let dst_id = read_u64 payload in
        let dst_offset = read_u64 (drop 8 payload) in
        let src_id = read_u64 (drop 16 payload) in
        let src_offset = read_u64 (drop 24 payload) in
        let bytes = read_u64 (drop 32 payload) in
        elim (find_allocation w.session dst_id) [
          | none ↦ reply w bad_request
          | some dst ↦ elim (find_allocation w.session src_id) [
            | none ↦ reply w bad_request
            | some src ↦ elim (resolve_stream_id w.session (read_u64 (drop 40 payload))) [
              | none ↦ reply w bad_request
              | some stream ↦
                  if outside dst src dst_offset src_offset bytes
                  then reply w bad_request
                  else if overlaps dst_id dst_offset src_id src_offset bytes
                  then reply w bad_request
                  else (let c =
                        copy_d2d_async (add_u64 dst.ptr dst_offset) (add_u64 src.ptr src_offset)
                          bytes stream in
                      if succeeds (ask d c w).result
                      then reply (called c w) ok
                      else reply (called c w) cuda_error)
            ]
          ]
        ])
