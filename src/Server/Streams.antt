-- ===== src/Server/Streams.antt =====
-- The stream handlers of server/runtime_server.c.
use x_remote_runtime.Prelude.{
  ℕ, Option, none, some, [], Bool, not, ◌==◌, ◌&&◌, if◌then◌else◌, length, drop,
}
use x_remote_runtime.Protocol.Words.{read_u32, read_u64, write_u32, write_u64}
use x_remote_runtime.Server.Table.{Table, new_slot, remove, update, next_id}
use x_remote_runtime.Server.Backend.{
  BackendCall, CuResult, success, invalid_value, not_supported, out_of_memory, not_ready, failed,
  Driver, stream_create, stream_create_priority, stream_get_flags, stream_get_priority,
  stream_query, stream_sync, stream_destroy, succeeds,
}
use x_remote_runtime.Server.Session.{
  World, Response, Handler, ServerSession, ask, called, with_session, reply, reply_with,
  bad_request, not_found, cuda_error, no_resource, ok, find_stream, resolve_stream_id,
}

-- The session once a slot was taken: `table` holds the new entry.
abbrev pub took_stream : ServerSession → Table ℕ → ServerSession
took_stream s table = record s { streams = table; next_stream_id = next_id s.next_stream_id }

unfoldable pub stream_in_slot : Driver → BackendCall → World → Table ℕ → World × Response
stream_in_slot d c w table =
    let id = w.session.next_stream_id in
    let w' = called c w in
    if not (succeeds (ask d c w).result)
    then reply (with_session w' (took_stream w.session (remove id table))) cuda_error
    else reply_with
        (with_session w' (took_stream w.session (update id (λ _. (ask d c w).value) table)))
        (write_u64 [] id)

abbrev pub bad_stream_flags : Driver → ℕ → Bool
bad_stream_flags d flags = not (flags == d.stream_default) && not (flags == d.stream_non_blocking)

unfoldable pub handle_create_stream : Driver → Handler
handle_create_stream d w payload =
    if not (length payload == 4)
    then reply w bad_request
    else (let flags = read_u32 payload in
        if bad_stream_flags d flags
        then reply w bad_request
        else elim (new_slot w.session.next_stream_id 0 w.session.streams) [
          | none ↦ reply w no_resource
          | some table ↦ stream_in_slot d (stream_create flags) w table
        ])

-- A priority is an int32_t, kept as its bit pattern.
unfoldable pub handle_create_stream_priority : Driver → Handler
handle_create_stream_priority d w payload =
    if not (length payload == 8)
    then reply w bad_request
    else (let flags = read_u32 payload in
        let priority = read_u32 (drop 4 payload) in
        if bad_stream_flags d flags
        then reply w bad_request
        else elim (new_slot w.session.next_stream_id 0 w.session.streams) [
          | none ↦ reply w no_resource
          | some table ↦ stream_in_slot d (stream_create_priority flags priority) w table
        ])

unfoldable pub handle_stream_scalar : Driver → Bool → Handler
handle_stream_scalar d priority w payload =
    if not (length payload == 8)
    then reply w bad_request
    else elim (find_stream w.session (read_u64 payload)) [
      | none ↦ reply w not_found
      | some stream ↦
          (let c = if priority then stream_get_priority stream else stream_get_flags stream in
            if not (succeeds (ask d c w).result)
            then reply (called c w) cuda_error
            else reply_with (called c w) (write_u32 [] (ask d c w).value))
    ]

-- `STREAM_STATE_READY` and `STREAM_STATE_PENDING`; `none` is an error of the driver.
abbrev pub query_state : CuResult → Option ℕ
query_state success = some 0
query_state not_ready = some 1
query_state invalid_value = none
query_state not_supported = none
query_state out_of_memory = none
query_state failed = none

abbrev pub reply_state : Driver → BackendCall → World → World × Response
reply_state d c w = elim (query_state (ask d c w).result) [
  | none ↦ reply (called c w) cuda_error
  | some state ↦ reply_with (called c w) (write_u32 [] state)
]

unfoldable pub handle_stream_query : Driver → Handler
handle_stream_query d w payload =
    if not (length payload == 8)
    then reply w bad_request
    else elim (resolve_stream_id w.session (read_u64 payload)) [
      | none ↦ reply w not_found
      | some stream ↦ reply_state d (stream_query stream) w
    ]

unfoldable pub handle_stream_sync : Driver → Handler
handle_stream_sync d w payload =
    if not (length payload == 8)
    then reply w bad_request
    else elim (resolve_stream_id w.session (read_u64 payload)) [
      | none ↦ reply w not_found
      | some stream ↦
          (let c = stream_sync stream in
            if not (succeeds (ask d c w).result)
            then reply (called c w) cuda_error
            else reply (called c w) ok)
    ]

-- A stream is destroyed only after its work is done; its transfers stay.
unfoldable pub handle_destroy_stream : Driver → Handler
handle_destroy_stream d w payload =
    if not (length payload == 8)
    then reply w bad_request
    else (let id = read_u64 payload in
        elim (find_stream w.session id) [
          | none ↦ reply w not_found
          | some stream ↦
              (let w1 = called (stream_sync stream) w in
                if not (succeeds (ask d (stream_sync stream) w).result)
                then reply w1 cuda_error
                else (let c = stream_destroy stream in
                    let w2 = called c w1 in
                    if not (succeeds (ask d c w1).result)
                    then reply w2 cuda_error
                    else reply
                        (with_session w2
                          (record w.session { streams = remove id w.session.streams }))
                        ok))
        ])
