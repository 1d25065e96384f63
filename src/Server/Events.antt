-- ===== src/Server/Events.antt =====
-- The event handlers of server/runtime_server.c.
use x_remote_runtime.Prelude.{ℕ, none, some, [], not, ◌==◌, ◌&&◌, if◌then◌else◌, length, drop}
use x_remote_runtime.Protocol.Words.{read_u32, read_u64, write_u32, write_u64}
use x_remote_runtime.Server.Table.{Table, new_slot, remove, update, next_id}
use x_remote_runtime.Server.Backend.{
  BackendCall, Driver, context_sync, event_create, event_query, event_sync, event_destroy,
  event_record, event_elapsed, stream_wait_event, succeeds,
}
use x_remote_runtime.Server.Session.{
  EventEntry, World, Response, Handler, ServerSession, ask, called, with_session, reply, reply_with,
  bad_request, not_found, cuda_error, no_resource, ok, find_event, resolve_stream_id,
}
use x_remote_runtime.Server.Streams.{reply_state}

-- The session once a slot was taken: `table` holds the new entry.
abbrev pub took_event : ServerSession → Table EventEntry → ServerSession
took_event s table = record s { events = table; next_event_id = next_id s.next_event_id }

abbrev pub blank_event : EventEntry
blank_event = record { event = 0; flags = 0 }

unfoldable pub event_in_slot : Driver → ℕ → World → Table EventEntry → World × Response
event_in_slot d flags w table =
    let id = w.session.next_event_id in
    let c = event_create flags in
    let w' = called c w in
    if not (succeeds (ask d c w).result)
    then reply (with_session w' (took_event w.session (remove id table))) cuda_error
    else (let created : EventEntry = record { event = (ask d c w).value; flags = flags } in
        reply_with (with_session w' (took_event w.session (update id (λ _. created) table)))
          (write_u64 [] id))

unfoldable pub handle_create_event : Driver → Handler
handle_create_event d w payload =
    if not (length payload == 4)
    then reply w bad_request
    else (let flags = read_u32 payload in
        if not (flags == d.event_default)
          && not (flags == d.event_blocking_sync)
          && not (flags == d.event_disable_timing)
        then reply w bad_request
        else elim (new_slot w.session.next_event_id blank_event w.session.events) [
          | none ↦ reply w no_resource
          | some table ↦ event_in_slot d flags w table
        ])

abbrev reply_done : Driver → BackendCall → World → World × Response
reply_done d c w =
    if not (succeeds (ask d c w).result)
    then reply (called c w) cuda_error
    else reply (called c w) ok

unfoldable pub handle_event_record : Driver → Handler
handle_event_record d w payload =
    if not (length payload == 16)
    then reply w bad_request
    else elim (find_event w.session (read_u64 payload)) [
      | none ↦ reply w not_found
      | some e ↦ elim (resolve_stream_id w.session (read_u64 (drop 8 payload))) [
        | none ↦ reply w not_found
        | some stream ↦ reply_done d (event_record e.event stream) w
      ]
    ]

unfoldable pub handle_event_query : Driver → Handler
handle_event_query d w payload =
    if not (length payload == 8)
    then reply w bad_request
    else elim (find_event w.session (read_u64 payload)) [
      | none ↦ reply w not_found
      | some e ↦ reply_state d (event_query e.event) w
    ]

unfoldable pub handle_event_sync : Driver → Handler
handle_event_sync d w payload =
    if not (length payload == 8)
    then reply w bad_request
    else elim (find_event w.session (read_u64 payload)) [
      | none ↦ reply w not_found
      | some e ↦ reply_done d (event_sync e.event) w
    ]

-- The milliseconds are a float, kept as its bit pattern.
unfoldable pub handle_event_elapsed : Driver → Handler
handle_event_elapsed d w payload =
    if not (length payload == 16)
    then reply w bad_request
    else elim (find_event w.session (read_u64 payload)) [
      | none ↦ reply w not_found
      | some start ↦ elim (find_event w.session (read_u64 (drop 8 payload))) [
        | none ↦ reply w not_found
        | some end ↦
            (let c = event_elapsed start.event end.event in
              if not (succeeds (ask d c w).result)
              then reply (called c w) cuda_error
              else reply_with (called c w) (write_u32 [] (ask d c w).value))
      ]
    ]

unfoldable pub handle_stream_wait_event : Driver → Handler
handle_stream_wait_event d w payload =
    if not (length payload == 20)
    then reply w bad_request
    else (let flags = read_u32 (drop 16 payload) in
        if not (flags == 0)
        then reply w bad_request
        else elim (resolve_stream_id w.session (read_u64 payload)) [
          | none ↦ reply w not_found
          | some stream ↦ elim (find_event w.session (read_u64 (drop 8 payload))) [
            | none ↦ reply w not_found
            | some e ↦ reply_done d (stream_wait_event stream e.event flags) w
          ]
        ])

-- An event is destroyed only after all work of the context is done.
unfoldable pub handle_destroy_event : Driver → Handler
handle_destroy_event d w payload =
    if not (length payload == 8)
    then reply w bad_request
    else (let id = read_u64 payload in
        elim (find_event w.session id) [
          | none ↦ reply w not_found
          | some e ↦
              (let w1 = called context_sync w in
                if not (succeeds (ask d context_sync w).result)
                then reply w1 cuda_error
                else (let c = event_destroy e.event in
                    let w2 = called c w1 in
                    if not (succeeds (ask d c w1).result)
                    then reply w2 cuda_error
                    else reply
                        (with_session w2 (record w.session { events = remove id w.session.events }))
                        ok))
        ])
