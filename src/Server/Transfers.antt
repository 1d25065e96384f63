-- ===== src/Server/Transfers.antt =====
-- The asynchronous transfers of server/runtime_server.c: `handle_h2d_async_submit`,
-- `handle_d2h_async_submit`, `handle_transfer_query`, `handle_transfer_wait`, `release_transfer`.
-- The bytes of an upload's staging buffer go with its copy call; those of a download are the `bytes`
-- of the answer to the event that ends it.
pub mod Stages
use x_remote_runtime.Prelude.{
  ℕ, ◌+◌, ◌-◌, ◌^◌, Option, none, some, List, [], Bool, true, false, not, ◌==◌, ◌||◌, ltb,
  if◌then◌else◌, length, drop,
}
use x_remote_runtime.Protocol.Words.{read_u64, write_u64}
use x_remote_runtime.Server.Table.{Table, new_slot, remove, update, next_id}
use x_remote_runtime.Server.Backend.{
  BackendCall, Driver, host_alloc, host_free, event_create, event_destroy, event_record,
  event_query, event_sync, stream_sync, copy_h2d_async, copy_d2h_async, succeeds,
}
use x_remote_runtime.Server.Session.{
  Allocation, TransferEntry, TransferKind, h2d, d2h, h2d_2d, d2h_2d, World, Response, Handler,
  ServerSession, ask, called, with_session, reply, reply_with, add_u64, bad_request, not_found,
  cuda_error, no_resource, ok, find_allocation, find_transfer, resolve_stream_id, max_payload,
}
use x_remote_runtime.Server.Streams.{reply_state}
use x_remote_runtime.Server.Memory.Copy.{u32_max}

-- The driver calls of `release_transfer`: the event first, then the staging buffer.
abbrev pub release_calls : TransferEntry → World → World
release_calls e w =
    let w' = if e.done_event == 0 then w else called (event_destroy e.done_event) w in
    if e.host_buffer == 0 then w' else called (host_free e.host_buffer) w'

abbrev pub with_transfers : World → Table TransferEntry → World
with_transfers w t = with_session w (record w.session { transfers = t })

-- The session once a slot was taken: `table` holds the new entry.
abbrev pub took_transfer : ServerSession → Table TransferEntry → ServerSession
took_transfer s table = record s {
  transfers = table;
  next_transfer_id = next_id s.next_transfer_id;
}

-- A submission gives its slot back: `e` is what the entry holds by then.
abbrev pub give_up : ℕ → Table TransferEntry → TransferEntry → World → World × Response
give_up id table e w = reply (with_transfers (release_calls e w) (remove id table)) cuda_error

abbrev pub is_h2d : TransferKind → Bool
is_h2d h2d = true
is_h2d d2h = false
is_h2d h2d_2d = true
is_h2d d2h_2d = false

-- The stages of a submission, the last one first: the record of the event behind the copy, the copy,
-- the event, the staging buffer. A copy may be in flight when its record fails: the stream is then
-- waited for. `table` holds the entry `id`, and `staged` is what an upload copies into its buffer.
unfoldable pub submit_record :
    Driver → ℕ → Table TransferEntry → TransferEntry → ℕ → World → World × Response
submit_record d id table e stream w =
    let c = event_record e.done_event stream in
    let w' = called c w in
    if not (succeeds (ask d c w).result)
    then give_up id table e (called (stream_sync stream) w')
    else reply_with (with_transfers w' (update id (λ _. e) table)) (write_u64 [] id)

abbrev pub copy_call : TransferEntry → List ℕ → ℕ → ℕ → BackendCall
copy_call e staged device stream =
    if is_h2d e.kind
    then copy_h2d_async device e.host_buffer staged stream
    else copy_d2h_async e.host_buffer device e.bytes stream

unfoldable pub submit_issue :
    Driver → ℕ → Table TransferEntry → TransferEntry → List ℕ → ℕ → ℕ → World → World × Response
submit_issue d id table e staged device stream w =
    let c = copy_call e staged device stream in
    let w' = called c w in
    if not (succeeds (ask d c w).result)
    then give_up id table e w'
    else submit_record d id table e stream w'

unfoldable pub submit_event :
    Driver → ℕ → Table TransferEntry → TransferEntry → List ℕ → ℕ → ℕ → World → World × Response
submit_event d id table e staged device stream w =
    let c = event_create d.event_default in
    let w' = called c w in
    if not (succeeds (ask d c w).result)
    then give_up id table e w'
    else submit_issue d id table (record e { done_event = (ask d c w).value }) staged device stream
        w'

unfoldable pub submit_copy :
    Driver → ℕ → Table TransferEntry → TransferEntry → List ℕ → ℕ → ℕ → World → World × Response
submit_copy d id table e staged device stream w =
    let c = host_alloc e.bytes in
    let w' = called c w in
    if not (succeeds (ask d c w).result)
    then give_up id table e w'
    else submit_event d id table (record e { host_buffer = (ask d c w).value }) staged device stream
        w'

abbrev pub new_transfer : TransferKind → ℕ → ℕ → ℕ → TransferEntry
new_transfer kind allocation_id stream_id bytes = record {
  kind = kind;
  allocation_id = allocation_id;
  stream_id = stream_id;
  done_event = 0;
  host_buffer = 0;
  bytes = bytes;
}

-- The tests that both submissions make after their own on the length, from the allocation on.
unfoldable pub submit : Driver → TransferKind → World → List ℕ → World × Response
submit d kind w payload =
    let allocation_id = read_u64 payload in
    let offset = read_u64 (drop 8 payload) in
    let stream_id = read_u64 (drop 16 payload) in
    let bytes = read_u64 (drop 24 payload) in
    elim (find_allocation w.session allocation_id) [
      | none ↦ reply w not_found
      | some a ↦
          if ltb a.size offset || ltb (a.size - offset) bytes
          then reply w bad_request
          else elim (resolve_stream_id w.session stream_id) [
            | none ↦ reply w not_found
            | some stream ↦
                (let e = new_transfer kind allocation_id stream_id bytes in
                  elim (new_slot w.session.next_transfer_id e w.session.transfers) [
                    | none ↦ reply w no_resource
                    | some table ↦
                        submit_copy d w.session.next_transfer_id table e (drop 32 payload)
                          (add_u64 a.ptr offset) stream
                          (with_session w (took_transfer w.session table))
                  ])
          ]
    ]

unfoldable pub handle_h2d_async_submit : Driver → Handler
handle_h2d_async_submit d w payload =
    if ltb (length payload) 32
    then reply w bad_request
    else (let bytes = read_u64 (drop 24 payload) in
        if bytes == 0 || ltb u32_max bytes || not (32 + bytes == length payload)
        then reply w bad_request
        else submit d h2d w payload)

unfoldable pub handle_d2h_async_submit : Driver → Handler
handle_d2h_async_submit d w payload =
    if not (length payload == 32)
    then reply w bad_request
    else (let bytes = read_u64 (drop 24 payload) in
        if bytes == 0 || ltb u32_max bytes || ltb max_payload bytes
        then reply w bad_request
        else submit d d2h w payload)

unfoldable pub handle_transfer_query : Driver → Handler
handle_transfer_query d w payload =
    if not (length payload == 8)
    then reply w bad_request
    else elim (find_transfer w.session (read_u64 payload)) [
      | none ↦ reply w not_found
      | some e ↦ reply_state d (event_query e.done_event) w
    ]

-- A consuming wait: the id is stale afterwards.
unfoldable pub handle_transfer_wait : Driver → Handler
handle_transfer_wait d w payload =
    if not (length payload == 8)
    then reply w bad_request
    else (let id = read_u64 payload in
        elim (find_transfer w.session id) [
          | none ↦ reply w not_found
          | some e ↦
              (let c = event_sync e.done_event in
                let w' = called c w in
                if not (succeeds (ask d c w).result)
                then reply w' cuda_error
                else (let done =
                      with_transfers (release_calls e w') (remove id w.session.transfers) in
                    reply_with done (if is_h2d e.kind then [] else (ask d c w).bytes)))
        ])
