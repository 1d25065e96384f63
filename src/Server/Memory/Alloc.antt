-- ===== src/Server/Memory/Alloc.antt =====
-- `handle_alloc`, `handle_alloc_pitched`, `handle_free` and `handle_sync` of
-- server/runtime_server.c.
use x_remote_runtime.Prelude.{
  ℕ, ◌-◌, ◌*◌, ◌/◌, ◌^◌, Option, none, some, [], true, false, not, ◌==◌, ◌||◌, ltb, if◌then◌else◌,
  length, drop,
}
use x_remote_runtime.Protocol.Words.{read_u64, write_u64}
use x_remote_runtime.Server.Table.{Table, new_slot, remove, update, next_id}
use x_remote_runtime.Server.Backend.{
  Driver, context_sync, mem_alloc, mem_alloc_pitch, mem_free, succeeds,
}
use x_remote_runtime.Server.Session.{
  Allocation, blank_allocation, World, Response, Handler, ServerSession, ask, called, with_session,
  reply, reply_with, bad_request, not_found, cuda_error, no_resource, find_allocation, ok,
}
use x_remote_runtime.Server.GraphMemory.{graph_allocation_freed, retire_graph_memory}

abbrev pub size_max : ℕ
size_max = 2 ^ 64 - 1

-- The session once a slot was taken: `table` holds the new entry.
abbrev pub took_alloc : ServerSession → Table Allocation → ServerSession
took_alloc s table = record s { allocations = table; next_alloc_id = next_id s.next_alloc_id }

unfoldable pub alloc_in_slot : Driver → World → Table Allocation → ℕ → World × Response
alloc_in_slot d w table size =
    let id = w.session.next_alloc_id in
    let c = mem_alloc size in
    let w' = called c w in
    if not (succeeds (ask d c w).result)
    then reply (with_session w' (took_alloc w.session (remove id table))) cuda_error
    else (let fill = λ (a : Allocation). record a { ptr = (ask d c w).value; size = size } in
        reply_with (with_session w' (took_alloc w.session (update id fill table)))
          (write_u64 [] id))

unfoldable pub handle_alloc : Driver → Handler
handle_alloc d w payload =
    if not (length payload == 8)
    then reply w bad_request
    else (let size = read_u64 payload in
        if size == 0 || ltb size_max size
        then reply w bad_request
        else elim (new_slot w.session.next_alloc_id blank_allocation w.session.allocations) [
          | none ↦ reply w no_resource
          | some table ↦ alloc_in_slot d w table size
        ])

-- The pitched allocation with its fallback to a linear one: the world after it, and the pointer and
-- pitch if there is one.
unfoldable pub pitched_memory : Driver → World → ℕ → ℕ → World × Option (ℕ × ℕ)
pitched_memory d w width height =
    let c = mem_alloc_pitch width height in
    let w1 = called c w in
    if succeeds (ask d c w).result
    then (w1, some ((ask d c w).value, (ask d c w).pitch))
    else (if ltb (size_max / height) width
        then (w1, none)
        else (let c' = mem_alloc (width * height) in
            (
              called c' w1,
              (if succeeds (ask d c' w1).result then some ((ask d c' w1).value, width) else none),
            )))

unfoldable pub alloc_pitched_in_slot : Driver → World → Table Allocation → ℕ → ℕ → World × Response
alloc_pitched_in_slot d w table width height =
    let id = w.session.next_alloc_id in
    let (w', memory) = pitched_memory d w width height in
    let failed = reply (with_session w' (took_alloc w.session (remove id table))) cuda_error in
    elim memory [
      | none ↦ failed
      | some (p, pitch) ↦
          if ltb pitch width || ltb (size_max / height) pitch
          then failed
          else (let fill = λ (a : Allocation). record a {
            ptr = p;
            size = pitch * height;
            layout_kind = 1;
            width = width;
            height = height;
            pitch = pitch;
          } in
              reply_with (with_session w' (took_alloc w.session (update id fill table)))
                (write_u64 (write_u64 (write_u64 [] id) pitch) (pitch * height)))
    ]

unfoldable pub handle_alloc_pitched : Driver → Handler
handle_alloc_pitched d w payload =
    if not (length payload == 16)
    then reply w bad_request
    else (let width = read_u64 payload in
        let height = read_u64 (drop 8 payload) in
        if width == 0 || height == 0 || ltb size_max width || ltb size_max height
        then reply w bad_request
        else elim (new_slot w.session.next_alloc_id blank_allocation w.session.allocations) [
          | none ↦ reply w no_resource
          | some table ↦ alloc_pitched_in_slot d w table width height
        ])

-- `if (a->graph_id) graph_allocation_freed(session, a, 0, 0); else memset(a, 0, sizeof(*a));`
unfoldable pub forget_allocation : Driver → ℕ → Allocation → World → World
forget_allocation d id a w =
    if not (a.graph_id == 0)
    then graph_allocation_freed d id 0 false w
    else with_session w (record w.session { allocations = remove id w.session.allocations })

unfoldable pub handle_free : Driver → Handler
handle_free d w payload =
    if not (length payload == 8)
    then reply w bad_request
    else (let id = read_u64 payload in
        elim (find_allocation w.session id) [
          | none ↦ reply w not_found
          | some a ↦
              if not (a.parent_module_id == 0)
              then reply w bad_request
              else (let w1 = called context_sync w in
                  if not (succeeds (ask d context_sync w).result)
                  then reply w1 cuda_error
                  else (let c = mem_free a.ptr in
                      let w2 = called c w1 in
                      if not (succeeds (ask d c w1).result)
                      then reply w2 cuda_error
                      else reply (forget_allocation d id a w2) ok))
        ])

unfoldable pub handle_sync : Driver → Handler
handle_sync d w payload =
    if not (length payload == 0)
    then reply w bad_request
    else (let w' = called context_sync w in
        if not (succeeds (ask d context_sync w).result)
        then reply w' cuda_error
        else reply (retire_graph_memory d true w') ok)
