-- ===== src/Server/Registry.antt =====
-- The registry of server/runtime_server.c by wire opcodes, and the payload lengths that
-- include/generated/corex_api_schema.h allows the opcodes of its table.
use x_remote_runtime.Prelude.{
  ℕ, Option, none, some, List, [], ◌∷◌, Bool, false, not, ◌==◌, ◌&&◌, ◌||◌, leb, if◌then◌else◌,
}
use x_remote_runtime.Server.Handlers.{Opcode}

-- An entry of `g_handlers`: a handler of the event, stream, memory and transfer modules, one of the
-- three small ones of the registry, or one that is not modelled.
pub data Entry : Type 0 where
  serves : Opcode → Entry
  legacy_launch close hello not_modelled : Entry

abbrev pub op_count : ℕ
op_count = 93

abbrev pub op_alloc : ℕ
op_alloc = 1

abbrev pub op_close : ℕ
op_close = 7

abbrev pub op_hello : ℕ
op_hello = 27

unfoldable pub registry : List (ℕ × Entry)
registry =
    (1, serves Opcode.alloc)
    ∷ (2, serves Opcode.h2d)
    ∷ (3, legacy_launch)
    ∷ (4, serves Opcode.sync)
    ∷ (5, serves Opcode.d2h)
    ∷ (6, serves Opcode.free)
    ∷ (7, close)
    ∷ (11, serves Opcode.launch)
    ∷ (12, serves Opcode.create_stream)
    ∷ (13, serves Opcode.destroy_stream)
    ∷ (14, serves Opcode.stream_query)
    ∷ (15, serves Opcode.stream_sync)
    ∷ (16, serves Opcode.create_event)
    ∷ (17, serves Opcode.destroy_event)
    ∷ (18, serves Opcode.event_record)
    ∷ (19, serves Opcode.event_query)
    ∷ (20, serves Opcode.event_sync)
    ∷ (21, serves Opcode.stream_wait_event)
    ∷ (22, serves Opcode.h2d_async_submit)
    ∷ (23, serves Opcode.d2h_async_submit)
    ∷ (24, serves Opcode.transfer_query)
    ∷ (25, serves Opcode.transfer_wait)
    ∷ (27, hello)
    ∷ (28, serves Opcode.d2d)
    ∷ (29, serves Opcode.memset)
    ∷ (30, serves Opcode.memset_async)
    ∷ (31, serves Opcode.stream_get_flags)
    ∷ (32, serves Opcode.create_stream_priority)
    ∷ (33, serves Opcode.stream_get_priority)
    ∷ (34, serves Opcode.event_elapsed)
    ∷ (49, serves Opcode.alloc_pitched)
    ∷ (52, serves Opcode.memset_2d)
    ∷ (53, serves Opcode.memset_2d_async)
    ∷ (54, serves Opcode.d2d_async)
    ∷ []

unfoldable pub lookup {ℓ} : {A : Type ℓ} → ℕ → List (ℕ × A) → Option A
lookup key [] = none
lookup key ((k, a) ∷ rows) = let rest = lookup key rows in if k == key then some a else rest

-- `opcode < OP__COUNT && g_handlers[opcode].handler ? &g_handlers[opcode] : NULL`. The registry has a
-- handler for each opcode from 1 on, as `server_registry_validate` makes sure.
unfoldable pub g_handlers : ℕ → Option Entry
unfolding registry lookup
g_handlers opcode =
    if opcode == 0 || leb op_count opcode
    then none
    else elim (lookup opcode registry) [ none ↦ some not_modelled | some e ↦ some e ]

-- The opcodes with `request_min_bytes` and `request_max_bytes`.
unfoldable pub generated_apis : List (ℕ × (ℕ × ℕ))
generated_apis =
    (4, (0, 0))
    ∷ (14, (8, 8))
    ∷ (19, (8, 8))
    ∷ (35, (0, 0))
    ∷ (36, (0, 0))
    ∷ (39, (8, 8))
    ∷ (40, (0, 0))
    ∷ (41, (0, 0))
    ∷ (42, (4, 4))
    ∷ (43, (0, 0))
    ∷ (44, (0, 0))
    ∷ (45, (16, 16))
    ∷ (46, (12, 12))
    ∷ (38, (20, 20))
    ∷ (47, (4, 4))
    ∷ (48, (4, 36))
    ∷ (59, (12, 12))
    ∷ (60, (4, 4))
    ∷ (61, (4, 4))
    ∷ (62, (16, 16))
    ∷ (63, (12, 12))
    ∷ (64, (52, 52))
    ∷ (65, (60, 60))
    ∷ (66, (68, 68))
    ∷ (67, (12, 12))
    ∷ (68, (24, 24))
    ∷ (69, (20, 20))
    ∷ (71, (8, 8))
    ∷ (72, (12, 12))
    ∷ (73, (12, 139))
    ∷ (74, (4, 4))
    ∷ (75, (4, 4))
    ∷ (76, (4, 4))
    ∷ (77, (12, 12))
    ∷ (78, (12, 12))
    ∷ (79, (8, 8))
    ∷ (80, (16, 16))
    ∷ (81, (12, 12))
    ∷ (82, (20, 20))
    ∷ (83, (16, 16))
    ∷ (84, (24, 24))
    ∷ (85, (16, 16))
    ∷ (86, (24, 24))
    ∷ (87, (16, 16))
    ∷ (88, (52, 8244))
    ∷ (89, (8, 8))
    ∷ (90, (16, 16))
    ∷ (91, (4, 4))
    ∷ (92, (8, 8))
    ∷ []

-- An opcode outside the table has no schema.
unfoldable pub generated_schema_error : ℕ → ℕ → Bool
unfolding generated_apis lookup
generated_schema_error opcode payload_len = elim (lookup opcode generated_apis) [
  | none ↦ false
  | some (low, high) ↦ not (leb low payload_len && leb payload_len high)
]

unfoldable pub member : ℕ → List ℕ → Bool
member x [] = false
member x (y ∷ ys) = let rest = member x ys in x == y || rest

-- `corex_graph_capture_safe_opcode`: OP_GRAPH, OP_CLOSE, OP_HELLO, OP_GET_DEVICE_INFO,
-- OP_GET_DRIVER_VERSION, OP_GET_RUNTIME_VERSION, OP_DEVICE_GET_ATTRIBUTE, OP_GET_DEVICE_FLAGS,
-- OP_GET_PRIORITY_RANGE, OP_GET_LIMIT, OP_GET_CACHE_CONFIG, OP_GET_SHARED_MEM_CONFIG,
-- OP_DEVICE_GET_PCI_BUS_ID, OP_DEVICE_GET_BY_PCI_BUS_ID, OP_FUNCTION_ATTRIBUTES, OP_OCCUPANCY,
-- OP_STREAM_GET_FLAGS and OP_STREAM_GET_PRIORITY.
unfoldable pub capture_safe_opcode : ℕ → Bool
unfolding member
capture_safe_opcode opcode =
    member opcode
      (88 ∷ 7 ∷ 27 ∷ 26 ∷ 35 ∷ 36 ∷ 39 ∷ 40 ∷ 41 ∷ 42 ∷ 43 ∷ 44 ∷ 47 ∷ 48 ∷ 37 ∷ 38 ∷ 31 ∷ 33 ∷ [])
