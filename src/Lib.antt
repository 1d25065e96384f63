-- ===== src/Lib.antt =====
-- The remote CUDA runtime: a client library sends the calls of a program over a connection, and a
-- server X
--
-- The wire protocol, include/internal/corex_protocol.h, is Protocol. Protocol/Words has the byte order
-- helpers, on a little-endian host (corex_protocol_read_u32, write_u64, take_u32, ...), Protocol/Header
-- the request and response headers, Protocol/Hello the HELLO message (corex_protocol_encode_hello,
-- decode_hello), Protocol/Socket recv_all on the bytes that a peer sends. A buffer is the list of its bytes. A function that returns -1 returns `none`.
--
-- The server, server/runtime_server.c, is Server. Server/Table is the fixed tables of resources
-- (find_*, new_*_slot): an entry is `none` while its `used` flag is 0. Server/Session is ServerSession
-- with the tables of allocations, streams, events, transfers, graphs and graph executables, the lookups
-- and the replies. A handler takes the session, the driver calls so far and the payload, and returns
-- the new ones and the reply of send_response. Server/Memory (Alloc, Copy, Fill), Server/Streams,
-- Server/Events and Server/Transfers are the handlers, by the names of the source; a handler with a
-- long chain of calls is split into its stages, which the next stage's name shows. Server/GraphMemory
-- is retire_graph_memory and graph_allocation_freed of server/corex_graph_runtime.inc, which handle_free
-- and handle_sync call. Server/Handlers is the handlers that serve_session runs, by their names, and holds, in its
-- children, what is proved of all of them and of the lifetime of each kind of id. Server/Registry is
-- SERVER_HANDLER_REGISTRY by wire opcodes, with the payload lengths of
-- include/generated/corex_api_schema.h and corex_graph_capture_safe_opcode. Server/Dispatch is
-- serve_session: it takes the bytes of a connection and gives the state at the end, the bytes sent and
-- the reason for the end. A request for a handler that is not modelled, or that Server/Handlers does not
-- have, ends the run there. Server/Launches is decode_kernel_launch, which checks the arguments of a
-- launch against the metadata, and handle_launch_generic. Server/Modules is handle_upload_image,
-- handle_get_kernel and handle_unload_module, which fill and clear the tables of modules and kernels;
-- they are run by themselves, not by serve_session.
--
-- The client, src/corex_remote_cuda.c, is Client. Client/Rpc is rpc outside a capture, split into what is
-- sent and what is received, with map_last_rpc_error. Client/Calls is the remote calls (remote_alloc,
-- remote_h2d, ...) over a Wire, which stands for rpc and the server's state. Client/Calls/Direct is the
-- wire that hands a call to the server's dispatch, unless its payload is over the limit of 64 MiB, which
-- ends the connection. Client/Arena is the virtual addresses: cudaMalloc and
-- cudaFree while no capture is on, and resolve_remote_ptr. The table of
-- VirtualAllocation is a list of its slots. The base that mmap gives the arena is a field, and where it
-- matters the arena is assumed to end below 2^64. Whether a graph of the client still names an allocation
-- is an argument. Client/Transfers is the table of pending asynchronous transfers and the loops that
-- consume them (drain_frontier_blocking, drain_allocation_transfers_blocking, ...): what is consumed is
-- listed with the bytes that came for it, from which host_writes gives the writes to the host. Client/Copies
-- is cudaMemcpy with its loops over chunks. Client/Launches is serialize_kernel_launch and the part of
-- cudaLaunchKernel that follows the view of the stream. Client/Regions is cudaMemset and the resolution
-- of a rectangle of a pitched allocation (checked_2d_extent, resolve_remote_2d_region).
--
-- The launch configuration stack, src/corex_launch_config.c, is Launch, the stack of one thread. The
-- check of an ELF image and the search for the only one in a fat binary, valid_iluvatar_elf and
-- extract_one of src/corex_fatbin_runtime.c, are Fatbin. The kernel metadata, src/corex_metadata.c, is
-- Metadata: Metadata/Reader the MessagePack reader, Metadata/Module the arguments, kernels and the root
-- (parse_arg, parse_kernel, parse_root_metadata), Metadata/Image the walk of the ELF image
-- (corex_parse_metadata) and corex_find_kernel_meta, Metadata/Text the comparison of C strings. Both
-- parsers read their buffers by Bytes: a read at an offset says `fault` outside its buffer, where the C
-- code has undefined behaviour.
--
-- The vendor driver behind server/corex_backend.c is no part of the repository. It is the record
-- Server/Backend.Driver: its answer to a call is an arbitrary function of all calls so far, and the
-- constants of its header are fields. No theorem assumes anything of it.
--
-- Bounds: the tables have the capacities of the source (64 allocations and streams, 128 events and
-- transfers). Numbers are natural numbers with the wrap-around of uint64_t and uint32_t written out;
-- the ids of a table are distinct as long as its 64-bit counter does not wrap around, which the
-- invariant has as a hypothesis. The loop of extract_one runs on fuel, a round for each byte of the
-- buffer, and so does the loop of serve_session, a round for each byte of the peer. mp_skip runs on fuel
-- for each byte that is left, since a nested value takes one at least, and the loop over the notes on
-- fuel for each byte of the section. On the client, the loops over chunks run on fuel, a round for each
-- byte and one more, and so do the loops that drain transfers, a round for each live one and one more.
-- Every other loop of the modelled code is a recursion on a table, a list or a count.
--
-- Not modelled: the failure of a send or of malloc (they end the session), an interrupted recv, printing,
-- error texts, the globals and kernel names of a module, memory pools, 2D and 3D copies, device
-- attributes, the construction of graphs and their capture by the client, the clean-up of a session, and
-- the rest of the client library: pitched allocations, asynchronous copies, and the tables of stream,
-- event and module handles. The driver calls of those parts are calls that this model does not make. The
-- pools and graph nodes of a session are left out of the record, since no modelled handler touches them.
pub mod Prelude
pub mod Bytes
pub mod Protocol
pub mod Server
pub mod Launch
pub mod Fatbin
pub mod Metadata
pub mod Client
