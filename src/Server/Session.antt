-- ===== src/Server/Session.antt =====
-- The session of server/runtime_server.c: `ServerSession`, its tables, and the replies.
use x_remote_runtime.Prelude.{
  ℕ, ◌+◌, ◌*◌, ◌%◌, ◌^◌, Option, none, some, List, [], ◌∷◌, Bool, false, ◌==◌, ◌||◌, if◌then◌else◌,
  ◌>>=◌, replicate,
}
use x_remote_runtime.Metadata.Module.{KernelMeta, ModuleMeta}
use x_remote_runtime.Server.Table.{Table, find}
use x_remote_runtime.Server.Backend.{BackendCall, Answer, Driver}

pub data ProtocolStatus : Type 0 where
  ok bad_request not_found cuda_error internal no_resource abi_mismatch metadata_error :
      ProtocolStatus
  invalid_device symbol_not_found not_supported capture_unsupported : ProtocolStatus

abbrev pub status_code : ProtocolStatus → ℕ
status_code ok = 0
status_code bad_request = 1
status_code not_found = 2
status_code cuda_error = 3
status_code internal = 4
status_code no_resource = 5
status_code abi_mismatch = 6
status_code metadata_error = 7
status_code invalid_device = 8
status_code symbol_not_found = 9
status_code not_supported = 10
status_code capture_unsupported = 11

abbrev pub max_allocs : ℕ
max_allocs = 64

abbrev pub max_modules : ℕ
max_modules = 32

abbrev pub max_kernels : ℕ
max_kernels = 128

abbrev pub max_streams : ℕ
max_streams = 64

abbrev pub max_events : ℕ
max_events = 128

abbrev pub max_transfers : ℕ
max_transfers = 128

abbrev pub max_payload : ℕ
max_payload = 64 * 1024 * 1024

pub record Allocation : Type 0 where
  pub ptr : ℕ
  pub size : ℕ
  pub parent_module_id : ℕ
  pub graph_id : ℕ
  pub graph_active : Bool
  pub graph_paired : Bool
  pub layout_kind : ℕ
  pub width : ℕ
  pub height : ℕ
  pub depth : ℕ
  pub pitch : ℕ
  pub slice_pitch : ℕ

abbrev pub blank_allocation : Allocation
blank_allocation = record {
  ptr = 0;
  size = 0;
  parent_module_id = 0;
  graph_id = 0;
  graph_active = false;
  graph_paired = false;
  layout_kind = 0;
  width = 0;
  height = 0;
  depth = 0;
  pitch = 0;
  slice_pitch = 0;
}

pub record EventEntry : Type 0 where
  pub event : ℕ
  pub flags : ℕ

pub data TransferKind : Type 0 where
  h2d d2h h2d_2d d2h_2d : TransferKind

pub record TransferEntry : Type 0 where
  pub kind : TransferKind
  pub allocation_id : ℕ
  pub stream_id : ℕ
  pub done_event : ℕ
  pub host_buffer : ℕ
  pub bytes : ℕ

pub record GraphEntry : Type 0 where
  pub graph : ℕ
  pub owner_node_id : ℕ
  pub memory_frozen : Bool

-- The driver's node kinds that the memory rules name, and the others by their number.
pub data NodeKind : Type 0 where
  mem_alloc_node mem_free_node : NodeKind
  other_node : ℕ → NodeKind

-- A node of an executable snapshot with its cells of `free_streams` and `free_pending`.
pub record ExecNode : Type 0 where
  pub kind : NodeKind
  pub params : List ℕ
  pub free_stream : ℕ
  pub free_pending : Bool

pub record GraphExecEntry : Type 0 where
  pub exec : ℕ
  pub definition : ℕ
  pub last_stream : ℕ
  pub launched : Bool
  pub retired : Bool
  pub nodes : List ExecNode

-- The handle of a kernel's function, and what the metadata of its module says of it.
pub record KernelEntry : Type 0 where
  pub module_id : ℕ
  pub function : ℕ
  pub name : List ℕ
  pub metadata : KernelMeta
  pub metadata_valid : Bool

-- The driver's handle of a module, and the image that it was loaded from.
pub record ModuleEntry : Type 0 where
  pub handle : ℕ
  pub library : Bool
  pub image : List ℕ
  pub name : List ℕ
  pub metadata : ModuleMeta
  pub metadata_valid : Bool

-- The pools and graph nodes of a session are not modelled.
pub record ServerSession : Type 0 where
  pub allocations : Table Allocation
  pub streams : Table ℕ
  pub events : Table EventEntry
  pub transfers : Table TransferEntry
  pub modules : Table ModuleEntry
  pub kernels : Table KernelEntry
  pub graphs : Table GraphEntry
  pub graph_execs : Table GraphExecEntry
  pub next_alloc_id : ℕ
  pub next_module_id : ℕ
  pub next_kernel_id : ℕ
  pub next_stream_id : ℕ
  pub next_event_id : ℕ
  pub next_transfer_id : ℕ

abbrev pub empty_table {ℓ} : (A : Type ℓ) → ℕ → Table A
empty_table A n = replicate n none

unfoldable pub server_session_init : ServerSession
server_session_init = record {
  allocations = empty_table Allocation max_allocs;
  streams = empty_table ℕ max_streams;
  events = empty_table EventEntry max_events;
  transfers = empty_table TransferEntry max_transfers;
  modules = empty_table ModuleEntry max_modules;
  kernels = empty_table KernelEntry max_kernels;
  graphs = empty_table GraphEntry 128;
  graph_execs = empty_table GraphExecEntry 128;
  next_alloc_id = 1;
  next_module_id = 1;
  next_kernel_id = 1;
  next_stream_id = 1;
  next_event_id = 1;
  next_transfer_id = 1;
}

-- A session and the driver calls made so far, the last one first.
pub record World : Type 0 where
  pub session : ServerSession
  pub calls : List BackendCall

-- What `send_response` sends after the opcode and the request id. That sending fails, which ends
-- the session, is not modelled.
pub record Response : Type 0 where
  pub status : ProtocolStatus
  pub payload : List ℕ

abbrev pub Handler : Type 0
Handler = World → List ℕ → World × Response

abbrev pub reply : World → ProtocolStatus → World × Response
reply w s = (w, record { status = s; payload = [] })

abbrev pub reply_with : World → List ℕ → World × Response
reply_with w bytes = (w, record { status = ok; payload = bytes })

-- One call of the driver: its answer, and the world after it.
abbrev pub ask : Driver → BackendCall → World → Answer
ask d c w = d.answer (c ∷ w.calls)

abbrev pub called : BackendCall → World → World
called c w = record w { calls = c ∷ w.calls }

abbrev pub with_session : World → ServerSession → World
with_session w s = record w { session = s }

-- `a + b` on a uint64_t, and on a device pointer.
abbrev pub add_u64 : ℕ → ℕ → ℕ
add_u64 a b = (a + b) % 2 ^ 64

unfoldable pub find_allocation_record : ServerSession → ℕ → Option Allocation
find_allocation_record s id = find id s.allocations

-- An allocation of a graph counts only while the graph has it mapped.
unfoldable pub find_allocation : ServerSession → ℕ → Option Allocation
unfolding find_allocation_record
find_allocation s id = do
  a ← find_allocation_record s id
  if a.graph_id == 0 || a.graph_active then some a else none

unfoldable pub find_stream : ServerSession → ℕ → Option ℕ
find_stream s id = find id s.streams

unfoldable pub find_event : ServerSession → ℕ → Option EventEntry
find_event s id = find id s.events

unfoldable pub find_transfer : ServerSession → ℕ → Option TransferEntry
find_transfer s id = find id s.transfers

unfoldable pub find_module : ServerSession → ℕ → Option ModuleEntry
find_module s id = find id s.modules

unfoldable pub find_kernel : ServerSession → ℕ → Option KernelEntry
find_kernel s id = find id s.kernels

-- Stream 0 is the default stream.
unfoldable pub resolve_stream_id : ServerSession → ℕ → Option ℕ
unfolding find_stream
resolve_stream_id s stream_id = if stream_id == 0 then some 0 else find_stream s stream_id
