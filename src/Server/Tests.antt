-- ===== src/Server/Tests.antt =====
-- Concrete sessions of server/runtime_server.c, and runs of its handlers.
mod Handlers
mod Lifetimes
mod Modules
pub mod Sessions
use x_remote_runtime.Prelude.{
  ℕ, ◌+◌, ◌<◌, ◌^◌, ◌≡◌, refl, arith, List, [], ◌∷◌, ◌++◌, Option, some, none, replicate,
}
use x_remote_runtime.Protocol.Words.{write_u32, write_u64}
use x_remote_runtime.Server.Backend.{BackendCall, CuResult, success, Answer, Driver}
use x_remote_runtime.Server.Session.{World, server_session_init, ServerSession}
use x_remote_runtime.Server.Handlers.{Opcode, handler}
use x_remote_runtime.Server.Handlers.Sessions.{IsTable, IsValid, HasIds}
use x_remote_runtime.Server.Handlers.Invariant.{handler-IsValid}

-- A driver that always succeeds.
abbrev pub willing : List BackendCall → Answer
willing calls = record { result = success; value = 4096; pitch = 512; bytes = 1 ∷ 2 ∷ [] }

abbrev pub driver : Driver
driver = record {
  answer = willing;
  stream_default = 0;
  stream_non_blocking = 1;
  event_default = 0;
  event_blocking_sync = 1;
  event_disable_timing = 2;
}

abbrev pub start : World
start = record { session = server_session_init; calls = [] }

abbrev pub word : ℕ → List ℕ
word n = write_u64 [] n

pub start-IsValid : IsValid start.session
unfolding server_session_init
start-IsValid = record {
  allocations = record { distinct = tt; below = tt; full_length = refl; positive = omega arith };
  streams = record { distinct = tt; below = tt; full_length = refl; positive = omega arith };
  events = record { distinct = tt; below = tt; full_length = refl; positive = omega arith };
  transfers = record { distinct = tt; below = tt; full_length = refl; positive = omega arith };
}

pub start-HasIds : HasIds start.session
unfolding server_session_init
start-HasIds = record {
  alloc = omega arith;
  stream = omega arith;
  event = omega arith;
  transfer = omega arith;
}

-- One allocation of 256 bytes.
abbrev pub with_allocation : World
with_allocation = (handler driver Opcode.alloc start (word 256)).0

pub with_allocation-IsValid : IsValid with_allocation.session
with_allocation-IsValid =
    handler-IsValid driver Opcode.alloc start (word 256) start-IsValid start-HasIds
