-- ===== src/Server.antt =====
-- server/runtime_server.c: the sessions of the remote runtime server.
pub mod Table
pub mod Backend
pub mod Session
pub mod GraphMemory
pub mod Memory
pub mod Streams
pub mod Events
pub mod Transfers
pub mod Handlers
pub mod Registry
pub mod Dispatch
pub mod Launches
pub mod Modules
pub mod Tests
