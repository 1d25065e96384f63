-- ===== src/Client.antt =====
-- The client runtime of src/corex_remote_cuda.c: its remote calls.
pub mod Rpc
pub mod Calls
pub mod Arena
pub mod Regions
pub mod Copies
pub mod Transfers
pub mod Launches
mod Tests
