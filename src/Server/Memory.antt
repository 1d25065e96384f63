-- ===== src/Server/Memory.antt =====
-- The memory handlers of server/runtime_server.c.
pub mod Alloc
pub mod Copy
pub mod Fill
