-- ===== src/Metadata.antt =====
-- The kernel metadata of a device image: src/corex_metadata.c.
pub mod Text
pub mod Reader
pub mod Module
pub mod Image
mod Tests
