-- ===== src/Fatbin.antt =====
-- The compiler's fat binary: src/corex_fatbin_runtime.c. A buffer is the list of its bytes, so that a
-- read at an offset may fall outside it: the model then says `fault`, where the code has undefined
-- behaviour.
pub mod Elf
pub mod Extract
mod Tests
