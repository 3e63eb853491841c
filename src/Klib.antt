-- ===== src/Klib.antt =====
-- kernel/src/lib: the functions on strings and memory.
pub mod String
pub mod Memory
pub mod Convert
