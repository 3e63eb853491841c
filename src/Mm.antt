-- ===== src/Mm.antt =====
-- kernel/src/mm: physical pages and the bitmap that records which are in use.
pub mod Bitmap
pub mod Pmm
pub mod Heap
