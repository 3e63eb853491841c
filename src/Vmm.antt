-- ===== src/Vmm.antt =====
-- kernel/src/vmm: virtual memory areas and page tables.
pub mod Vma
pub mod Paging
pub mod Fault
