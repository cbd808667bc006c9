-- ===== src/Mm.antt =====
-- kernel/mm: physical memory.
pub mod Pmm
pub mod Heap
