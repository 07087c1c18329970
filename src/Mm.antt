-- ===== src/Mm.antt =====
-- kernel/src/mm: the allocators.
pub mod Buddy
