-- ===== src/Cap.antt =====
-- kernel/src/cap: capability slots, capability spaces, and the derivation tree.
pub mod Rights
pub mod Slot
pub mod CSpace
pub mod Lookup
pub mod Derivation
pub mod Delete
pub mod Derive
pub mod Family
