-- ===== src/Ipc.antt =====
-- kernel/src/ipc: endpoints, event queues, signals and wait sets.
pub mod World
pub mod WaitSet
pub mod EventQueue
pub mod Signal
pub mod Endpoint
