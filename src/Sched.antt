-- ===== src/Sched.antt =====
-- kernel/src/sched: run queues, threads, and the choice of a CPU.
pub mod RunQueue
pub mod PerCpu
pub mod Thread
pub mod Smp
