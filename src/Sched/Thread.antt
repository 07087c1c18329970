-- ===== src/Sched/Thread.antt =====
-- kernel/src/sched/thread.rs: the state of a thread, as far as scheduling and IPC read and write
-- it. The registers, the stack, the address space and the links of the wait queues are left out.
use seraph.Prelude.{ℕ}

pub data ThreadState : Type 0 where
  created : ThreadState
  ready : ThreadState
  running : ThreadState
  blocked : ThreadState
  stopped : ThreadState
  exited : ThreadState

-- `idle` is the constructor `None` of the source.
pub data IpcThreadState : Type 0 where
  idle : IpcThreadState
  blocked_on_send : IpcThreadState
  blocked_on_recv : IpcThreadState
  blocked_on_reply : IpcThreadState
  blocked_on_signal : IpcThreadState
  blocked_on_event_queue : IpcThreadState
  blocked_on_wait_set : IpcThreadState

-- kernel/src/ipc/message.rs: a message, with its data in `words`.
pub record Message : Type 0 where
  pub label : ℕ
  pub token : ℕ
  pub words : ℕ → ℕ
  pub data_count : ℕ
  pub cap_slots : ℕ → ℕ
  pub cap_count : ℕ

-- `Message::default()`
abbrev pub no_message : Message
no_message = record {
  label = 0;
  token = 0;
  words = λ _. 0;
  data_count = 0;
  cap_slots = λ _. 0;
  cap_count = 0;
}

pub record ThreadControlBlock : Type 0 where
  pub state : ThreadState
  pub priority : ℕ
  pub cpu_affinity : ℕ
  pub preferred_cpu : ℕ
  pub ipc_state : IpcThreadState
  pub ipc_msg : Message
  pub reply_tcb : ℕ
  pub wakeup_value : ℕ
  pub blocked_on_object : ℕ
  pub context_saved : ℕ
