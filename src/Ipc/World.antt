-- ===== src/Ipc/World.antt =====
-- The state that the IPC objects of kernel/src/ipc share: the objects by their addresses, the
-- threads and the schedulers. An object's lock is held from its first access to its last, so an
-- operation is one step; for signals, see Signal.
pub mod Threads
pub mod Sample
use seraph.Prelude.{
  ℕ, zero, suc, ◌+◌, Bool, true, false, Option, none, some, ◌==◌, if◌then◌else◌, update,
}
use seraph.Prelude.Chain.{Links}
use seraph.Sched.Thread.{ThreadControlBlock, ThreadState, IpcThreadState}
use seraph.Sched.Smp.{Machine, write_thread, enqueue_and_wake, select_target_cpu}

pub data WaitSetSourceTag : Type 0 where
  endpoint : WaitSetSourceTag
  signal : WaitSetSourceTag
  event_queue : WaitSetSourceTag

pub record WaitSetMember : Type 0 where
  pub source_ptr : ℕ
  pub source_tag : WaitSetSourceTag
  pub token : ℕ

pub record WaitSetState : Type 0 where
  pub members : ℕ → Option WaitSetMember
  pub member_count : ℕ
  pub ready_ring : ℕ → ℕ
  pub ready_head : ℕ
  pub ready_tail : ℕ
  pub waiter : ℕ

-- `ring_null` says that the pointer to the ring is null.
pub record EventQueueState : Type 0 where
  pub ring : ℕ → ℕ
  pub ring_null : Bool
  pub capacity : ℕ
  pub count : ℕ
  pub write_idx : ℕ
  pub read_idx : ℕ
  pub waiter : ℕ
  pub wait_set : ℕ
  pub wait_set_member_idx : ℕ

pub record SignalState : Type 0 where
  pub bits : ℕ
  pub waiter : ℕ
  pub wait_set : ℕ
  pub wait_set_member_idx : ℕ
  pub has_observer : ℕ

pub record EndpointState : Type 0 where
  pub send_head : ℕ
  pub send_tail : ℕ
  pub recv_head : ℕ
  pub recv_tail : ℕ
  pub wait_set : ℕ
  pub wait_set_member_idx : ℕ

-- `wait_next` is the field `ipc_wait_next` of all threads.
pub record World : Type 0 where
  pub machine : Machine
  pub wait_next : Links
  pub wait_sets : ℕ → WaitSetState
  pub event_queues : ℕ → EventQueueState
  pub signals : ℕ → SignalState
  pub endpoints : ℕ → EndpointState

abbrev pub put_wait_set : World → ℕ → WaitSetState → World
put_wait_set w p s = record w { wait_sets = update w.wait_sets p s }

abbrev pub put_event_queue : World → ℕ → EventQueueState → World
put_event_queue w p q = record w { event_queues = update w.event_queues p q }

abbrev pub put_signal : World → ℕ → SignalState → World
put_signal w p s = record w { signals = update w.signals p s }

-- A blocked thread gets a value and is ready again.
unfoldable pub deliver : Machine → ℕ → ℕ → Machine
deliver m tcb value = write_thread m tcb (record (m.threads tcb) {
  wakeup_value = value;
  state = ThreadState.ready;
  ipc_state = IpcThreadState.idle;
  blocked_on_object = 0;
})

-- The same where the code leaves the back-pointer to the object.
unfoldable pub deliver_only : Machine → ℕ → ℕ → Machine
deliver_only m tcb value = write_thread m tcb (record (m.threads tcb) {
  wakeup_value = value;
  state = ThreadState.ready;
  ipc_state = IpcThreadState.idle;
})

-- The woken thread goes to the CPU chosen for it.
unfoldable pub enqueue_woken : Machine → ℕ → Option Machine
enqueue_woken m tcb = enqueue_and_wake m tcb (select_target_cpu m tcb) (m.threads tcb).priority

-- The caller blocks on an object.
unfoldable pub block : Machine → ℕ → IpcThreadState → ℕ → Machine
block m caller reason object = write_thread m caller (record (m.threads caller) {
  context_saved = 0;
  state = ThreadState.blocked;
  ipc_state = reason;
  blocked_on_object = object;
})
