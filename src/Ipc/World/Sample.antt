-- ===== src/Ipc/World/Sample.antt =====
-- A small world for tests: two CPUs, an event queue at 1 for two payloads, a signal at 2, and a
-- wait set at 3 that both belong to. Its member 0 has been removed, its member 1 is there.
use seraph.Prelude.{ℕ, true, false, none, some, [], ◌∷◌, ◌==◌, if◌then◌else◌, refl, arith, update}
use seraph.Prelude.Ring.{IsRing, empty-IsRing, push-IsRing}
use seraph.Sched.PerCpu.{Scheduler}
use seraph.Sched.Thread.{no_message, ThreadState, IpcThreadState}
use seraph.Sched.Smp.{Machine, affinity_any}
use seraph.Ipc.World.{World, WaitSetState, WaitSetSourceTag, EventQueueState, SignalState}

abbrev scheduler : ℕ → Scheduler
scheduler i = record {
  queues = λ _. record { head = 0; tail = 0 };
  non_empty = 0;
  current = 0;
  idle = 0;
  cpu_id = i;
  next = λ _. 0;
  cpu_load = λ _. 0;
}

abbrev pub machine : Machine
machine = record {
  schedulers = scheduler;
  next = λ _. 0;
  cpu_load = λ i. if i == 0 then 3 else 1;
  threads = λ _. record {
    state = ThreadState.running;
    priority = 10;
    cpu_affinity = affinity_any;
    preferred_cpu = 0;
    ipc_state = IpcThreadState.idle;
    ipc_msg = no_message;
    reply_tcb = 0;
    wakeup_value = 0;
    blocked_on_object = 0;
    context_saved = 1;
  };
  cpu_count = 2;
  current_cpu = 0;
  is_idle = λ _. true;
  interrupts = [];
}

abbrev pub wait_set : WaitSetState
wait_set = record {
  members = λ i.
      if i == 1
      then some (record { source_ptr = 2; source_tag = WaitSetSourceTag.signal; token = 77 })
      else none;
  member_count = 1;
  ready_ring = update (update (λ _. 0) 0 0) 1 1;
  ready_head = 0;
  ready_tail = 2;
  waiter = 0;
}

abbrev pub event_queue : EventQueueState
event_queue = record {
  ring = λ _. 0;
  ring_null = false;
  capacity = 2;
  count = 0;
  write_idx = 1;
  read_idx = 1;
  waiter = 0;
  wait_set = 3;
  wait_set_member_idx = 0;
}

abbrev pub signal : SignalState
signal = record { bits = 0; waiter = 0; wait_set = 3; wait_set_member_idx = 1; has_observer = 1 }

abbrev pub world : World
world = record {
  machine = machine;
  wait_next = λ _. 0;
  wait_sets = λ _. wait_set;
  event_queues = λ _. event_queue;
  signals = λ _. signal;
  endpoints = λ _. record {
    send_head = 0;
    send_tail = 0;
    recv_head = 0;
    recv_tail = 0;
    wait_set = 0;
    wait_set_member_idx = 0;
  };
}

-- Both notifications are pending, the one of the removed member first.
pub wait_set-IsRing : IsRing 16 wait_set.ready_ring 0 2 (0 ∷ 1 ∷ [])
wait_set-IsRing =
    push-IsRing 16 (update (λ _. 0) 0 0) 0 1 (0 ∷ []) 1
      (push-IsRing 16 (λ _. 0) 0 0 [] 0 (empty-IsRing 16 (λ _. 0) 0 0 (omega arith) refl)
        (omega arith))
      (omega arith)

pub event_queue-IsRing : IsRing 3 event_queue.ring 1 1 []
event_queue-IsRing = empty-IsRing 3 event_queue.ring 1 1 (omega arith) refl
