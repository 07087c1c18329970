-- ===== src/Sched/Smp/Examples.antt =====
-- The choice of a CPU at a small input.
use seraph.Prelude.{ℕ, ◌<◌, ◌≤◌, ◌≡◌, ◌≢◌, ◌⊎◌, ◌-◌, true, [], arith, refl}
use seraph.Sched.Thread.{no_message, ThreadState, IpcThreadState}
use seraph.Sched.PerCpu.{Scheduler}
use seraph.Sched.Smp.{Machine, load_of, least_load, select_target_cpu, affinity_any}
use seraph.Sched.Smp.Balance.{select_target_cpu-least}

abbrev scheduler : ℕ → Scheduler
scheduler i = record {
  queues = λ _. record { head = 0; tail = 0 };
  non_empty = 0;
  current = 0;
  idle = 0;
  cpu_id = i;
  next = λ _. 0;
  cpu_load = λ _. 0;
}

-- Each CPU has one thread more than the next.
abbrev two_cpus : Machine
two_cpus = record {
  schedulers = scheduler;
  next = λ _. 0;
  cpu_load = λ i. 2 - i;
  threads = λ _. record {
    state = ThreadState.blocked;
    priority = 10;
    cpu_affinity = affinity_any;
    preferred_cpu = 0;
    ipc_state = IpcThreadState.idle;
    ipc_msg = no_message;
    reply_tcb = 0;
    wakeup_value = 0;
    blocked_on_object = 0;
    context_saved = 1;
  };
  cpu_count = 2;
  current_cpu = 0;
  is_idle = λ _. true;
  interrupts = [];
}

run_select : select_target_cpu two_cpus 7 ≡ 1
unfolding select_target_cpu least_load load_of
run_select = refl

select_example :
    ((two_cpus.threads 7).cpu_affinity ≢ affinity_any)
      × (select_target_cpu two_cpus 7 ≡ (two_cpus.threads 7).cpu_affinity)
    ⊎ ((two_cpus.threads 7).cpu_affinity ≡ affinity_any)
      × (select_target_cpu two_cpus 7 < 2)
      × ((i : ℕ) → i < 2 → load_of two_cpus (select_target_cpu two_cpus 7) ≤ load_of two_cpus i)
unfolding load_of
select_example = select_target_cpu-least two_cpus 7 (omega arith) (λ i h. omega arith)
