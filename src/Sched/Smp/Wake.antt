-- ===== src/Sched/Smp/Wake.antt =====
-- `enqueue_and_wake` does not panic for a thread whose priority and CPU are in range.
use seraph.Prelude.{
  ℕ, ◌<◌, ◌≡◌, ◌∙◌, some, arith, lt→ltb, if◌then◌else◌, ◌==◌, update, update_self, ap,
}
use seraph.Sched.Thread.{ThreadControlBlock}
use seraph.Sched.PerCpu
use seraph.Sched.PerCpu.{Scheduler, num_priority_levels, increment_load}
use seraph.Sched.PerCpu.Dispatch.{enqueue-some}
use seraph.Sched.Smp.{
  Machine, max_cpus, scheduler_for, put_back, write_thread, after_enqueue, wake_idle_cpu, load_of,
  least_load, affinity_any, enqueue_and_wake, select_target_cpu,
}

scheduler_for-some :
    (m : Machine) (id : ℕ)
    → id < max_cpus
    → scheduler_for m id ≡ some (record (m.schedulers id) { next = m.next; cpu_load = m.cpu_load })
unfolding scheduler_for
scheduler_for-some m id h = rw (lt→ltb id max_cpus h)

wake_idle_cpu-threads : (m : Machine) (target : ℕ) → (wake_idle_cpu m target).threads ≡ m.threads
unfolding wake_idle_cpu
wake_idle_cpu-threads m target = ground arith

after_enqueue-threads :
    (m : Machine) (tcb target : ℕ) (s : Scheduler)
    → (after_enqueue m tcb target s).threads
      ≡ update m.threads tcb (record (m.threads tcb) { preferred_cpu = target })
unfolding after_enqueue put_back write_thread
after_enqueue-threads m tcb target s = wake_idle_cpu-threads _ target

-- The only thing written to the thread is the CPU.
pub enqueue_and_wake-some :
    (m : Machine) (tcb target priority : ℕ)
    → target < max_cpus
    → priority < num_priority_levels
    → (m' : Machine) × (enqueue_and_wake m tcb target priority ≡ some m')
      × (m'.threads ≡ update m.threads tcb (record (m.threads tcb) { preferred_cpu = target }))
unfolding enqueue_and_wake
enqueue_and_wake-some m tcb target priority ht hp =
    let s : Scheduler = record (m.schedulers target) { next = m.next; cpu_load = m.cpu_load } in
    let s' = PerCpu.push (increment_load s) tcb priority in
    (
      after_enqueue m tcb target s',
      rw (scheduler_for-some m target ht, enqueue_and_wake, enqueue-some s tcb priority hp),
      after_enqueue-threads m tcb target s',
    )

-- A thread that can be woken: its priority is in range, and so is the CPU chosen for it.
pub record IsWakeable (m : Machine) (tcb : ℕ) : Type 0 where
  pub cpu : select_target_cpu m tcb < max_cpus
  pub level : (m.threads tcb).priority < num_priority_levels

-- What is written to a woken thread does not matter for that.
pub write-IsWakeable :
    (m : Machine) (tcb : ℕ) (t : ThreadControlBlock)
    → t.cpu_affinity ≡ (m.threads tcb).cpu_affinity
    → t.priority ≡ (m.threads tcb).priority
    → IsWakeable m tcb
    → IsWakeable (write_thread m tcb t) tcb
unfolding select_target_cpu write_thread load_of
write-IsWakeable m tcb t a p v =
    let self = update_self m.threads tcb t in
    let chosen =
      ap (λ (x : ℕ). if x == affinity_any then (least_load (load_of m) m.cpu_count).1 else x)
        (ap (λ (t : ThreadControlBlock). t.cpu_affinity) self ∙ a) in
    record {
      cpu = omega (arith, chosen, v.cpu);
      level = omega (arith, ap (λ (t : ThreadControlBlock). t.priority) self, p, v.level);
    }
