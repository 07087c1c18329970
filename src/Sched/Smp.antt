-- ===== src/Sched/Smp.antt =====
-- kernel/src/sched/mod.rs: the schedulers of all CPUs, and how a woken thread gets to one. The
-- lock is held around the enqueue, and wakeup interrupts are recorded in the order they are sent.
pub mod Balance
pub mod Wake
mod Examples
use seraph.Prelude.{
  ℕ, zero, suc, ◌+◌, ◌-◌, ◌^◌, Bool, Option, none, some, List, ◌∷◌, ◌==◌, ltb, if◌then◌else◌,
  update,
}
use seraph.Prelude.Chain.{Links}
use seraph.Sched.Thread.{ThreadControlBlock}
use seraph.Sched.PerCpu
use seraph.Sched.PerCpu.{Scheduler}

abbrev pub max_cpus : ℕ
max_cpus = 64

abbrev pub affinity_any : ℕ
affinity_any = 4294967295

-- The links of the run queues and the load counters are shared by the schedulers, so they stand
-- here once; `is_idle` is the bit of each CPU in the mask of idle ones.
pub record Machine : Type 0 where
  pub schedulers : ℕ → Scheduler
  pub next : Links
  pub cpu_load : ℕ → ℕ
  pub threads : ℕ → ThreadControlBlock
  pub cpu_count : ℕ
  pub current_cpu : ℕ
  pub is_idle : ℕ → Bool
  pub interrupts : List ℕ

-- `none` is the panic of an id out of range.
pub scheduler_for : Machine → ℕ → Option Scheduler
scheduler_for m id =
    if ltb id max_cpus
    then some (record (m.schedulers id) { next = m.next; cpu_load = m.cpu_load })
    else none

-- A scheduler after one of its methods.
pub put_back : Machine → ℕ → Scheduler → Machine
put_back m id s = record m {
  schedulers = update m.schedulers id s;
  next = s.next;
  cpu_load = s.cpu_load;
}

-- A thread after a write to its fields.
unfoldable pub write_thread : Machine → ℕ → ThreadControlBlock → Machine
write_thread m tcb t = record m { threads = update m.threads tcb t }

pub wake_idle_cpu : Machine → ℕ → Machine
wake_idle_cpu m target =
    if target == m.current_cpu
    then m
    else if m.is_idle target
    then record m { interrupts = target ∷ m.interrupts }
    else m

-- What follows the enqueue: the thread remembers the CPU, and the CPU is woken.
pub after_enqueue : Machine → ℕ → ℕ → Scheduler → Machine
after_enqueue m tcb target s =
    let m' = put_back m target s in
    wake_idle_cpu (write_thread m' tcb (record (m'.threads tcb) { preferred_cpu = target })) target

pub enqueue_and_wake : Machine → ℕ → ℕ → ℕ → Option Machine
enqueue_and_wake m tcb target priority = elim (scheduler_for m target) [
  | none ↦ none
  | some s ↦ elim (PerCpu.enqueue s tcb priority) [
    | none ↦ none
    | some s' ↦ some (after_enqueue m tcb target s')
  ]
]

-- The loop over the CPUs below `n`: the least load below `u32::MAX` that was seen, and its CPU.
unfoldable pub least_load : (ℕ → ℕ) → ℕ → ℕ × ℕ
least_load load zero = (2 ^ 32 - 1, 0)
least_load load (suc n) =
    let (min_load, min_cpu) = least_load load n in
    if ltb (load n) min_load then (load n, n) else (min_load, min_cpu)

-- `SCHEDULERS[cpu].current_load()`
unfoldable pub load_of : Machine → ℕ → ℕ
load_of m cpu = m.cpu_load (m.schedulers cpu).cpu_id

unfoldable pub select_target_cpu : Machine → ℕ → ℕ
select_target_cpu m tcb =
    let affinity = (m.threads tcb).cpu_affinity in
    if affinity == affinity_any then (least_load (load_of m) m.cpu_count).1 else affinity
