-- ===== src/Sched/PerCpu.antt =====
-- kernel/src/sched/run_queue.rs, `PerCpuScheduler`: 32 run queues and the bit mask of those that
-- are not empty. The methods run on the scheduler beside the two things that it shares with the
-- other CPUs: the links of the thread control blocks and the load counters. The debug assertions
-- on the magic cookie are left out.
pub mod Ready
mod Frame
pub mod Dispatch
pub mod Load
mod Examples
use seraph.Prelude.{
  ℕ, ◌+◌, ◌-◌, ◌%◌, ◌^◌, Bool, true, false, not, ◌||◌, ◌&&◌, Option, none, some, ◌==◌, ltb,
  if◌then◌else◌, update, bit_or, bit_and,
}
use seraph.Prelude.Bits.{shift_one, complement, leading_zeros}
use seraph.Prelude.Chain.{Links}
use seraph.Sched.RunQueue
use seraph.Sched.RunQueue.{RunQueue}

abbrev pub num_priority_levels : ℕ
num_priority_levels = 32

-- `cpu_load` is the array `CPU_LOAD`, one `AtomicU32` for each CPU.
pub record Scheduler : Type 0 where
  pub queues : ℕ → RunQueue
  pub non_empty : ℕ
  pub current : ℕ
  pub idle : ℕ
  pub cpu_id : ℕ
  pub next : Links
  pub cpu_load : ℕ → ℕ

pub new : Links → (ℕ → ℕ) → Scheduler
new next load = record {
  queues = λ _. RunQueue.new;
  non_empty = 0;
  current = 0;
  idle = 0;
  cpu_id = 0;
  next = next;
  cpu_load = load;
}

-- Atomic addition and subtraction wrap.
pub increment_load : Scheduler → Scheduler
increment_load s = record s {
  cpu_load = update s.cpu_load s.cpu_id ((s.cpu_load s.cpu_id + 1) % 2 ^ 32);
}

pub decrement_load : Scheduler → Scheduler
decrement_load s = record s {
  cpu_load = update s.cpu_load s.cpu_id ((s.cpu_load s.cpu_id + 2 ^ 32 - 1) % 2 ^ 32);
}

pub current_load : Scheduler → ℕ
current_load s = s.cpu_load s.cpu_id

-- `queues[p].enqueue(tcb)` and the bit of `p`.
pub push : Scheduler → ℕ → ℕ → Scheduler
push s tcb p =
    let (q, next) = RunQueue.enqueue (s.queues p) s.next tcb in
    record s {
      queues = update s.queues p q;
      non_empty = bit_or s.non_empty (shift_one p);
      next = next;
    }

-- Clear the bit of `p`.
pub clear_bit : Scheduler → ℕ → Scheduler
clear_bit s p = record s { non_empty = bit_and s.non_empty (complement 32 (shift_one p)) }

-- `none` is the panic of an index out of range.
pub enqueue : Scheduler → ℕ → ℕ → Option Scheduler
enqueue s tcb p = if ltb p num_priority_levels then some (push (increment_load s) tcb p) else none

-- The queue of `p` after a change, and the bit of `p` cleared where the code clears it.
pub settle : Scheduler → ℕ → RunQueue → Links → Bool → Scheduler
unfolding clear_bit
settle s p q next empty =
    let s' = record s { queues = update s.queues p q; next = next } in
    if empty then clear_bit s' p else s'

-- The body of `dequeue_highest` once the priority is known. `none` is the panic "non_empty bit set
-- but queue is empty".
pub dequeue_at : Scheduler → ℕ → Option (ℕ × Scheduler)
dequeue_at s p =
    let (tcb, q, next) = RunQueue.dequeue (s.queues p) s.next in
    if tcb == 0 then none else some (tcb, decrement_load (settle s p q next (RunQueue.is_empty q)))

pub dequeue_highest : Scheduler → Option (ℕ × Scheduler)
dequeue_highest s =
    if s.non_empty == 0 then some (s.idle, s) else dequeue_at s (31 - leading_zeros 32 s.non_empty)

pub set_idle : Scheduler → ℕ → Scheduler
set_idle s tcb = record s { idle = tcb }

pub set_current : Scheduler → ℕ → Scheduler
set_current s tcb = record s { current = tcb }

pub has_runnable : Scheduler → Bool
has_runnable s = not (s.non_empty == 0)

-- `queues[p].remove(tcb) && queues[p].is_empty()` and the bit of `p`; the loop of `remove` runs on
-- fuel, and `none` means that it ran out.
pub take_out : ℕ → Scheduler → ℕ → ℕ → Option Scheduler
take_out fuel s tcb p = elim (RunQueue.remove fuel (s.queues p) s.next tcb) [
  | none ↦ none
  | some (found, q, next) ↦ some (settle s p q next (found && RunQueue.is_empty q))
]

pub remove_from_queue : ℕ → Scheduler → ℕ → ℕ → Option Scheduler
remove_from_queue fuel s tcb p = if ltb p num_priority_levels then take_out fuel s tcb p else some s

-- Both priorities index the array of queues, so an out of range one panics.
pub change_priority : ℕ → Scheduler → ℕ → ℕ → ℕ → Option Scheduler
change_priority fuel s tcb old new =
    if old == new
    then some s
    else if ltb old num_priority_levels && ltb new num_priority_levels
    then elim (take_out fuel s tcb old) [ none ↦ none | some s' ↦ some (push s' tcb new) ]
    else none
