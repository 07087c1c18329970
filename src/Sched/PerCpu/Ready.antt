-- ===== src/Sched/PerCpu/Ready.antt =====
-- What a scheduler promises: for each priority a list of ready threads.
use seraph.Prelude.{ℕ, ◌<◌, ◌^◌, ◌≡◌, not, List, [], ◌∷◌, ◌++◌, ◌==◌, update, All, length, erase}
use seraph.Prelude.Bits.{bit}
use seraph.Sched.RunQueue.Fifo.{Holds}
use seraph.Sched.PerCpu.{Scheduler, num_priority_levels}

-- The threads that are ready at each priority, first in line first.
abbrev pub Ready : Type 0
Ready = ℕ → List ℕ

abbrev pub push : Ready → ℕ → ℕ → Ready
push r tcb p = update r p (r p ++ tcb ∷ [])

abbrev pub drop : Ready → ℕ → ℕ → Ready
drop r tcb p = update r p (erase tcb (r p))

-- The scheduler holds the ready threads: each queue its list, the bit mask the queues that are not
-- empty, and no thread stands in two queues, since each has one home.
pub record Refines (s : Scheduler) (r : Ready) : Type 0 where
  pub queue : (p : ℕ) → p < num_priority_levels → Holds s.next (s.queues p) (r p)
  pub mask : (p : ℕ) → p < num_priority_levels → bit s.non_empty p ≡ not (length (r p) == 0)
  pub mask_lt : s.non_empty < 2 ^ 32
  pub home : ℕ → ℕ
  pub at_home : (p : ℕ) → p < num_priority_levels → All (λ x. home x ≡ p) (r p)
