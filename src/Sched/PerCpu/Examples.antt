-- ===== src/Sched/PerCpu/Examples.antt =====
-- kernel/src/sched/run_queue.rs at small inputs: runs of the model, and the theorems applied.
use seraph.Prelude.{
  ℕ, ◌<◌, ◌≡◌, ◌≢◌, ◌⊎◌, refl, none, some, List, [], ◌∷◌, arith, ◌==◌, ==_ne, update, NotIn, length,
  take_result, Bool-cases, inl, inr,
}
use seraph.Prelude.Bits.{leading_zeros, bit}
use seraph.Prelude.Chain.{Links}
use seraph.Sched.RunQueue
use seraph.Sched.RunQueue.{RunQueue}
use seraph.Sched.PerCpu.{
  Scheduler, new, num_priority_levels, increment_load, enqueue, dequeue_highest, dequeue_at,
  has_runnable, remove_from_queue, change_priority, settle, clear_bit, decrement_load, current_load,
}
use seraph.Sched.PerCpu
use seraph.Sched.PerCpu.Ready.{Ready, Refines, push, drop}
use seraph.Sched.PerCpu.Dispatch.{
  new-Refines, enqueue-Refines, dequeue_highest-Refines, remove_from_queue-Refines,
  change_priority-Refines,
}

abbrev no_links : Links
no_links = λ _. 0

abbrev empty : Scheduler
empty = new no_links (λ _. 0)

-- Thread 7 at priority 3, and behind it thread 8.
abbrev one : Scheduler
one = PerCpu.push (increment_load empty) 7 3

abbrev two : Scheduler
two = PerCpu.push (increment_load one) 8 3

abbrev ready_0 : Ready
ready_0 = λ _. []

abbrev ready_1 : Ready
ready_1 = push ready_0 7 3

abbrev ready_2 : Ready
ready_2 = push ready_1 8 3

run_one : enqueue empty 7 3 ≡ some one
unfolding enqueue
run_one = refl

run_two : enqueue one 8 3 ≡ some two
unfolding enqueue
run_two = refl

one-Refines : Refines one ready_1
one-Refines =
    take_result (enqueue empty 7 3) one run_one (λ s. Refines s ready_1)
      (enqueue-Refines empty ready_0 (new-Refines no_links (λ _. 0)) 7 3 (omega arith) (omega arith)
        (λ o h. tt))

apart_2 : (o : ℕ) → o < num_priority_levels → NotIn 8 (ready_1 o)
apart_2 o h = elim (Bool-cases (o == 3)) [
  | inl e ↦ rw e (λ z. omega (arith, z), tt)
  | inr e ↦ rw e tt
]

two-Refines : Refines two ready_2
two-Refines =
    take_result (enqueue one 8 3) two run_two (λ s. Refines s ready_2)
      (enqueue-Refines one ready_1 one-Refines 8 3 (omega arith) (omega arith) apart_2)

highest_example :
    (((p : ℕ) → p < num_priority_levels → ready_2 p ≡ [])
      × (dequeue_highest two ≡ some (two.idle, two)))
    ⊎ ((p : ℕ) × (x : ℕ) × (xs : List ℕ) × (s' : Scheduler) × (p < num_priority_levels)
        × (ready_2 p ≡ x ∷ xs)
        × ((o : ℕ) → p < o → o < num_priority_levels → ready_2 o ≡ [])
        × (dequeue_highest two ≡ some (x, s'))
        × Refines s' (update ready_2 p xs)
        × ((o : ℕ) → o < num_priority_levels → NotIn x (update ready_2 p xs o)))
highest_example = dequeue_highest-Refines two ready_2 two-Refines

enqueue_example : (s' : Scheduler) × (enqueue one 8 3 ≡ some s') × Refines s' (push ready_1 8 3)
enqueue_example = enqueue-Refines one ready_1 one-Refines 8 3 (omega arith) (omega arith) apart_2

length_2 : length (ready_2 3) ≡ 2
length_2 = refl

remove_from_queue_example :
    (s' : Scheduler) × (remove_from_queue 5 two 7 3 ≡ some s')
    × Refines s' (drop ready_2 7 3)
    × (s'.cpu_load ≡ two.cpu_load)
remove_from_queue_example =
    remove_from_queue-Refines two ready_2 two-Refines 5 7 3 (omega (arith, length_2)) (omega arith)
      (omega arith)

elsewhere_2 : (o : ℕ) → o < num_priority_levels → o ≢ 3 → NotIn 7 (ready_2 o)
elsewhere_2 o h n = rw (==_ne o 3 n) tt

change_priority_example :
    (s' : Scheduler) × (change_priority 5 two 7 3 9 ≡ some s')
    × Refines s' (push (drop ready_2 7 3) 7 9)
change_priority_example =
    change_priority-Refines two ready_2 two-Refines 5 7 3 9 (omega (arith, length_2)) (omega arith)
      (omega arith) (omega arith) (λ e. omega (arith, e)) elsewhere_2

-- What is left after the first thread has come out, and after it has been removed.
abbrev left : Scheduler
left = elim (dequeue_highest two) [ none ↦ two | some (x, s) ↦ s ]

abbrev removed : Scheduler
removed = elim (remove_from_queue 5 two 7 3) [ none ↦ two | some s ↦ s ]

run_left : dequeue_highest two ≡ some (7, left)
unfolding dequeue_highest dequeue_at PerCpu.push increment_load new leading_zeros bit RunQueue.new
    RunQueue.enqueue RunQueue.dequeue RunQueue.is_empty settle clear_bit decrement_load
run_left = refl
