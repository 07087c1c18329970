-- ===== src/Sched/RunQueue/Examples.antt =====
-- `RunQueue` at small inputs: the theorems applied.
use seraph.Prelude.{◌≡◌, refl, [], ◌∷◌, arith, update}
use seraph.Prelude.Chain.{Links}
use seraph.Sched.RunQueue.{RunQueue, new, enqueue, dequeue}
use seraph.Sched.RunQueue.Fifo.{Holds, new-Holds, enqueue-Holds}

abbrev no_links : Links
no_links = λ _. 0

abbrev one : RunQueue × Links
one = enqueue new no_links 7

abbrev two : RunQueue × Links
two = enqueue one.0 one.1 8

one-Holds : Holds one.1 one.0 (7 ∷ [])
one-Holds = enqueue-Holds no_links new [] 7 (omega arith) tt (new-Holds no_links)

two-Holds : Holds two.1 two.0 (7 ∷ 8 ∷ [])
two-Holds = enqueue-Holds one.1 one.0 (7 ∷ []) 8 (omega arith) (λ e. omega (arith, e), tt) one-Holds

run_two : dequeue two.0 two.1 ≡ (7, record { head = 8; tail = 8 }, update two.1 7 0)
unfolding enqueue dequeue new
run_two = refl
