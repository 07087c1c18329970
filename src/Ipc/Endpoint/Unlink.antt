-- ===== src/Ipc/Endpoint/Unlink.antt =====
-- `unlink_from_wait_queue`.
use native.Mathlib.Decide.{ℕ_discrete}
use seraph.Prelude.{
  ℕ, zero, suc, ◌<◌, ◌≡◌, inl, inr, refl, sym, ◌∙◌, ap, Bool, true, Bool-cases, Option, none, some,
  List, ◌==◌, ==_ne, length, has, erase,
}
use seraph.Prelude.Chain.{Links}
use seraph.Sched.RunQueue
use seraph.Sched.RunQueue.{RunQueue}
use seraph.Sched.RunQueue.Fifo.{remove-Holds}
use seraph.Ipc.Endpoint.{WaitQueue, unlink, unlink_from, unlink_from_wait_queue}
use seraph.Ipc.Endpoint.Line.{Waiting, as_run_queue, from_run_queue}

==_comm : (a b : ℕ) → (a == b) ≡ (b == a)
==_comm a b = elim (ℕ_discrete a b) [
  | yes e ↦ rw e refl
  | no n ↦ ==_ne a b n ∙ sym (==_ne b a (λ e. n (sym e)))
]

abbrev from_links : RunQueue × Links → WaitQueue × Links
from_links r = (from_run_queue r.0, r.1)

abbrev from_result : Option (Bool × RunQueue × Links) → Option (Bool × WaitQueue × Links)
from_result none = none
from_result (some r) = some (r.0, from_run_queue r.1, r.2)

unlink-RunQueue :
    (q : WaitQueue) (next : Links) (prev cur : ℕ)
    → unlink q next prev cur ≡ from_links (RunQueue.unlink (as_run_queue q) next prev cur)
unfolding unlink RunQueue.unlink
unlink-RunQueue q next prev cur = elim (Bool-cases (prev == 0)) [
  | inl e ↦ rw (e, ==_comm cur q.tail) refl
  | inr e ↦ rw (e, ==_comm cur q.tail) refl
]

-- The loop is the one of the run queues.
unlink_from-RunQueue :
    (fuel : ℕ) (q : WaitQueue) (next : Links) (prev cur tcb : ℕ)
    → unlink_from fuel q next prev cur tcb
      ≡ from_result (RunQueue.remove_from fuel (as_run_queue q) next prev cur tcb)
unfolding unlink_from RunQueue.remove_from
unlink_from-RunQueue zero q next prev cur tcb = refl
unlink_from-RunQueue (suc fuel) q next prev cur tcb = elim (Bool-cases (cur == 0)) [
  | inl e ↦ rw e refl
  | inr e ↦ elim (Bool-cases (cur == tcb)) [
    | inl s ↦
        rw (e, s)
          (ap (λ (r : WaitQueue × Links). some (true, r.0, r.1)) (unlink-RunQueue q next prev cur))
    | inr s ↦ rw (e, s) (unlink_from-RunQueue fuel q next cur (next cur) tcb)
  ]
]

-- `unlink_from_wait_queue`, with fuel for the queue, returns whether the thread was in the queue,
-- and leaves the others in their order.
pub unlink_from_wait_queue-Waiting :
    (fuel : ℕ) (q : WaitQueue) (next : Links) (tcb : ℕ) (xs : List ℕ)
    → length xs < fuel
    → 0 < tcb
    → Waiting next q xs
    → (q' : WaitQueue) × (next' : Links) × (unlink_from_wait_queue fuel q next tcb
        ≡ some (has tcb xs, q', next'))
      × Waiting next' q' (erase tcb xs)
unfolding unlink_from_wait_queue RunQueue.remove
unlink_from_wait_queue-Waiting fuel q next tcb xs f pos v =
    let (q', next', run, held, _) = remove-Holds fuel (as_run_queue q) next tcb xs f pos v in
    (
      from_run_queue q',
      next',
      unlink_from-RunQueue fuel q next 0 q.head tcb ∙ ap from_result run,
      held,
    )
