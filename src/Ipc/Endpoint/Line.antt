-- ===== src/Ipc/Endpoint/Line.antt =====
-- The wait queues of an endpoint behave as the run queues do.
use seraph.Prelude.{
  ℕ, ◌<◌, ◌≡◌, sym, ◌∙◌, ap, ap₂, inl, inr, List, [], ◌∷◌, ◌++◌, ◌==◌, Bool-cases, update, NotIn,
  subst,
}
use seraph.Prelude.Chain.{Links}
use seraph.Sched.RunQueue
use seraph.Sched.RunQueue.{RunQueue}
use seraph.Sched.RunQueue.Fifo.{Holds, enqueue-Holds, dequeue-nil, dequeue-Holds}
use seraph.Ipc.Endpoint.{WaitQueue, enqueue, dequeue}

abbrev pub as_run_queue : WaitQueue → RunQueue
as_run_queue q = record { head = q.head; tail = q.tail }

-- The queue holds the threads `xs`, first in line first.
abbrev pub Waiting : Links → WaitQueue → List ℕ → Type 0
Waiting next q xs = Holds next (as_run_queue q) xs

abbrev pub from_run_queue : RunQueue → WaitQueue
from_run_queue q = record { head = q.head; tail = q.tail }

enqueue-RunQueue :
    (q : WaitQueue) (next : Links) (tcb : ℕ)
    → enqueue q next tcb
      ≡ (let (q', next') = RunQueue.enqueue (as_run_queue q) next tcb in (from_run_queue q', next'))
unfolding enqueue RunQueue.enqueue
enqueue-RunQueue q next tcb = elim (Bool-cases (q.tail == 0)) [ inl e ↦ rw e | inr e ↦ rw e ]

dequeue-RunQueue :
    (q : WaitQueue) (next : Links)
    → dequeue q next ≡ (
        let (tcb, q', next') = RunQueue.dequeue (as_run_queue q) next in
        (tcb, from_run_queue q', next'))
unfolding dequeue RunQueue.dequeue
dequeue-RunQueue q next = elim (Bool-cases (q.head == 0)) [ inl e ↦ rw e | inr e ↦ rw e ]

-- A thread that joins the queue is the last in line.
pub enqueue-Waiting :
    (next : Links) (q : WaitQueue) (xs : List ℕ) (tcb : ℕ)
    → 0 < tcb
    → NotIn tcb xs
    → Waiting next q xs
    → Waiting (enqueue q next tcb).1 (enqueue q next tcb).0 (xs ++ tcb ∷ [])
enqueue-Waiting next q xs tcb pos n v =
    subst (λ r. Waiting r.1 r.0 (xs ++ tcb ∷ [])) (sym (enqueue-RunQueue q next tcb))
      (enqueue-Holds next (as_run_queue q) xs tcb pos n v)

-- Nobody is in line, and nothing changes; or the first in line comes out.
pub dequeue-none :
    (next : Links) (q : WaitQueue) → Waiting next q [] → dequeue q next ≡ (0, q, next)
dequeue-none next q v =
    dequeue-RunQueue q next
    ∙ ap (λ (r : ℕ × RunQueue × Links). (r.0, from_run_queue r.1, r.2))
        (dequeue-nil next (as_run_queue q) v)

pub dequeue-first :
    (next : Links) (q : WaitQueue) (x : ℕ) (xs : List ℕ)
    → Waiting next q (x ∷ xs)
    → (q' : WaitQueue) × (dequeue q next ≡ (x, q', update next x 0))
      × Waiting (update next x 0) q' xs
dequeue-first next q x xs v =
    let (first, rest, links) = dequeue-Holds next (as_run_queue q) x xs v in
    let r = RunQueue.dequeue (as_run_queue q) next in
    (
      from_run_queue r.1,
      dequeue-RunQueue q next ∙ ap₂ (λ t n. (t, from_run_queue r.1, n)) first links,
      subst (λ n. Holds n r.1 xs) links rest,
    )
