-- ===== src/Sched/PerCpu/Load.antt =====
-- The load counter of a CPU against the number of threads in its queues.
use seraph.Prelude.{
  ℕ, zero, suc, ◌+◌, ◌-◌, ◌%◌, ◌<◌, ◌^◌, ◌≤◌, ◌≡◌, ◌≢◌, refl, sym, ◌∙◌, ap, inl, inr, false≢true,
  not, some, List, [], ◌∷◌, ◌++◌, arith, ◌==◌, ==_iff, ==_ne, Bool-cases, update, length,
  length-append,
}
use seraph.Prelude.Bits.{bit, bit-zero, leading_zeros}
use seraph.Sched.RunQueue
use seraph.Sched.RunQueue.{RunQueue}
use seraph.Sched.PerCpu.{
  Scheduler, num_priority_levels, increment_load, decrement_load, enqueue, dequeue_at, settle,
  dequeue_highest,
}
use seraph.Sched.PerCpu
use seraph.Sched.PerCpu.Ready.{Ready, Refines, push}
use seraph.Sched.PerCpu.Dispatch.{settle-cpu_load}

-- The number of threads below priority `n`.
unfoldable pub count : Ready → ℕ → ℕ
count r zero = 0
count r (suc n) = count r n + length (r n)

-- The counter is the number of threads in the queues.
abbrev pub Counted : Scheduler → Ready → Type 0
Counted s r = s.cpu_load s.cpu_id ≡ count r num_priority_levels % 2 ^ 32

count-update_above :
    (r : Ready) (p : ℕ) (xs : List ℕ) (n : ℕ) → n ≤ p → count (update r p xs) n ≡ count r n
unfolding count
count-update_above r p xs zero h = refl
count-update_above r p xs (suc n) h =
    rw (==_ne n p (λ e. omega (arith, e)), count-update_above r p xs n (omega arith))

-- One list replaced changes the count by the difference of the lengths.
count-update :
    (r : Ready) (p : ℕ) (xs : List ℕ) (n : ℕ)
    → p < n
    → count (update r p xs) n + length (r p) ≡ count r n + length xs
unfolding count
count-update r p xs zero h = absurd (omega arith)
count-update r p xs (suc n) h = elim (Bool-cases (n == p)) [
  | inl e ↦ rw e (
      omega (
        arith,
        count-update_above r p xs n (ground arith),
        ap (λ k. length (r k)) ((==_iff n p).0 e),
      ))
  | inr e ↦ rw e (omega (arith, count-update r p xs n (ground arith)))
]

enqueue-cpu_load :
    (s : Scheduler) (tcb p : ℕ) {s' : Scheduler}
    → enqueue s tcb p ≡ some s'
    → s'.cpu_load s'.cpu_id ≡ (s.cpu_load s.cpu_id + 1) % 2 ^ 32
unfolding enqueue increment_load PerCpu.push
enqueue-cpu_load s tcb p e = ground arith

dequeue_at-cpu_load :
    (s : Scheduler) (p tcb : ℕ) {s' : Scheduler}
    → dequeue_at s p ≡ some (tcb, s')
    → s'.cpu_load s'.cpu_id ≡ (s.cpu_load s.cpu_id + 2 ^ 32 - 1) % 2 ^ 32
unfolding dequeue_at decrement_load
dequeue_at-cpu_load s p tcb {s'} e =
    let (t, q, next) = RunQueue.dequeue (s.queues p) s.next in
    let (load, id) = settle-cpu_load s p q next (RunQueue.is_empty q) in
    ground (arith, load, id, ap (λ f. f s.cpu_id) load)

-- `enqueue` keeps the counter equal to the number of threads in the queues.
pub enqueue-Counted :
    (s : Scheduler) (r : Ready) (tcb p : ℕ) {s' : Scheduler}
    → p < num_priority_levels
    → Counted s r
    → enqueue s tcb p ≡ some s'
    → Counted s' (push r tcb p)
enqueue-Counted s r tcb p hp c e = omega (
  arith,
  enqueue-cpu_load s tcb p e,
  c,
  count-update r p (r p ++ tcb ∷ []) 32 hp,
  length-append (r p) (tcb ∷ []),
)

-- So does `dequeue_highest` where it takes a thread out.
pub dequeue_highest-Counted :
    (s : Scheduler) (r : Ready) (tcb p x : ℕ) (xs : List ℕ) {s' : Scheduler}
    → Refines s r
    → p < num_priority_levels
    → r p ≡ x ∷ xs
    → Counted s r
    → dequeue_highest s ≡ some (tcb, s')
    → Counted s' (update r p xs)
unfolding dequeue_highest
dequeue_highest-Counted s r tcb p x xs {s'} v hp l c e = omega (
  arith,
  dequeue_at-cpu_load s (31 - leading_zeros 32 s.non_empty) tcb
      (rw (==_ne s.non_empty 0 busy) at e),
  c,
  count-update r p xs 32 hp,
  ap length l,
)
  where
    busy : s.non_empty ≢ 0
    busy z = false≢true (
        sym (bit-zero p)
        ∙ ap (λ m. bit m p) (sym z)
        ∙ v.mask p hp
        ∙ ap (λ ys. not (length ys == 0)) l
        ∙ ap not (==_ne (suc (length xs)) 0 (λ e. omega arith)))
