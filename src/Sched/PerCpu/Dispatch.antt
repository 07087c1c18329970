-- ===== src/Sched/PerCpu/Dispatch.antt =====
-- Each method of the scheduler does to the ready threads what it promises.
use native.Mathlib.Decide.{ℕ_discrete}
use seraph.Prelude.{
  ℕ, suc, ◌-◌, ◌<◌, ◌≡◌, ◌≢◌, refl, sym, ◌∙◌, ap, subst, inl, inr, ◌⊎◌, Bool, true, false,
  false≢true, not, ◌&&◌, some, List, [], ◌∷◌, arith, ◌==◌, ==_refl, ==_ne, lt→ltb, update, length,
  NotIn, erase, has, All, All-erase, NotIn-erase_self, ◌↔◌,
}
use seraph.Prelude.Bits.{bit, bit-zero, leading_zeros, leading_zeros_highest, eq-zero_of_bits}
use seraph.Prelude.Chain.{Links, Chain, Chain-update}
use seraph.Sched.RunQueue
use seraph.Sched.RunQueue.{RunQueue}
use seraph.Sched.RunQueue.Fifo.{Holds, new-Holds, dequeue-Holds, is_empty-Holds, remove-Holds}
use seraph.Sched.PerCpu.{
  Scheduler, num_priority_levels, new, increment_load, decrement_load, enqueue, dequeue_at, settle,
  dequeue_highest, has_runnable, take_out, remove_from_queue, change_priority,
}
use seraph.Sched.PerCpu
use seraph.Sched.PerCpu.Ready.{Ready, Refines, push, drop}
use seraph.Sched.PerCpu.Frame.{push-Refines, settle-Refines, Refines-load, elsewhere}

-- A new scheduler has no ready thread.
pub new-Refines : (next : Links) (load : ℕ → ℕ) → Refines (new next load) (λ _. [])
unfolding new
new-Refines next load = record {
  queue = λ p _. new-Holds next;
  mask = λ p _. bit-zero p;
  mask_lt = omega arith;
  home = λ _. 0;
  at_home = λ p _. tt;
}

zero_of_not : (m : ℕ) → not (m == 0) ≡ false → m ≡ 0
zero_of_not m e = ground arith

-- What the code tests after a removal: the queue had the thread, and is empty now.
erase_emptied :
    (t : ℕ) (xs : List ℕ)
    → (has t xs && (length (erase t xs) == 0)) ≡ true
    → (length (erase t xs) == 0) ≡ true
erase_emptied t xs e = ground arith

erase_kept :
    (t : ℕ) (xs : List ℕ)
    → (has t xs && (length (erase t xs) == 0)) ≡ false
    → (length (erase t xs) == 0) ≡ (length xs == 0)
erase_kept t [] e = refl
erase_kept t (x ∷ xs) e = ground arith

pub settle-cpu_load :
    (s : Scheduler) (p : ℕ) (q : RunQueue) (next : Links) (b : Bool)
    → ((settle s p q next b).cpu_load ≡ s.cpu_load) × ((settle s p q next b).cpu_id ≡ s.cpu_id)
unfolding settle
settle-cpu_load s p q next true = (refl, refl)
settle-cpu_load s p q next false = (refl, refl)

module _ (s : Scheduler) (r : Ready) (v : Refines s r) where
  -- `enqueue` at a priority in range succeeds, and appends a thread that is not ready yet at the
  -- end of that priority.
  pub enqueue-Refines :
      (tcb p : ℕ)
      → 0 < tcb
      → p < num_priority_levels
      → ((o : ℕ) → o < num_priority_levels → NotIn tcb (r o))
      → (s' : Scheduler) × (enqueue s tcb p ≡ some s') × Refines s' (push r tcb p)
  unfolding enqueue increment_load
  enqueue-Refines tcb p pos hp fresh = (
    PerCpu.push (increment_load s) tcb p,
    rw (lt→ltb p 32 hp),
    push-Refines (increment_load s) r (Refines-load s r v _) tcb p pos hp fresh,
  )

  -- A bit that is set stands for a thread.
  first_in_line :
      (p : ℕ)
      → p < num_priority_levels
      → bit s.non_empty p ≡ true
      → (x : ℕ) × (xs : List ℕ) × (r p ≡ x ∷ xs)
  first_in_line p hp e = go (r p) refl (sym (v.mask p hp) ∙ e)
    where
      go :
          (l : List ℕ)
          → r p ≡ l
          → not (length l == 0) ≡ true
          → (x : ℕ) × (xs : List ℕ) × (r p ≡ x ∷ xs)
      go [] q e = elim (false≢true e) [ ]
      go (x ∷ xs) q e = (x, xs, q)

  none_in_line : (p : ℕ) → p < num_priority_levels → bit s.non_empty p ≡ false → r p ≡ []
  none_in_line p hp e = go (r p) (sym (v.mask p hp) ∙ e)
    where
      go : (l : List ℕ) → not (length l == 0) ≡ false → l ≡ []
      go [] e = refl
      go (x ∷ xs) e = ground arith

  -- `dequeue` and the bit of a priority at which a thread is ready.
  dequeue_at-Refines :
      (p x : ℕ) (xs : List ℕ)
      → p < num_priority_levels
      → r p ≡ x ∷ xs
      → (s' : Scheduler) × (dequeue_at s p ≡ some (x, s')) × Refines s' (update r p xs)
  unfolding dequeue_at decrement_load
  dequeue_at-Refines p x xs hp l =
      let (tcb, q, next) = RunQueue.dequeue (s.queues p) s.next in
      let held = subst (Holds s.next (s.queues p)) l (v.queue p hp) in
      let (first, rest, links) = dequeue-Holds s.next (s.queues p) x xs held in
      let settled = PerCpu.settle s p q next (RunQueue.is_empty q) in
      (
        decrement_load settled,
        rw (==_ne tcb 0 (λ e. omega (arith, first, e, held.chain.1)), first),
        Refines-load settled (update r p xs)
            (settle-Refines s r v p q next xs (RunQueue.is_empty q) hp rest
              (λ h ys apart c.
                subst (λ n. Chain n h ys) (sym links)
                  (Chain-update s.next x 0 h ys (subst (All (λ x. NotIn x ys)) l apart).0 c))
              (subst (All (λ x. v.home x ≡ p)) l (v.at_home p hp)).1
              (λ e. sym (is_empty-Holds next q xs rest) ∙ e)
              (λ e.
                rw (l, ← is_empty-Holds next q xs rest, e)
                  (sym (==_ne (suc (length xs)) 0 (λ z. omega arith)))))
            _,
      )

  -- `dequeue_highest` never panics. If no thread is ready it gives the idle thread and changes
  -- nothing; otherwise it gives the first in line at the highest priority that has a ready thread,
  -- takes that thread out, and keeps all others in order.
  pub dequeue_highest-Refines :
      (((p : ℕ) → p < num_priority_levels → r p ≡ []) × (dequeue_highest s ≡ some (s.idle, s)))
      ⊎ ((p : ℕ) × (x : ℕ) × (xs : List ℕ) × (s' : Scheduler) × (p < num_priority_levels)
          × (r p ≡ x ∷ xs)
          × ((o : ℕ) → p < o → o < num_priority_levels → r o ≡ [])
          × (dequeue_highest s ≡ some (x, s'))
          × Refines s' (update r p xs)
          × ((o : ℕ) → o < num_priority_levels → NotIn x (update r p xs o)))
  unfolding dequeue_highest
  dequeue_highest-Refines = elim (leading_zeros_highest 32 s.non_empty) [
    | inl clear ↦ inl (
      λ p hp. none_in_line p hp (clear p hp),
      rw (eq-zero_of_bits 32 s.non_empty v.mask_lt clear),
    )
    | inr (lt, on, above) ↦
        let p = 31 - leading_zeros 32 s.non_empty in
        let hp : p < 32 = omega arith in
        let (x, xs, l) = first_in_line p hp on in
        let (s', e, kept) = dequeue_at-Refines p x xs hp l in
        inr (
          p,
          x,
          xs,
          s',
          hp,
          l,
          λ o lo ho. none_in_line o ho (above o lo ho),
          rw
              (==_ne s.non_empty 0
                (λ z. false≢true (sym (subst (λ m. bit m p ≡ false) (sym z) (bit-zero p)) ∙ on)))
              e,
          kept,
          elsewhere s r v x p xs hp l,
        )
  ]

  -- Whether a thread is ready is what `has_runnable` says.
  pub has_runnable-false : has_runnable s ≡ false ↔ ((p : ℕ) → p < num_priority_levels → r p ≡ [])
  unfolding has_runnable
  has_runnable-false = (idle, busy)
    where
      idle : not (s.non_empty == 0) ≡ false → (p : ℕ) → p < num_priority_levels → r p ≡ []
      idle e p hp =
          none_in_line p hp
            (subst (λ m. bit m p ≡ false) (sym (zero_of_not s.non_empty e)) (bit-zero p))

      busy : ((p : ℕ) → p < num_priority_levels → r p ≡ []) → not (s.non_empty == 0) ≡ false
      busy h = rw (eq-zero_of_bits 32 s.non_empty v.mask_lt (λ p hp. v.mask p hp ∙ rw (h p hp)))

  take_out-Refines :
      (fuel tcb p : ℕ)
      → length (r p) < fuel
      → 0 < tcb
      → p < num_priority_levels
      → (s' : Scheduler) × (take_out fuel s tcb p ≡ some s')
        × Refines s' (drop r tcb p)
        × (s'.cpu_load ≡ s.cpu_load)
  unfolding take_out
  take_out-Refines fuel tcb p f pos hp =
      let (q, next, e, held, spare) =
        remove-Holds fuel (s.queues p) s.next tcb (r p) f pos (v.queue p hp) in
      let b = has tcb (r p) && RunQueue.is_empty q in
      let same : b ≡ (has tcb (r p) && (length (erase tcb (r p)) == 0)) =
        ap (λ c. has tcb (r p) && c) (is_empty-Holds next q (erase tcb (r p)) held) in
      (
        PerCpu.settle s p q next b,
        rw (e, take_out),
        settle-Refines s r v p q next (erase tcb (r p)) b hp held spare
            (All-erase (λ x. v.home x ≡ p) tcb (r p) (v.at_home p hp))
            (λ z. erase_emptied tcb (r p) (sym same ∙ z))
            (λ z. erase_kept tcb (r p) (sym same ∙ z)),
        (settle-cpu_load s p q next b).0,
      )

  -- `remove_from_queue` takes the thread out of the queue of its priority, if it stands there, and
  -- keeps all others in order. The load counters are left as they are, also where a thread was
  -- taken out.
  pub remove_from_queue-Refines :
      (fuel tcb p : ℕ)
      → length (r p) < fuel
      → 0 < tcb
      → p < num_priority_levels
      → (s' : Scheduler) × (remove_from_queue fuel s tcb p ≡ some s')
        × Refines s' (drop r tcb p)
        × (s'.cpu_load ≡ s.cpu_load)
  unfolding remove_from_queue
  remove_from_queue-Refines fuel tcb p f pos hp =
      let (s', e, kept, load) = take_out-Refines fuel tcb p f pos hp in
      (s', rw (lt→ltb p 32 hp) e, kept, load)

  gone :
      (tcb old : ℕ)
      → old < num_priority_levels
      → ((o : ℕ) → o < num_priority_levels → o ≢ old → NotIn tcb (r o))
      → (o : ℕ) → o < num_priority_levels
      → NotIn tcb (drop r tcb old o)
  gone tcb old ho other o h = elim (ℕ_discrete o old) [
    | yes e ↦ rw (e, ==_refl old) (NotIn-erase_self tcb (r old) (v.queue old ho).distinct)
    | no n ↦ rw (==_ne o old n) (other o h n)
  ]

  -- `change_priority` to another priority moves a thread that is ready at no priority but the old
  -- one to the end of the new one, and keeps all others in order.
  pub change_priority-Refines :
      (fuel tcb old new : ℕ)
      → length (r old) < fuel
      → 0 < tcb
      → old < num_priority_levels
      → new < num_priority_levels
      → old ≢ new
      → ((o : ℕ) → o < num_priority_levels → o ≢ old → NotIn tcb (r o))
      → (s' : Scheduler) × (change_priority fuel s tcb old new ≡ some s')
        × Refines s' (push (drop r tcb old) tcb new)
  unfolding change_priority
  change_priority-Refines fuel tcb old new f pos ho hn ne other =
      let (s', e, kept, load) = take_out-Refines fuel tcb old f pos ho in
      (
        PerCpu.push s' tcb new,
        rw (==_ne old new ne, lt→ltb old 32 ho, lt→ltb new 32 hn, e),
        push-Refines s' (drop r tcb old) kept tcb new pos hn (gone tcb old ho other),
      )

-- `enqueue` at a priority in range does not panic.
pub enqueue-some :
    (s : Scheduler) (tcb p : ℕ)
    → p < num_priority_levels
    → enqueue s tcb p ≡ some (PerCpu.push (increment_load s) tcb p)
unfolding enqueue
enqueue-some s tcb p h = rw (lt→ltb p 32 h)
