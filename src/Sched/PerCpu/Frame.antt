-- ===== src/Sched/PerCpu/Frame.antt =====
-- The invariant of the scheduler under a change of one queue: what `push` and the replacement of a
-- queue do to the ready threads. The methods' own laws are in `Dispatch`.
use native.Mathlib.Decide.{ℕ_discrete}
use seraph.Prelude.{
  ℕ, ◌+◌, ◌<◌, ◌^◌, ◌≡◌, refl, sym, ◌∙◌, subst, Bool, true, false, not, ◌||◌, ◌&&◌, List, [], ◌∷◌,
  ◌++◌, arith, ◌==◌, if◌then◌else◌, ==_refl, ==_ne, update, update_self, length, length-append,
  NotIn, Distinct, All, All-append, bit_and,
}
use seraph.Prelude.Bits.{
  bit, bit-set, bit-clear, shift_one-lt, bit_or-lt, bit_and-le, shift_one, complement,
}
use seraph.Prelude.Chain.{homes_apart, rehome, Links, Chain}
use seraph.Sched.RunQueue
use seraph.Sched.RunQueue.{RunQueue}
use seraph.Sched.RunQueue.Fifo.{Holds, enqueue-Holds, enqueue-other}
use seraph.Sched.PerCpu
use seraph.Sched.PerCpu.{Scheduler, num_priority_levels}
use seraph.Sched.PerCpu.Ready.{Ready, Refines, push}

-- A queue follows a change of links that spares its list.
Holds-links :
    (next next' : Links) (q : RunQueue) (xs : List ℕ)
    → Holds next q xs
    → Chain next' q.head xs
    → Holds next' q xs
Holds-links next next' q xs h c = record { chain = c; tail = h.tail; distinct = h.distinct }

or_true : (b : Bool) → (b || true) ≡ true
or_true true = refl
or_true false = refl

or_false : (b : Bool) → (b || false) ≡ b
or_false true = refl
or_false false = refl

and_true : (b : Bool) → (b && true) ≡ b
and_true true = refl
and_true false = refl

and_false : (b : Bool) → (b && false) ≡ false
and_false true = refl
and_false false = refl

module _ (s : Scheduler) (r : Ready) (v : Refines s r) where
  queue-push :
      (tcb p q : ℕ)
      → 0 < tcb
      → p < num_priority_levels
      → q < num_priority_levels
      → ((o : ℕ) → o < num_priority_levels → NotIn tcb (r o))
      → let s' = PerCpu.push s tcb p in Holds s'.next (s'.queues q) (push r tcb p q)
  unfolding PerCpu.push
  queue-push tcb p q pos hp hq fresh = elim (ℕ_discrete q p) [
    | yes e ↦
        rw (e, ==_refl p)
          (enqueue-Holds s.next (s.queues p) (r p) tcb pos (fresh p hp) (v.queue p hp))
    | no n ↦ rw (==_ne q p n) (
        Holds-links s.next (RunQueue.enqueue (s.queues p) s.next tcb).1 (s.queues q) (r q)
          (v.queue q hq)
          (enqueue-other s.next (s.queues p) (r p) tcb (s.queues q).head (r q) (v.queue p hp)
            (fresh q hq)
            (homes_apart v.home p q (r p) (r q) (λ e. n (sym e)) (v.at_home p hp) (v.at_home q hq))
            (v.queue q hq).chain))
  ]

  mask-push :
      (tcb p q : ℕ)
      → p < num_priority_levels
      → q < num_priority_levels
      → bit (PerCpu.push s tcb p).non_empty q ≡ not (length (push r tcb p q) == 0)
  unfolding PerCpu.push
  mask-push tcb p q hp hq = elim (ℕ_discrete q p) [
    | yes e ↦
        rw
          (
            e,
            bit-set s.non_empty p p,
            ==_refl p,
            length-append (r p) (tcb ∷ []),
            ==_ne (length (r p) + 1) 0 (λ e. omega arith),
          )
          (or_true (bit s.non_empty p))
    | no n ↦
        rw (bit-set s.non_empty p q, ==_ne q p n, ==_ne p q (λ e. n (sym e)))
          (or_false (bit s.non_empty q) ∙ v.mask q hq)
  ]

  at_home-push :
      (tcb p q : ℕ)
      → q < num_priority_levels
      → NotIn tcb (r q)
      → All (λ x. update v.home tcb p x ≡ q) (push r tcb p q)
  at_home-push tcb p q hq fresh =
      let old = rehome v.home tcb p q (r q) fresh (v.at_home q hq) in
      elim (ℕ_discrete q p) [
        | yes e ↦
            subst
              (λ k. All (λ x. update v.home tcb p x ≡ q) (if q == k then r k ++ tcb ∷ [] else r q))
              e
              (rw (==_refl q)
                (All-append _ (r q) (tcb ∷ []) old (update_self v.home tcb p ∙ sym e, tt)))
        | no n ↦ rw (==_ne q p n) old
      ]

  -- `push` appends the thread to its priority.
  pub push-Refines :
      (tcb p : ℕ)
      → 0 < tcb
      → p < num_priority_levels
      → ((o : ℕ) → o < num_priority_levels → NotIn tcb (r o))
      → Refines (PerCpu.push s tcb p) (push r tcb p)
  unfolding PerCpu.push
  push-Refines tcb p pos hp fresh = record {
    queue = λ q hq. queue-push tcb p q pos hp hq fresh;
    mask = λ q hq. mask-push tcb p q hp hq;
    mask_lt = bit_or-lt 32 s.non_empty (shift_one p) v.mask_lt (shift_one-lt p 32 hp);
    home = update v.home tcb p;
    at_home = λ q hq. at_home-push tcb p q hq (fresh q hq);
  }

  -- One queue replaced by another that holds `xs`, with links that spare the other queues and a
  -- mask that tells which queues are empty.
  pub replace-Refines :
      (p m : ℕ) (q : RunQueue) (next : Links) (xs : List ℕ)
      → p < num_priority_levels
      → Holds next q xs
      → ((h : ℕ) (ys : List ℕ) → All (λ x. NotIn x ys) (r p) → Chain s.next h ys → Chain next h ys)
      → All (λ x. v.home x ≡ p) xs
      → m < 2 ^ 32
      → ((o : ℕ) → o < num_priority_levels → bit m o ≡ not (length (update r p xs o) == 0))
      → Refines
          (record s { queues = update s.queues p q; non_empty = m; next = next })
          (update r p xs)
  replace-Refines p m q next xs hp hq spare here lt mask = record {
    queue = λ o ho. elim (ℕ_discrete o p) [
      | yes e ↦ rw (e, ==_refl p) hq
      | no n ↦ rw (==_ne o p n) (
          Holds-links s.next next (s.queues o) (r o) (v.queue o ho) (
            spare (s.queues o).head (r o)
              (homes_apart v.home p o (r p) (r o) (λ e. n (sym e)) (v.at_home p hp)
                (v.at_home o ho))
              (v.queue o ho).chain))
    ];
    mask = mask;
    mask_lt = lt;
    home = v.home;
    at_home = λ o ho. elim (ℕ_discrete o p) [
      | yes e ↦ rw (e, ==_refl p) here
      | no n ↦ rw (==_ne o p n) (v.at_home o ho)
    ];
  }

  -- The mask of the code: the bit is cleared where the queue has become empty.
  pub mask-drop :
      (p : ℕ) (xs : List ℕ) (b : Bool)
      → p < num_priority_levels
      → (b ≡ true → (length xs == 0) ≡ true)
      → (b ≡ false → (length xs == 0) ≡ (length (r p) == 0))
      → let m = if b then bit_and s.non_empty (complement 32 (shift_one p)) else s.non_empty in
        (m < 2 ^ 32)
        × ((o : ℕ) → o < num_priority_levels → bit m o ≡ not (length (update r p xs o) == 0))
  mask-drop p xs true hp cleared kept = (
    omega (arith, bit_and-le s.non_empty (complement 32 (shift_one p)), v.mask_lt),
    λ o ho. elim (ℕ_discrete o p) [
      | yes e ↦
          rw (e, bit-clear 32 s.non_empty p p hp hp, ==_refl p, cleared refl)
            (and_false (bit s.non_empty p))
      | no n ↦
          rw (bit-clear 32 s.non_empty p o hp ho, ==_ne o p n, ==_ne p o (λ e. n (sym e)))
            (and_true (bit s.non_empty o) ∙ v.mask o ho)
    ],
  )
  mask-drop p xs false hp cleared kept = (
    v.mask_lt,
    λ o ho. elim (ℕ_discrete o p) [
      | yes e ↦ rw (e, ==_refl p, kept refl) (v.mask p hp)
      | no n ↦ rw (==_ne o p n) (v.mask o ho)
    ],
  )

  pub Refines-load : (l : ℕ → ℕ) → Refines (record s { cpu_load = l }) r
  Refines-load l = record {
    queue = v.queue;
    mask = v.mask;
    mask_lt = v.mask_lt;
    home = v.home;
    at_home = v.at_home;
  }

  -- A thread in a queue is in no other.
  pub elsewhere :
      (x p : ℕ) (xs : List ℕ)
      → p < num_priority_levels
      → r p ≡ x ∷ xs
      → (o : ℕ) → o < num_priority_levels
      → NotIn x (update r p xs o)
  elsewhere x p xs hp e o ho = elim (ℕ_discrete o p) [
    | yes q ↦ rw (q, ==_refl p) (subst Distinct e (v.queue p hp).distinct).0
    | no n ↦
        rw (==_ne o p n)
          (subst (All (λ y. NotIn y (r o))) e (
            homes_apart v.home p o (r p) (r o) (λ q. n (sym q)) (v.at_home p hp)
              (v.at_home o ho))).0
  ]

  pub settle-Refines :
      (p : ℕ) (q : RunQueue) (next : Links) (xs : List ℕ) (b : Bool)
      → p < num_priority_levels
      → Holds next q xs
      → ((h : ℕ) (ys : List ℕ) → All (λ x. NotIn x ys) (r p) → Chain s.next h ys → Chain next h ys)
      → All (λ x. v.home x ≡ p) xs
      → (b ≡ true → (length xs == 0) ≡ true)
      → (b ≡ false → (length xs == 0) ≡ (length (r p) == 0))
      → Refines (PerCpu.settle s p q next b) (update r p xs)
  unfolding PerCpu.settle
  settle-Refines p q next xs true hp hq spare here cleared kept =
      let (lt, mask) = mask-drop p xs true hp cleared kept in
      replace-Refines p _ q next xs hp hq spare here lt mask
  settle-Refines p q next xs false hp hq spare here cleared kept =
      let (lt, mask) = mask-drop p xs false hp cleared kept in
      replace-Refines p _ q next xs hp hq spare here lt mask
