-- ===== src/Sched/RunQueue/Fifo.antt =====
-- What the methods of `RunQueue` do to the list of threads that the queue holds.
use seraph.Prelude.{
  ℕ, zero, suc, ◌<◌, ◌≡◌, refl, sym, ◌∙◌, subst, inl, inr, true, false, false≢true, some, List, [],
  ◌∷◌, ◌++◌, arith, ◌==◌, if◌then◌else◌, ==_iff, ==_refl, ==_ne, Bool-cases, update, update_self,
  length, NotIn, Distinct, erase, has, last, last-ne, last-zero, Distinct-append_one,
  Distinct-erase, NotIn-erase_self, All, All-has, All-last, NotIn-not_has, last-append_one,
  erase-NotIn,
}
use seraph.Prelude.Chain.{
  Links, Chain, Chain-update, Chain-append_one, before, before-pos, Chain-bypass, All-before,
  Chain-NotIn_zero,
}
use seraph.Sched.RunQueue.{RunQueue, new, enqueue, dequeue, is_empty, unlink, remove_from, remove}

-- The queue holds the threads `xs`, first in line first.
pub record Holds (next : Links) (q : RunQueue) (xs : List ℕ) : Type 0 where
  pub chain : Chain next q.head xs
  pub tail : q.tail ≡ last xs
  pub distinct : Distinct xs

pub new-Holds : (next : Links) → Holds next new []
unfolding new
new-Holds next = record { chain = refl; tail = refl; distinct = tt }

-- A list of addresses that does not hold null ends in one that is not null.
last-pos : (next : Links) (h x : ℕ) (xs : List ℕ) → Chain next h (x ∷ xs) → 0 < last (x ∷ xs)
last-pos next h x [] c = c.1
last-pos next h x (y ∷ xs) c = last-pos next (next x) y xs c.2

pub enqueue-Holds :
    (next : Links) (q : RunQueue) (xs : List ℕ) (tcb : ℕ)
    → 0 < tcb
    → NotIn tcb xs
    → Holds next q xs
    → let (q', next') = enqueue q next tcb in Holds next' q' (xs ++ tcb ∷ [])
unfolding enqueue
enqueue-Holds next q [] tcb pos n h =
    rw h.tail
      (record { chain = (refl, pos, update_self next tcb 0); tail = refl; distinct = (tt, tt) })
enqueue-Holds next q (x ∷ xs) tcb pos n h =
    rw (==_ne q.tail 0 (λ e. omega (arith, h.tail, last-pos next q.head x xs h.chain))) (record {
      chain =
          subst (λ l. Chain (update (update next tcb 0) l tcb) q.head (x ∷ xs ++ tcb ∷ []))
            (sym h.tail)
            (Chain-append_one (update next tcb 0) tcb q.head x xs pos n h.distinct
              (update_self next tcb 0) (Chain-update next tcb 0 q.head (x ∷ xs) n h.chain));
      tail = sym (last-append_one (x ∷ xs) tcb);
      distinct = Distinct-append_one (x ∷ xs) tcb h.distinct n;
    })

-- Other lists are left alone: the links written are those of the thread and of the last in line.
pub enqueue-other :
    (next : Links) (q : RunQueue) (xs : List ℕ) (tcb h : ℕ) (ys : List ℕ)
    → Holds next q xs
    → NotIn tcb ys
    → All (λ x. NotIn x ys) xs
    → Chain next h ys
    → Chain (enqueue q next tcb).1 h ys
unfolding enqueue
enqueue-other next q xs tcb h ys v n apart c = elim (Bool-cases (q.tail == 0)) [
  | inl e ↦ rw e (Chain-update next tcb 0 h ys n c)
  | inr e ↦
      let out = All-last (λ x. NotIn x ys) xs (Chain-NotIn_zero next h ys c) apart in
      rw e (
        Chain-update (update next tcb 0) q.tail tcb h ys (subst (λ k. NotIn k ys) (sym v.tail) out)
          (Chain-update next tcb 0 h ys n c))
]

pub dequeue-nil : (next : Links) (q : RunQueue) → Holds next q [] → dequeue q next ≡ (0, q, next)
unfolding dequeue
dequeue-nil next q h = rw h.chain

dequeue_tail :
    (next : Links) (x tail : ℕ) (xs : List ℕ)
    → Chain next (next x) xs
    → tail ≡ last (x ∷ xs)
    → (if next x == 0 then 0 else tail) ≡ last xs
dequeue_tail next x tail [] c e = rw c
dequeue_tail next x tail (y ∷ xs) c e = rw (==_ne (next x) 0 (omega arith)) e

-- The first in line comes out, and its link is cleared.
pub dequeue-Holds :
    (next : Links) (q : RunQueue) (x : ℕ) (xs : List ℕ)
    → Holds next q (x ∷ xs)
    → let (tcb, q', next') = dequeue q next in
      (tcb ≡ x) × Holds next' q' xs × (next' ≡ update next x 0)
unfolding dequeue
dequeue-Holds next q x xs h =
    rw (==_ne q.head 0 (omega (arith, h.chain.0, h.chain.1)), h.chain.0)
      (
        refl,
        record {
          chain = Chain-update next x 0 (next x) xs h.distinct.0 h.chain.2;
          tail = dequeue_tail next x q.tail xs h.chain.2 h.tail;
          distinct = h.distinct.1;
        },
        refl,
      )

pub is_empty-Holds :
    (next : Links) (q : RunQueue) (xs : List ℕ) → Holds next q xs → is_empty q ≡ (length xs == 0)
unfolding is_empty
is_empty-Holds next q [] h = rw h.chain
is_empty-Holds next q (x ∷ xs) h =
    rw (==_ne q.head 0 (omega (arith, h.chain.0, h.chain.1)))
      (sym (==_ne (suc (length xs)) 0 (λ e. omega arith)))

-- With fuel for the list, the loop stops at the thread, having gone past the one in front of it.
remove_from_lem :
    (fuel : ℕ) (q : RunQueue) (next : Links) (prev cur tcb : ℕ) (xs : List ℕ)
    → length xs < fuel
    → Chain next cur xs
    → 0 < tcb
    → remove_from fuel q next prev cur tcb ≡ (
        let (q', next') = unlink q next (before prev xs tcb) tcb in
        if has tcb xs then some (true, q', next') else some (false, q, next))
unfolding remove_from
remove_from_lem zero q next prev cur tcb xs f c p = absurd (omega arith)
remove_from_lem (suc fuel) q next prev cur tcb [] f c p = rw c
remove_from_lem (suc fuel) q next prev cur tcb (x ∷ xs) f c p =
    rw (c.0, ==_ne x 0 (omega (arith, c.1)))
      (elim (Bool-cases (x == tcb)) [
        | inl e ↦ rw ((==_iff x tcb).0 e, ==_refl tcb)
        | inr e ↦ rw e (remove_from_lem fuel q next x (next x) tcb xs (omega arith) c.2 p)
      ])

-- Where the new tail comes from.
last-erase :
    (prev x : ℕ) (xs : List ℕ) (t : ℕ)
    → has t (x ∷ xs) ≡ true
    → Distinct (x ∷ xs)
    → (if last (x ∷ xs) == t then before prev (x ∷ xs) t else last (x ∷ xs))
      ≡ last (prev ∷ erase t (x ∷ xs))
last-erase prev x [] t e d = elim (Bool-cases (x == t)) [
  | inl q ↦ rw q
  | inr q ↦ elim (false≢true (rw q at e)) [ ]
]
last-erase prev x (y ∷ xs) t e d = elim (Bool-cases (x == t)) [
  | inl q ↦ rw (
    q,
    ==_ne (last (y ∷ xs)) t (last-ne t y xs (subst (λ k. NotIn k (y ∷ xs)) ((==_iff x t).0 q) d.0)),
  )
  | inr q ↦ rw q (last-erase x y xs t (rw q at e) d.1)
]

unlink_tail :
    (tail t x : ℕ) (xs : List ℕ)
    → tail ≡ last (x ∷ xs)
    → has t (x ∷ xs) ≡ true
    → Distinct (x ∷ xs)
    → (if tail == t then before 0 (x ∷ xs) t else tail) ≡ last (erase t (x ∷ xs))
unlink_tail tail t x xs h e d = rw h (last-erase 0 x xs t e d ∙ last-zero (erase t (x ∷ xs)))

unlink-Distinct : (t : ℕ) (xs : List ℕ) → Distinct xs → NotIn t (erase t xs) × Distinct (erase t xs)
unlink-Distinct t xs d = (NotIn-erase_self t xs d, Distinct-erase t xs d)

unlink-Holds :
    (q : RunQueue) (next : Links) (tcb : ℕ) (xs : List ℕ)
    → Holds next q xs
    → has tcb xs ≡ true
    → let (q', next') = unlink q next (before 0 xs tcb) tcb in Holds next' q' (erase tcb xs)
unfolding unlink
unlink-Holds q next tcb [] h e = elim (false≢true e) [ ]
unlink-Holds q next tcb (x ∷ xs) h e = elim (Bool-cases (x == tcb)) [
  | inl s ↦
      let same = (==_iff x tcb).0 s in
      rw s (record {
        chain =
            Chain-update next tcb 0 (next tcb) xs (subst (λ k. NotIn k xs) same h.distinct.0)
              (subst (λ k. Chain next (next k) xs) same h.chain.2);
        tail = rw s at (unlink_tail q.tail tcb x xs h.tail e h.distinct);
        distinct = h.distinct.1;
      })
  | inr s ↦
      rw
        (
          s,
          ==_ne (before x xs tcb) 0
              (λ q. omega (arith, q, before-pos next x (next x) xs tcb h.chain.1 h.chain.2)),
        )
        (record {
          chain =
              Chain-update (update next (before x xs tcb) (next tcb)) tcb 0 q.head
                (x ∷ erase tcb xs) (rw s at (NotIn-erase_self tcb (x ∷ xs) h.distinct))
                (h.chain.0, h.chain.1, Chain-bypass next x xs tcb (rw s at e) h.distinct h.chain.2);
          tail = rw s at (unlink_tail q.tail tcb x xs h.tail e h.distinct);
          distinct = rw s at (Distinct-erase tcb (x ∷ xs) h.distinct);
        })
]

unlink-other :
    (q : RunQueue) (next : Links) (tcb : ℕ) (xs : List ℕ) (h : ℕ) (ys : List ℕ)
    → Holds next q xs
    → has tcb xs ≡ true
    → All (λ x. NotIn x ys) xs
    → Chain next h ys
    → Chain (unlink q next (before 0 xs tcb) tcb).1 h ys
unfolding unlink
unlink-other q next tcb xs h ys v e apart c = elim (Bool-cases (before 0 xs tcb == 0)) [
  | inl z ↦ rw z (Chain-update next tcb 0 h ys (All-has (λ x. NotIn x ys) tcb xs apart e) c)
  | inr z ↦ rw z (
      Chain-update (update next (before 0 xs tcb) (next tcb)) tcb 0 h ys
        (All-has (λ x. NotIn x ys) tcb xs apart e)
        (Chain-update next (before 0 xs tcb) (next tcb) h ys
          (All-before (λ x. NotIn x ys) 0 xs tcb (Chain-NotIn_zero next h ys c) apart) c))
]

-- `remove` says whether the thread was in the queue, takes it out, keeps the order of the others,
-- and leaves every list apart from the queue as it was.
pub remove-Holds :
    (fuel : ℕ) (q : RunQueue) (next : Links) (tcb : ℕ) (xs : List ℕ)
    → length xs < fuel
    → 0 < tcb
    → Holds next q xs
    → (q' : RunQueue) × (next' : Links) × (remove fuel q next tcb ≡ some (has tcb xs, q', next'))
      × Holds next' q' (erase tcb xs)
      × ((h : ℕ) (ys : List ℕ) → All (λ x. NotIn x ys) xs → Chain next h ys → Chain next' h ys)
unfolding remove
remove-Holds fuel q next tcb xs f p v = elim (Bool-cases (has tcb xs)) [
  | inl e ↦
      let (q', next') = unlink q next (before 0 xs tcb) tcb in
      (
        q',
        next',
        remove_from_lem fuel q next 0 q.head tcb xs f v.chain p ∙ rw e,
        unlink-Holds q next tcb xs v e,
        λ h ys apart c. unlink-other q next tcb xs h ys v e apart c,
      )
  | inr e ↦ (
    q,
    next,
    remove_from_lem fuel q next 0 q.head tcb xs f v.chain p ∙ rw e,
    subst (Holds next q) (sym (erase-NotIn tcb xs (NotIn-not_has tcb xs e))) v,
    λ h ys apart c. c,
  )
]
