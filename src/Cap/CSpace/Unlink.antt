-- ===== src/Cap/CSpace/Unlink.antt =====
-- `remove_from_free_list`.
use seraph.Prelude.{
  ℕ, zero, suc, ◌+◌, ◌-◌, ◌%◌, ◌^◌, ◌≤◌, ◌<◌, ◌≡◌, ◌≢◌, refl, sym, ◌∙◌, ap, subst, Bool, true,
  false, false≢true, Option, none, some, List, [], ◌∷◌, arith, ◌==◌, if◌then◌else◌, if-true,
  if-false, ==_iff, Bool-cases, update, update_self, update_ne, length, inl, inr, All, NotIn,
  Distinct, has, erase, Distinct-erase, All-erase, length-erase,
}
use seraph.Cap.Slot.{CapabilitySlot, is_null, set_next_free, next_free}
use seraph.Cap.CSpace.{
  CSpace, Outcome, ok, slot, write_slot, next_of, unlink_free, remove_from_free_list,
}
use seraph.Cap.CSpace.Free.{
  Slots, FreeList, FreeList-update, Valid, Valid-small, set_next_free-some,
}
use seraph.Cap.CSpace.Allocate.{slot-Valid}

-- A slot that is not null is not free.
pub FreeList-NotIn :
    (slots : Slots) (h : Option ℕ) (xs : List ℕ) (i : ℕ)
    → FreeList slots h xs
    → is_null (slots i) ≡ false
    → NotIn i xs
FreeList-NotIn slots h [] i v z = tt
FreeList-NotIn slots h (x ∷ xs) i v z = (
  λ e. false≢true (sym z ∙ ap (λ k. is_null (slots k)) (sym e) ∙ v.2),
  FreeList-NotIn slots (next_free (slots x)) xs i v.3 z,
)

abbrev dropped : ℕ → ℕ
dropped count = (count + 2 ^ 64 - 1) % 2 ^ 64

module _ (cs : CSpace)
    (look : (i : ℕ) → 0 < i → i ≤ cs.allocated_slots → slot cs i ≡ some (some (cs.slots i))) where
  next_of_lem :
      (i : ℕ) → 0 < i → i ≤ cs.allocated_slots → next_of cs i ≡ some (next_free (cs.slots i))
  unfolding next_of
  next_of_lem i p h = rw (look i p h, next_of) refl

  -- The free list after `unlink_free`, which has gone on from the slot `x`.
  record Unlinks (fuel x t : ℕ) (xs : List ℕ) (slots : Slots) : Type 0 where
    returns :
        unlink_free fuel cs x t
        ≡ ok true (record cs { slots = slots; free_count = dropped cs.free_count })
    free : FreeList slots (next_free (slots x)) (erase t xs)
    nulls : (i : ℕ) → is_null (slots i) ≡ is_null (cs.slots i)
    others : (i : ℕ) → i ≢ x → NotIn i xs → slots i ≡ cs.slots i

  spliced : ℕ → ℕ → Outcome Bool
  spliced cur target = elim (next_of cs target) [
    | none ↦ Outcome.panic
    | some after ↦ elim (set_next_free after) [
      | none ↦ Outcome.panic
      | some s ↦ ok true (record (write_slot cs cur s) { free_count = dropped cs.free_count })
    ]
  ]

  unlink_free-step :
      (fuel x y t : ℕ)
      → next_of cs x ≡ some (some y)
      → unlink_free (suc fuel) cs x t ≡ (if y == t then spliced x t else unlink_free fuel cs y t)
  unfolding unlink_free spliced
  unlink_free-step fuel x y t e = rw (e, unlink_free) refl

  spliced-run :
      (x t : ℕ) (s : CapabilitySlot)
      → next_of cs t ≡ some (next_free (cs.slots t))
      → set_next_free (next_free (cs.slots t)) ≡ some s
      → spliced x t ≡ ok true (record (write_slot cs x s) { free_count = dropped cs.free_count })
  unfolding spliced
  spliced-run x t s e n = rw (e, spliced, n) refl

  unlink_free-Unlinks :
      (fuel x t : ℕ) (xs : List ℕ)
      → length xs < fuel
      → 0 < x
      → x ≤ cs.allocated_slots
      → is_null (cs.slots x) ≡ true
      → FreeList cs.slots (next_free (cs.slots x)) xs
      → All (λ y. y ≤ cs.allocated_slots) xs
      → Distinct (x ∷ xs)
      → has t xs ≡ true
      → (slots : Slots) × Unlinks fuel x t xs slots
  unlink_free-Unlinks zero x t xs f p h z v a d e = absurd (omega arith)
  unlink_free-Unlinks (suc fuel) x t [] f p h z v a d e = elim (false≢true e) [ ]
  unlink_free-Unlinks (suc fuel) x t (y ∷ ys) f p h z v a d e =
      let step = unlink_free-step fuel x y t (next_of_lem x p h ∙ ap some v.0) in
      elim (Bool-cases (y == t)) [
        | inl q ↦
            let same : y ≡ t = (==_iff y t).0 q in
            let rest = subst (λ k. FreeList cs.slots (next_free (cs.slots k)) ys) same v.3 in
            let next =
              next_of_lem t (subst (λ k. 0 < k) same v.1)
                (subst (λ k. k ≤ cs.allocated_slots) same a.0) in
            let (s, n, s_null, s_next) =
              set_next_free-some cs.slots (next_free (cs.slots t)) ys rest in
            let self = update_self cs.slots x s in
            (
              update cs.slots x s,
              record {
                returns = step ∙ if-true _ _ (y == t) q ∙ spliced-run x t s next n;
                free =
                    subst
                      (λ b.
                        FreeList (update cs.slots x s) (next_free (update cs.slots x s x))
                          (if b then ys else (y ∷ erase t ys)))
                      (sym q)
                      (subst (λ o. FreeList (update cs.slots x s) o ys)
                        (sym (ap next_free self ∙ s_next))
                        (FreeList-update cs.slots x s (next_free (cs.slots t)) ys d.0.1 rest));
                nulls = λ i. nulls s s_null i;
                others = λ i ne out. update_ne cs.slots x s i ne;
              },
            )
        | inr q ↦
            let (slots, u) =
              unlink_free-Unlinks fuel y t ys (omega arith) v.1 a.0 v.2 v.3 a.1 d.1 (rw q at e) in
            let kept : slots x ≡ cs.slots x = u.others x (λ e. d.0.0 (sym e)) d.0.1 in
            (
              slots,
              record {
                returns = step ∙ if-false _ _ (y == t) q ∙ u.returns;
                free =
                    subst
                      (λ b.
                        FreeList slots (next_free (slots x)) (if b then ys else (y ∷ erase t ys)))
                      (sym q) (ap next_free kept ∙ v.0, v.1, u.nulls y ∙ v.2, u.free);
                nulls = u.nulls;
                others = λ i ne out. u.others i (λ e. out.0 (sym e)) out.1;
              },
            )
      ]
    where
      nulls :
          (s : CapabilitySlot)
          → is_null s ≡ true
          → (i : ℕ) → is_null (update cs.slots x s i) ≡ is_null (cs.slots i)
      nulls s s_null i = elim (Bool-cases (i == x)) [
        | inl q ↦
            ap is_null (if-true s (cs.slots i) (i == x) q)
            ∙ s_null
            ∙ sym z
            ∙ ap (λ k. is_null (cs.slots k)) (sym ((==_iff i x).0 q))
        | inr q ↦ ap is_null (if-false s (cs.slots i) (i == x) q)
      ]

-- What `remove_from_free_list` leaves.
pub record Removes (fuel : ℕ) (cs : CSpace) (n : ℕ) (xs : List ℕ) (t : ℕ) (cs' : CSpace)
    : Type 0 where
  pub returns : remove_from_free_list fuel cs t ≡ ok true cs'
  pub valid : Valid cs' n (erase t xs)
  pub allocated : cs'.allocated_slots ≡ cs.allocated_slots
  pub nulls : (i : ℕ) → is_null (cs'.slots i) ≡ is_null (cs.slots i)
  pub others : (i : ℕ) → is_null (cs.slots i) ≡ false → cs'.slots i ≡ cs.slots i

module _ (fuel : ℕ) (cs : CSpace) (n t : ℕ) where
  remove-head :
      (next : Option ℕ)
      → cs.free_head ≡ some t
      → next_of cs t ≡ some next
      → remove_from_free_list fuel cs t
        ≡ ok true (record cs { free_head = next; free_count = dropped cs.free_count })
  unfolding remove_from_free_list
  remove-head next e r =
      ap
        (λ (o : Option ℕ). elim o [
          | none ↦ ok false cs
          | some head ↦ if head == t then popped else unlink_free fuel cs head t
        ])
        e
      ∙ if-true _ _ (t == t) ((==_iff t t).1 refl)
      ∙ ap
          (λ (r : Option (Option ℕ)). elim r [
            | none ↦ Outcome.panic
            | some next ↦
                ok true (record cs { free_head = next; free_count = dropped cs.free_count })
          ])
          r
    where
      popped : Outcome Bool
      popped = elim (next_of cs t) [
        | none ↦ Outcome.panic
        | some next ↦ ok true (record cs { free_head = next; free_count = dropped cs.free_count })
      ]

  remove-later :
      (head : ℕ) (r : Outcome Bool)
      → cs.free_head ≡ some head
      → (head == t) ≡ false
      → unlink_free fuel cs head t ≡ r
      → remove_from_free_list fuel cs t ≡ r
  unfolding remove_from_free_list
  remove-later head r e q u =
      ap
        (λ (o : Option ℕ). elim o [
          | none ↦ ok false cs
          | some head ↦ if head == t then popped else unlink_free fuel cs head t
        ])
        e
      ∙ if-false _ _ (head == t) q
      ∙ u
    where
      popped : Outcome Bool
      popped = elim (next_of cs t) [
        | none ↦ Outcome.panic
        | some next ↦ ok true (record cs { free_head = next; free_count = dropped cs.free_count })
      ]

  -- The parts of the invariant that an unlinked slot leaves.
  removed-Valid :
      (xs : List ℕ) (slots : Slots) (head : Option ℕ)
      → Valid cs n xs
      → has t xs ≡ true
      → FreeList slots head (erase t xs)
      → is_null (slots 0) ≡ is_null (cs.slots 0)
      → Valid
          (record cs { slots = slots; free_head = head; free_count = dropped cs.free_count })
          n
          (erase t xs)
  removed-Valid xs slots head v e free same = record {
    mapped = v.mapped;
    unmapped = v.unmapped;
    pages = v.pages;
    in_pages = v.in_pages;
    in_quota = v.in_quota;
    at_limit = v.at_limit;
    zero_slot = λ p. same ∙ v.zero_slot p;
    free = free;
    counted =
        omega (arith, v.counted, length-erase t xs e, Valid-small cs n xs v, v.in_pages, v.pages);
    places = All-erase _ t xs v.places;
    distinct = Distinct-erase t xs v.distinct;
  }

  -- `remove_from_free_list` of a free slot, with fuel for the list, takes it out of the list, keeps
  -- the order of the others, and writes no slot that holds a capability.
  pub remove_from_free_list-Removes :
      (xs : List ℕ)
      → length xs < fuel
      → Valid cs n xs
      → has t xs ≡ true
      → (cs' : CSpace) × Removes fuel cs n xs t cs'
  remove_from_free_list-Removes [] f v e = elim (false≢true e) [ ]
  remove_from_free_list-Removes (x ∷ xs) f v e = elim (Bool-cases (x == t)) [
    | inl q ↦
        let same : x ≡ t = (==_iff x t).0 q in
        let look = slot-Valid cs n (x ∷ xs) in
        let in_use : t ≤ cs.allocated_slots = subst (λ k. k ≤ cs.allocated_slots) same v.places.0 in
        let pos : 0 < t = subst (λ k. 0 < k) same v.free.1 in
        let rest : FreeList cs.slots (next_free (cs.slots t))
            (if x == t then xs else (x ∷ erase t xs)) =
          subst
            (λ b. FreeList cs.slots (next_free (cs.slots t)) (if b then xs else (x ∷ erase t xs)))
            (sym q) (subst (λ k. FreeList cs.slots (next_free (cs.slots k)) xs) same v.free.3) in
        (
          _,
          record {
            returns =
                remove-head (next_free (cs.slots t)) (v.free.0 ∙ ap some same)
                  (next_of_lem cs (λ i p h. look i v p h) t pos in_use);
            valid = removed-Valid (x ∷ xs) cs.slots (next_free (cs.slots t)) v e rest refl;
            allocated = refl;
            nulls = λ i. refl;
            others = λ i z. refl;
          },
        )
    | inr q ↦
        let look = slot-Valid cs n (x ∷ xs) in
        let (slots, u) =
          unlink_free-Unlinks cs (λ i p h. look i v p h) fuel x t xs (omega arith) v.free.1
            v.places.0 v.free.2 v.free.3 v.places.1 v.distinct (rw q at e) in
        let rest : FreeList slots (some x) (if x == t then xs else (x ∷ erase t xs)) =
          subst (λ b. FreeList slots (some x) (if b then xs else (x ∷ erase t xs))) (sym q)
            (refl, v.free.1, u.nulls x ∙ v.free.2, u.free) in
        (
          _,
          record {
            returns = remove-later x _ v.free.0 q u.returns;
            valid =
                removed-Valid (x ∷ xs) slots cs.free_head v e
                  (subst (λ o. FreeList slots o (if x == t then xs else (x ∷ erase t xs)))
                    (sym v.free.0) rest)
                  (u.nulls 0);
            allocated = refl;
            nulls = u.nulls;
            others = λ i z.
                let out = FreeList-NotIn cs.slots cs.free_head (x ∷ xs) i v.free z in
                u.others i (λ e. out.0 (sym e)) out.1;
          },
        )
  ]
