-- ===== src/Cap/CSpace/Grow.antt =====
-- `grow`.
use native.Mathlib.Decide.{ℕ_discrete, dec_le}
use seraph.Prelude.{
  ℕ, suc, ◌+◌, ◌-◌, ◌*◌, ◌/◌, ◌%◌, ◌^◌, ◌≤◌, ◌<◌, ◌≡◌, ◌≢◌, ◌⊎◌, inl, inr, refl, sym, ◌∙◌, ap,
  subst, true, Option, none, some, List, arith, ◌==◌, if◌then◌else◌, if-true, if-false, ==_ne,
  update, update_self, update_ne,
}
use seraph.Cap.Slot.{is_null}
use seraph.Cap.CSpace.{
  CSpace, Outcome, ok, err, out_of_slots, position, thread, zeroed, new_free_slots, grow,
}
use seraph.Cap.CSpace.Free.{
  Slots, FreeList, FreeList-agree, FreeList-pos, Valid, Exact, run, length-run, All-run, NotIn-run,
  All-weaken, All-both, Distinct-run, Valid-small, position_lem, position-none, Threads,
  thread-Threads,
}

-- What `grow` leaves: `k` slots more, in front of the free list.
pub record Grows (cs : CSpace) (n : ℕ) (xs : List ℕ) (k : ℕ) (cs' : CSpace) : Type 0 where
  pub returns : grow cs ≡ ok tt cs'
  pub valid : Valid cs' (suc n) (run (cs.allocated_slots + 1) k xs)
  pub exact : Exact cs xs → Exact cs' (run (cs.allocated_slots + 1) k xs)
  pub more : 0 < k
  pub allocated : cs'.allocated_slots ≡ cs.allocated_slots + k
  pub quota : cs'.max_slots ≡ cs.max_slots
  pub others : (i : ℕ) → 0 < i → i ≤ cs.allocated_slots → cs'.slots i ≡ cs.slots i
  pub fresh :
      (i : ℕ) → cs.allocated_slots < i → i ≤ cs'.allocated_slots → is_null (cs'.slots i) ≡ true

module _ (cs : CSpace) (n : ℕ) (xs : List ℕ) (v : Valid cs n xs) where
  abbrev k : ℕ
  k = new_free_slots cs n

  abbrev start : ℕ
  start = if n == 0 then 1 else 0

  start_lem : (n == 0 ≡ true) × (n ≡ 0) × (start ≡ 1) ⊎ (0 < n) × (start ≡ 0)
  start_lem = elim (ℕ_discrete n 0) [
    | yes e ↦ inl (rw e refl, e, rw e refl)
    | no e ↦ inr (omega arith, rw (==_ne n 0 e) refl)
  ]

  -- There is room in the next page.
  room :
      cs.allocated_slots ≢ cs.max_slots
      → (n * 64 + start ≡ cs.allocated_slots + 1)
        × (0 < k)
        × (cs.allocated_slots + k ≤ suc n * 64 - 1)
        × (cs.allocated_slots + k ≤ cs.max_slots)
        × ((cs.allocated_slots + k ≡ suc n * 64 - 1) ⊎ (cs.allocated_slots + k ≡ cs.max_slots))
  room h = elim start_lem [
    | inl (_, z, e) ↦ omega (arith, v.in_quota, v.at_limit, h, z, e)
    | inr (p, e) ↦ omega (arith, v.in_quota, v.at_limit, h, p, e)
  ]

  grow-full : n ≡ 256 → grow cs ≡ err out_of_slots cs
  unfolding grow
  grow-full e = rw (position-none cs.directory n 0 256 v.mapped (omega (arith, e)), grow) refl

  first_free : n < 256 → position cs.directory 0 256 ≡ some n
  first_free h =
      position_lem cs.directory n 0 256 v.mapped (v.unmapped n (omega arith)) (omega arith)
        (omega arith)

  grow-quota : n < 256 → cs.allocated_slots ≡ cs.max_slots → grow cs ≡ err out_of_slots cs
  unfolding grow
  grow-quota h e = rw (first_free h, grow) (if-true _ _ (k == 0) (rw none_left refl))
    where
      none_left : k ≡ 0
      none_left = omega (arith, e)

  abbrev grown : Slots → Option ℕ → CSpace
  grown slots head = record cs {
    slots = slots;
    free_head = head;
    allocated_slots = cs.allocated_slots + k;
    free_count = (cs.free_count + k) % 2 ^ 64;
    directory = update cs.directory n true;
  }

  grow-run :
      (slots : Slots) (head : Option ℕ)
      → n < 256
      → 0 < k
      → thread (zeroed cs.slots n) (n * 64 + start) k cs.free_head ≡ some (slots, head)
      → grow cs ≡ ok tt (grown slots head)
  unfolding grow
  grow-run slots head h p e =
      rw (first_free h, grow)
        (if-false _ _ (k == 0) (==_ne k 0 (λ z. omega (arith, z, p)))
          ∙ ap
              (λ (o : Option (Slots × Option ℕ)). elim o [
                | none ↦ Outcome.panic
                | some (slots, next) ↦ ok tt (grown slots next)
              ])
              e)

  zeroed_ne : (x : ℕ) → 0 < x → x ≤ cs.allocated_slots → zeroed cs.slots n x ≡ cs.slots x
  zeroed_ne x p h =
      if-false _ _ (x / 64 == n) (==_ne (x / 64) n (λ e. omega (arith, e, v.in_pages, p, h)))

  threaded :
      cs.allocated_slots ≢ cs.max_slots
      → (slots : Slots) × (head : Option ℕ) × Threads
          (zeroed cs.slots n)
          (n * 64 + start)
          k
          cs.free_head
          xs
          slots
          head
  threaded h =
      let (first, _, _, _, _) = room h in
      let both = All-both _ _ xs (FreeList-pos cs.slots cs.free_head xs v.free) v.places in
      thread-Threads (zeroed cs.slots n) (n * 64 + start) k cs.free_head xs (omega (arith, first))
        (FreeList-agree cs.slots (zeroed cs.slots n) cs.free_head xs
          (All-weaken _ _ xs (λ x b. zeroed_ne x b.0 b.1) both) v.free)
        (All-weaken _ _ xs (λ x b. omega (arith, first, b.1)) both)

  zero-null :
      (slots : Slots) (head : Option ℕ)
      → Threads (zeroed cs.slots n) (n * 64 + start) k cs.free_head xs slots head
      → is_null (slots 0) ≡ true
  zero-null slots head t = elim start_lem [
    | inl (_, z, e) ↦
        ap is_null (t.others 0 (inl (omega (arith, e))))
        ∙ ap is_null (if-true _ _ (0 / 64 == n) (rw z refl))
    | inr (p, e) ↦
        ap is_null (t.others 0 (inl (omega (arith, p))))
        ∙ ap is_null (if-false _ _ (0 / 64 == n) (==_ne (0 / 64) n (λ z. omega (arith, z, p))))
        ∙ v.zero_slot p
  ]

  grown-Valid :
      (slots : Slots) (head : Option ℕ)
      → n < 256
      → cs.allocated_slots ≢ cs.max_slots
      → Threads (zeroed cs.slots n) (n * 64 + start) k cs.free_head xs slots head
      → Valid (grown slots head) (suc n) (run (cs.allocated_slots + 1) k xs)
  grown-Valid slots head h ne t =
      let (first, _, in_pages, in_quota, at_limit) = room ne in
      let a : ℕ = cs.allocated_slots in
      record {
        mapped = λ p q. elim (ℕ_discrete p n) [
          | yes e ↦ ap (update cs.directory n true) e ∙ update_self cs.directory n true
          | no e ↦ update_ne cs.directory n true p e ∙ v.mapped p (omega arith)
        ];
        unmapped = λ p q.
            update_ne cs.directory n true p (λ e. omega (arith, e, q)) ∙ v.unmapped p (omega arith);
        pages = omega arith;
        in_pages = in_pages;
        in_quota = in_quota;
        at_limit = at_limit;
        zero_slot = λ _. zero-null slots head t;
        free = subst (λ f. FreeList slots head (run f k xs)) first t.free;
        counted = omega (
          arith,
          v.counted,
          length-run (a + 1) k xs,
          Valid-small cs n xs v,
          in_pages,
          v.in_pages,
          h,
        );
        places =
            All-run _ (a + 1) k xs (λ i lo hi. omega (arith, hi))
              (All-weaken _ _ xs (λ x b. omega (arith, b)) v.places);
        distinct =
            Distinct-run (a + 1) k xs (All-weaken _ _ xs (λ x b. omega (arith, b)) v.places)
              v.distinct;
      }

  -- With the quota or the directory used up, `grow` fails and changes nothing; or else it adds a
  -- page, whose slots come in front of the free list, and keeps the slots that were there.
  pub grow-Grows :
      ((n ≡ 256) ⊎ (cs.allocated_slots ≡ cs.max_slots)) × (grow cs ≡ err out_of_slots cs)
      ⊎ ((j : ℕ) × (cs' : CSpace) × Grows cs n xs j cs')
  grow-Grows = elim (ℕ_discrete n 256) [
    | yes e ↦ inl (inl e, grow-full e)
    | no e ↦
        let small : n < 256 = omega (arith, v.pages, e) in
        elim (ℕ_discrete cs.allocated_slots cs.max_slots) [
          | yes q ↦ inl (inr q, grow-quota small q)
          | no q ↦ let (cs', g) = add small q in inr (k, cs', g)
        ]
  ]
    where
      add : n < 256 → cs.allocated_slots ≢ cs.max_slots → (cs' : CSpace) × Grows cs n xs k cs'
      add small q =
          let (first, more, _, _, _) = room q in
          let (slots, head, t) = threaded q in
          let a : ℕ = cs.allocated_slots in
          let kept = λ (i : ℕ) (p : 0 < i) (h : i ≤ a).
            t.others i (inl (omega (arith, first, h))) ∙ zeroed_ne i p h in
          (
            grown slots head,
            record {
              returns = grow-run slots head small more t.returns;
              valid = grown-Valid slots head small q t;
              exact = λ x i p h z out.
                  let (apart, below) = NotIn-run i (a + 1) k xs out in
                  elim (dec_le i a) [
                    | yes l ↦ x i p l (sym (ap is_null (kept i p l)) ∙ z) apart
                    | no l ↦ below i (omega arith) (omega (arith, h)) refl
                  ];
              more = more;
              allocated = refl;
              quota = refl;
              others = kept;
              fresh = λ i lo hi. t.nulls i (omega (arith, first, lo)) (omega (arith, first, hi));
            },
          )
