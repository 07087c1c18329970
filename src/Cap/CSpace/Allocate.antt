-- ===== src/Cap/CSpace/Allocate.antt =====
-- `allocate_slot` and `free_slot`.
use seraph.Prelude.{
  ℕ, zero, suc, ◌+◌, ◌-◌, ◌/◌, ◌%◌, ◌^◌, ◌≤◌, ◌<◌, ◌≡◌, ◌≢◌, ◌⊎◌, inl, inr, refl, sym, ◌∙◌, ap,
  subst, true, Option, none, some, List, [], ◌∷◌, arith, if-true, lt→ltb, update, update_self,
  update_ne, ltb, NotIn,
}
use seraph.Cap.Slot.{CapabilitySlot, null_slot, is_null, set_next_free, next_free}
use seraph.Cap.CSpace.{
  CSpace, Outcome, ok, err, out_of_slots, slot, write_slot, grow, pop_free, allocate_slot,
  free_slot, and_then, ok_or, invalid_index,
}
use seraph.Cap.CSpace.Free.{
  Slots, FreeList, FreeList-update, Valid, Valid-small, Exact, run, set_next_free-some,
}
use seraph.Cap.CSpace.Grow.{Grows, grow-Grows}

-- A slot in use can be looked up.
pub slot-Valid :
    (cs : CSpace) (n : ℕ) (xs : List ℕ) (i : ℕ)
    → Valid cs n xs
    → 0 < i
    → i ≤ cs.allocated_slots
    → slot cs i ≡ some (some (cs.slots i))
unfolding slot
slot-Valid cs n xs i v p h =
    let page : i / 64 < n = omega (arith, v.in_pages, h, p) in
    if-true _ _ (ltb (i / 64) 256) (lt→ltb (i / 64) 256 (omega (arith, page, v.pages)))
    ∙ ap some (if-true _ _ (cs.directory (i / 64)) (v.mapped (i / 64) page))

abbrev pub popped : CSpace → ℕ → CSpace
popped cs x = record (write_slot cs x null_slot) {
  free_head = next_free (cs.slots x);
  free_count = (cs.free_count + 2 ^ 64 - 1) % 2 ^ 64;
}

pop_free-run :
    (cs : CSpace) (x : ℕ)
    → cs.free_head ≡ some x
    → slot cs x ≡ some (some (cs.slots x))
    → pop_free cs ≡ ok x (popped cs x)
unfolding pop_free
pop_free-run cs x e s =
    ap
      (λ o. and_then (ok_or o out_of_slots cs) (λ idx cs. elim (slot cs idx) [
        | none ↦ Outcome.panic
        | some o ↦ and_then (ok_or o invalid_index cs) (λ s cs.
            ok idx (record (write_slot cs idx null_slot) {
              free_head = next_free s;
              free_count = (cs.free_count + 2 ^ 64 - 1) % 2 ^ 64;
            }))
      ]))
      e
    ∙ ap
        (λ p. elim p [
          | none ↦ Outcome.panic
          | some o ↦ and_then (ok_or o invalid_index cs) (λ s cs.
              ok x (record (write_slot cs x null_slot) {
                free_head = next_free s;
                free_count = (cs.free_count + 2 ^ 64 - 1) % 2 ^ 64;
              }))
        ])
        s

-- The free list without its first slot.
pub popped-Valid :
    (cs : CSpace) (n x : ℕ) (xs : List ℕ) → Valid cs n (x ∷ xs) → Valid (popped cs x) n xs
popped-Valid cs n x xs v =
    let small = Valid-small cs n (x ∷ xs) v in
    record {
      mapped = v.mapped;
      unmapped = v.unmapped;
      pages = v.pages;
      in_pages = v.in_pages;
      in_quota = v.in_quota;
      at_limit = v.at_limit;
      zero_slot = λ p.
          ap is_null (update_ne cs.slots x null_slot 0 (λ e. omega (arith, e, v.free.1)))
          ∙ v.zero_slot p;
      free = FreeList-update cs.slots x null_slot (next_free (cs.slots x)) xs v.distinct.0 v.free.3;
      counted = omega (arith, v.counted, small, v.in_pages, v.pages);
      places = v.places.1;
      distinct = v.distinct.1;
    }

pub run-cons : (first k : ℕ) (xs : List ℕ) → run first (suc k) xs ≡ first ∷ run (first + 1) k xs
run-cons first zero xs = let e : first + 0 ≡ first = omega arith in ap (λ i. i ∷ xs) e
run-cons first (suc k) xs =
    let e : first + suc k ≡ first + 1 + k = omega arith in
    run-cons first k ((first + suc k) ∷ xs) ∙ ap (λ i. first ∷ run (first + 1) k (i ∷ xs)) e

-- What `allocate_slot` leaves: the slot `x` is null and off the free list.
pub record Allocates (cs : CSpace) (xs : List ℕ) (x m : ℕ) (rest : List ℕ) (cs' : CSpace)
    : Type 0 where
  pub returns : allocate_slot cs ≡ ok x cs'
  pub valid : Valid cs' m rest
  pub pos : 0 < x
  pub in_use : x ≤ cs'.allocated_slots
  pub off : NotIn x rest
  pub was_free : x ≤ cs.allocated_slots → is_null (cs.slots x) ≡ true
  pub grown : cs.allocated_slots ≤ cs'.allocated_slots
  pub quota : cs'.max_slots ≡ cs.max_slots
  pub others : (i : ℕ) → 0 < i → i ≤ cs.allocated_slots → i ≢ x → cs'.slots i ≡ cs.slots i
  pub exact :
      Exact cs xs
      → (i : ℕ) → 0 < i
      → i ≤ cs'.allocated_slots
      → i ≢ x
      → is_null (cs'.slots i) ≡ true
      → NotIn i rest
      → ⊥

module _ (cs : CSpace) (n : ℕ) where
  allocate_slot-head : (x : ℕ) → cs.free_head ≡ some x → allocate_slot cs ≡ pop_free cs
  unfolding allocate_slot
  allocate_slot-head x e =
      ap
        (λ (o : Option ℕ). elim o [
          | none ↦ and_then (grow cs) (λ _ cs. pop_free cs)
          | some idx ↦ pop_free cs
        ])
        e

  allocate_slot-grow :
      (r : Outcome (Unit {0}))
      → cs.free_head ≡ none
      → grow cs ≡ r
      → allocate_slot cs ≡ and_then r (λ _ cs. pop_free cs)
  unfolding allocate_slot
  allocate_slot-grow r e g =
      ap
        (λ (o : Option ℕ). elim o [
          | none ↦ and_then (grow cs) (λ _ cs. pop_free cs)
          | some idx ↦ pop_free cs
        ])
        e
      ∙ ap (λ r. and_then r (λ _ cs. pop_free cs)) g

  pop-Allocates :
      (x : ℕ) (xs : List ℕ) → Valid cs n (x ∷ xs) → Allocates cs (x ∷ xs) x n xs (popped cs x)
  pop-Allocates x xs v = record {
    returns =
        allocate_slot-head x v.free.0
        ∙ pop_free-run cs x v.free.0 (slot-Valid cs n (x ∷ xs) x v v.free.1 v.places.0);
    valid = popped-Valid cs n x xs v;
    pos = v.free.1;
    in_use = v.places.0;
    off = v.distinct.0;
    was_free = λ _. v.free.2;
    grown = omega arith;
    quota = refl;
    others = λ i p h ne. update_ne cs.slots x null_slot i ne;
    exact = λ exact i p h ne z out.
        exact i p h (sym (ap is_null (update_ne cs.slots x null_slot i ne)) ∙ z)
          (λ e. ne (sym e), out);
  }

  grow-Allocates :
      (k : ℕ) (cs' : CSpace)
      → Valid cs n []
      → Grows cs n [] (suc k) cs'
      → let x : ℕ = cs.allocated_slots + 1 in
        Allocates cs [] x (suc n) (run (x + 1) k []) (popped cs' x)
  grow-Allocates k cs' v g =
      let x : ℕ = cs.allocated_slots + 1 in
      let rest = run (x + 1) k [] in
      let v' : Valid cs' (suc n) (x ∷ rest) = subst (Valid cs' (suc n)) (run-cons x k []) g.valid in
      record {
        returns =
            allocate_slot-grow (ok tt cs') v.free g.returns
            ∙ pop_free-run cs' x v'.free.0
                (slot-Valid cs' (suc n) (x ∷ rest) x v' v'.free.1 v'.places.0);
        valid = popped-Valid cs' (suc n) x rest v';
        pos = omega arith;
        in_use = v'.places.0;
        off = v'.distinct.0;
        was_free = λ h. absurd (omega (arith, h));
        grown = omega (arith, g.allocated);
        quota = g.quota;
        others = λ i p h ne. update_ne cs'.slots x null_slot i ne ∙ g.others i p h;
        exact = λ exact i p h ne z out.
            g.exact exact i p h (sym (ap is_null (update_ne cs'.slots x null_slot i ne)) ∙ z)
              (subst (NotIn i) (sym (run-cons x k [])) (λ e. ne (sym e), out));
      }

  -- With no slot free and no room to grow, `allocate_slot` fails and changes nothing; or else it
  -- takes a slot that was not in use.
  pub allocate_slot-Allocates :
      (xs : List ℕ)
      → Valid cs n xs
      → (xs ≡ [])
          × ((n ≡ 256) ⊎ (cs.allocated_slots ≡ cs.max_slots))
          × (allocate_slot cs ≡ err out_of_slots cs)
        ⊎ ((x : ℕ) × (m : ℕ) × (rest : List ℕ) × (cs' : CSpace) × Allocates cs xs x m rest cs')
  allocate_slot-Allocates (x ∷ xs) v = inr (x, n, xs, popped cs x, pop-Allocates x xs v)
  allocate_slot-Allocates [] v = elim (grow-Grows cs n [] v) [
    | inl (full, e) ↦ inl (refl, full, allocate_slot-grow (err out_of_slots cs) v.free e)
    | inr (k, cs', g) ↦ inr (go k cs' g)
  ]
    where
      go :
          (k : ℕ) (cs' : CSpace)
          → Grows cs n [] k cs'
          → (x : ℕ) × (m : ℕ) × (rest : List ℕ) × (cs' : CSpace) × Allocates cs [] x m rest cs'
      go zero cs' g = absurd (omega (arith, g.more))
      go (suc k) cs' g =
          let x : ℕ = cs.allocated_slots + 1 in
          (x, suc n, run (x + 1) k [], popped cs' x, grow-Allocates k cs' v g)

  -- What `free_slot` leaves.
  pub record Frees (xs : List ℕ) (i : ℕ) (cs' : CSpace) : Type 0 where
    pub returns : free_slot cs i ≡ ok tt cs'
    pub valid : Valid cs' n (i ∷ xs)
    pub exact : Exact cs xs → Exact cs' (i ∷ xs)
    pub allocated : cs'.allocated_slots ≡ cs.allocated_slots
    pub others : (j : ℕ) → j ≢ i → cs'.slots j ≡ cs.slots j

  free_slot-run :
      (i : ℕ) (s : CapabilitySlot)
      → slot cs i ≡ some (some (cs.slots i))
      → set_next_free cs.free_head ≡ some s
      → free_slot cs i
        ≡ ok tt (record (write_slot cs i s) {
          free_head = some i;
          free_count = (cs.free_count + 1) % 2 ^ 64;
        })
  unfolding free_slot
  free_slot-run i s e n = rw (e, free_slot, n) refl

  -- `free_slot` of a slot in use that is not on the free list puts it in front of the free list, and
  -- keeps all other slots.
  pub free_slot-Frees :
      (xs : List ℕ) (i : ℕ)
      → Valid cs n xs
      → 0 < i
      → i ≤ cs.allocated_slots
      → NotIn i xs
      → (cs' : CSpace) × Frees xs i cs'
  free_slot-Frees xs i v p h out =
      let (s, e, s_null, s_next) = set_next_free-some cs.slots cs.free_head xs v.free in
      let self = update_self cs.slots i s in
      let slots : Slots = update cs.slots i s in
      let cs' : CSpace = record (write_slot cs i s) {
        free_head = some i;
        free_count = (cs.free_count + 1) % 2 ^ 64;
      } in
      let other = λ (j : ℕ) (ne : j ≢ i). update_ne cs.slots i s j ne in
      (
        cs',
        record {
          returns = free_slot-run i s (slot-Valid cs n xs i v p h) e;
          valid = record {
            mapped = v.mapped;
            unmapped = v.unmapped;
            pages = v.pages;
            in_pages = v.in_pages;
            in_quota = v.in_quota;
            at_limit = v.at_limit;
            zero_slot = λ q. ap is_null (other 0 (λ e. omega (arith, e, p))) ∙ v.zero_slot q;
            free = (
              refl,
              p,
              ap is_null self ∙ s_null,
              subst (λ o. FreeList slots o xs) (sym (ap next_free self ∙ s_next))
                  (FreeList-update cs.slots i s cs.free_head xs out v.free),
            );
            counted = omega (arith, v.counted, Valid-small cs n xs v, v.in_pages, v.pages);
            places = (h, v.places);
            distinct = (out, v.distinct);
          };
          exact = λ exact j q l z apart.
              exact j q l (sym (ap is_null (other j (λ e. apart.0 (sym e)))) ∙ z) apart.1;
          allocated = refl;
          others = other;
        },
      )
