-- ===== src/Cap/CSpace/Prewarm.antt =====
-- `pre_allocate`.
use native.Mathlib.Decide.{dec_lt}
use seraph.Prelude.{
  ℕ, zero, suc, ◌+◌, ◌≤◌, ◌<◌, ◌≡◌, ◌⊎◌, inl, inr, refl, ◌∙◌, ap, false, List, arith, ltb, if-true,
  if-false, lt→ltb, length,
}
use seraph.Cap.CSpace.{CSpace, Outcome, ok, err, out_of_slots, grow, and_then, pre_allocate}
use seraph.Cap.CSpace.Free.{Valid, Exact}
use seraph.Cap.CSpace.Grow.{grow-Grows}

-- What holds when `pre_allocate` ends: the space is well-formed, and the slots in use before are as
-- they were.
pub record Ends (cs : CSpace) (xs : List ℕ) (m : ℕ) (xs' : List ℕ) (cs' : CSpace) : Type 0 where
  pub valid : Valid cs' m xs'
  pub exact : Exact cs xs → Exact cs' xs'
  pub grown : cs.allocated_slots ≤ cs'.allocated_slots
  pub others : (i : ℕ) → 0 < i → i ≤ cs.allocated_slots → cs'.slots i ≡ cs.slots i

module _ (min_free : ℕ) where
  more :
      (fuel : ℕ) (cs : CSpace) (r : Outcome (Unit {0}))
      → cs.free_count < min_free
      → grow cs ≡ r
      → pre_allocate (suc fuel) cs min_free ≡ and_then r (λ _ cs. pre_allocate fuel cs min_free)
  unfolding pre_allocate
  more fuel cs r h g =
      if-true _ _ (ltb cs.free_count min_free) (lt→ltb cs.free_count min_free h)
      ∙ ap (λ (r : Outcome (Unit {0})). and_then r (λ _ cs. pre_allocate fuel cs min_free)) g

  enough :
      (fuel : ℕ) (cs : CSpace)
      → min_free ≤ cs.free_count
      → pre_allocate (suc fuel) cs min_free ≡ ok tt cs
  unfolding pre_allocate
  enough fuel cs h = if-false _ _ (ltb cs.free_count min_free) (not_lt cs.free_count min_free h)
    where
      not_lt : (a b : ℕ) → b ≤ a → ltb a b ≡ false
      not_lt a b h = ground arith

  -- `pre_allocate` of a well-formed space ends within 257 rounds less the pages that are there: with
  -- as many slots free as were asked for, or with an error once the directory is full or the quota
  -- used up; and it keeps the space well-formed.
  pub pre_allocate-Ends :
      (fuel : ℕ) (cs : CSpace) (n : ℕ) (xs : List ℕ)
      → 256 < n + fuel
      → Valid cs n xs
      → (m : ℕ) × (xs' : List ℕ) × (cs' : CSpace) × Ends cs xs m xs' cs'
        × ((pre_allocate fuel cs min_free ≡ ok tt cs') × (min_free ≤ length xs')
            ⊎ (pre_allocate fuel cs min_free ≡ err out_of_slots cs')
              × (length xs' < min_free)
              × ((m ≡ 256) ⊎ (cs'.allocated_slots ≡ cs'.max_slots)))
  pre_allocate-Ends zero cs n xs f v = absurd (omega (arith, v.pages))
  pre_allocate-Ends (suc fuel) cs n xs f v = elim (dec_lt cs.free_count min_free) [
    | no h ↦ (n, xs, cs, start, inl (enough fuel cs (omega arith), omega (arith, v.counted)))
    | yes h ↦ elim (grow-Grows cs n xs v) [
      | inl (full, e) ↦ (
        n,
        xs,
        cs,
        start,
        inr (more fuel cs (err out_of_slots cs) h e, omega (arith, v.counted), full),
      )
      | inr (k, cs1, g) ↦
          let (m, xs', cs', r, outcome) =
            pre_allocate-Ends fuel cs1 (suc n) _ (omega arith) g.valid in
          let step = more fuel cs (ok tt cs1) h g.returns in
          (
            m,
            xs',
            cs',
            record {
              valid = r.valid;
              exact = λ exact. r.exact (g.exact exact);
              grown = omega (arith, r.grown, g.allocated);
              others = λ i p q. r.others i p (omega (arith, q, g.allocated)) ∙ g.others i p q;
            },
            elim outcome [
              | inl (e, q) ↦ inl (step ∙ e, q)
              | inr (e, q, full) ↦ inr (step ∙ e, q, full)
            ],
          )
    ]
  ]
    where
      start : Ends cs xs n xs cs
      start = record {
        valid = v;
        exact = λ exact. exact;
        grown = omega arith;
        others = λ i p q. refl;
      }
