-- ===== src/Cap/CSpace/Reach.antt =====
-- `grow_to`, the loop of `insert_cap_at` that grows a space up to a page.
use native.Mathlib.Decide.{dec_le, dec_lt}
use seraph.Prelude.{
  ℕ, zero, suc, ◌+◌, ◌*◌, ◌≤◌, ◌<◌, ◌≡◌, inl, inr, refl, ◌∙◌, ap, true, false, not, List, arith,
  ltb, if-true, if-false, lt→ltb,
}
use seraph.Cap.Slot.{is_null}
use seraph.Cap.CSpace.{CSpace, Outcome, ok, and_then, grow, grow_to}
use seraph.Cap.CSpace.Free.{Valid, Exact}
use seraph.Cap.CSpace.Grow.{grow-Grows}

-- What `grow_to` leaves: the page is there.
pub record Reaches (fuel : ℕ) (cs : CSpace) (xs : List ℕ) (page m : ℕ) (xs' : List ℕ) (cs' : CSpace)
    : Type 0 where
  pub returns : grow_to fuel cs page ≡ ok tt cs'
  pub valid : Valid cs' m xs'
  pub there : page < m
  pub exact : Exact cs xs → Exact cs' xs'
  pub grown : cs.allocated_slots ≤ cs'.allocated_slots
  pub quota : cs'.max_slots ≡ cs.max_slots
  pub others : (i : ℕ) → 0 < i → i ≤ cs.allocated_slots → cs'.slots i ≡ cs.slots i
  pub fresh :
      (i : ℕ) → cs.allocated_slots < i → i ≤ cs'.allocated_slots → is_null (cs'.slots i) ≡ true

pub grow_to-there :
    (fuel : ℕ) (cs : CSpace) (page : ℕ)
    → page < 256
    → 0 < fuel
    → cs.directory page ≡ true
    → grow_to fuel cs page ≡ ok tt cs
unfolding grow_to
grow_to-there zero cs page h pos e = absurd (omega arith)
grow_to-there (suc fuel) cs page h pos e =
    if-false _ _ (not (ltb page 256)) (rw (lt→ltb page 256 h) refl)
    ∙ if-true _ _ (cs.directory page) e

grow_to-more :
    (fuel : ℕ) (cs cs' : CSpace) (page : ℕ)
    → page < 256
    → cs.directory page ≡ false
    → grow cs ≡ ok tt cs'
    → grow_to (suc fuel) cs page ≡ grow_to fuel cs' page
unfolding grow_to
grow_to-more fuel cs cs' page h e g =
    if-false _ _ (not (ltb page 256)) (rw (lt→ltb page 256 h) refl)
    ∙ if-false _ _ (cs.directory page) e
    ∙ ap (λ (r : Outcome (Unit {0})). and_then r (λ _ cs. grow_to fuel cs page)) g

-- The pages in front of one that the quota reaches into can all be added.
pub grow_to-Reaches :
    (fuel : ℕ) (cs : CSpace) (n : ℕ) (xs : List ℕ) (page : ℕ)
    → page < 256
    → suc page < n + fuel
    → 0 < fuel
    → page * 64 < cs.max_slots
    → Valid cs n xs
    → (m : ℕ) × (xs' : List ℕ) × (cs' : CSpace) × Reaches fuel cs xs page m xs' cs'
grow_to-Reaches zero cs n xs page small f pos room v = absurd (omega arith)
grow_to-Reaches (suc fuel) cs n xs page small f pos room v = elim (dec_lt page n) [
  | yes l ↦ (
    n,
    xs,
    cs,
    record {
      returns = grow_to-there (suc fuel) cs page small (omega arith) (v.mapped page l);
      valid = v;
      there = l;
      exact = λ exact. exact;
      grown = omega arith;
      quota = refl;
      others = λ i p h. refl;
      fresh = λ i lo hi. absurd (omega (arith, lo, hi));
    },
  )
  | no l ↦ elim (grow-Grows cs n xs v) [
    | inl (full, _) ↦ absurd (omega (arith, full, l, small, room, v.in_pages))
    | inr (k, cs1, g) ↦
        let (m, xs', cs', r) =
          grow_to-Reaches fuel cs1 (suc n) _ page small (omega arith) (omega arith)
            (omega (arith, g.quota, room)) g.valid in
        (
          m,
          xs',
          cs',
          record {
            returns =
                grow_to-more fuel cs cs1 page small (v.unmapped page (omega arith)) g.returns
                ∙ r.returns;
            valid = r.valid;
            there = r.there;
            exact = λ exact. r.exact (g.exact exact);
            grown = omega (arith, r.grown, g.allocated);
            quota = r.quota ∙ g.quota;
            others = λ i p h. r.others i p (omega (arith, h, g.allocated)) ∙ g.others i p h;
            fresh = λ i lo hi. elim (dec_le i cs1.allocated_slots) [
              | yes q ↦ ap is_null (r.others i (omega (arith, lo)) q) ∙ g.fresh i lo q
              | no q ↦ r.fresh i (omega (arith, q)) hi
            ];
          },
        )
  ]
]
