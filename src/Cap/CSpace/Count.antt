-- ===== src/Cap/CSpace/Count.antt =====
-- `populated_count`.
use seraph.Prelude.{
  Option, ℕ, zero, suc, ◌+◌, ◌≤◌, ◌<◌, ◌≡◌, ◌≢◌, inl, inr, refl, sym, ◌∙◌, Bool, true, List, [],
  ◌∷◌, arith, ◌==◌, if◌then◌else◌, ==_iff, Bool-cases, length, All, NotIn, Distinct, has, erase,
  NotIn-not_has, NotIn-erase_self, Distinct-erase, All-erase, length-erase, All-has,
}
use seraph.Prelude.Sum.{total}
use seraph.Cap.Slot.{is_null}
use seraph.Cap.CSpace.{CSpace, populated_count}
use seraph.Cap.CSpace.Free.{
  Slots, FreeList, FreeList-pos, Valid, Valid-small, Exact, All-weaken, All-both,
}

NotIn-unerase : (i t : ℕ) (xs : List ℕ) → t ≢ i → NotIn i (erase t xs) → NotIn i xs
NotIn-unerase i t [] n h = tt
NotIn-unerase i t (x ∷ xs) n h = elim (Bool-cases (x == t)) [
  | inl e ↦ (λ q. n (sym ((==_iff x t).0 e) ∙ q), rw e at h)
  | inr e ↦ let h' : NotIn i (x ∷ erase t xs) = rw e at h in (h'.0, NotIn-unerase i t xs n h'.1)
]

-- A list of exactly the numbers from 1 to `a` that pass a test: the others are the rest.
count_lem :
    (test : ℕ → Bool) (a : ℕ) (xs : List ℕ)
    → Distinct xs
    → All (λ x. (0 < x) × (x ≤ a) × (test x ≡ true)) xs
    → ((i : ℕ) → 0 < i → i ≤ a → test i ≡ true → NotIn i xs → ⊥)
    → total (λ i. if test (suc i) then 0 else 1) a + length xs ≡ a
unfolding total
count_lem test zero [] d h exact = refl
count_lem test zero (x ∷ xs) d h exact = absurd (omega (arith, h.0.0, h.0.1))
count_lem test (suc a) xs d h exact = elim (Bool-cases (has (suc a) xs)) [
  | inl e ↦
      let top = All-has _ (suc a) xs h e in
      let apart = NotIn-erase_self (suc a) xs d in
      let rest = All-both _ _ (erase (suc a) xs) apart (All-erase _ (suc a) xs h) in
      let ih =
        count_lem test a (erase (suc a) xs) (Distinct-erase (suc a) xs d)
          (All-weaken _ _ (erase (suc a) xs) smaller rest)
          (λ i p l t out.
            exact i p (omega arith) t
              (NotIn-unerase i (suc a) xs (λ q. omega (arith, q, l)) out)) in
      rw top.2 (omega (arith, ih, length-erase (suc a) xs e))
  | inr e ↦
      let out = NotIn-not_has (suc a) xs e in
      let ih =
        count_lem test a xs d (All-weaken _ _ xs smaller (All-both _ _ xs out h))
          (λ i p l t out. exact i p (omega arith) t out) in
      elim (Bool-cases (test (suc a))) [
        | inl t ↦ absurd (exact (suc a) (omega arith) (omega arith) t out)
        | inr t ↦ rw t (omega (arith, ih))
      ]
]
  where
    smaller :
        (x : ℕ)
        → (x ≢ suc a) × ((0 < x) × (x ≤ suc a) × (test x ≡ true))
        → (0 < x) × (x ≤ a) × (test x ≡ true)
    smaller x h = (h.1.0, omega (arith, h.0, h.1.1), h.1.2)

FreeList-null :
    (slots : Slots) (h : Option ℕ) (xs : List ℕ)
    → FreeList slots h xs
    → All (λ x. is_null (slots x) ≡ true) xs
FreeList-null slots h [] v = tt
FreeList-null slots h (x ∷ xs) v = (v.2, FreeList-null slots _ xs v.3)

-- On a well-formed space whose free list has every null slot in use, `populated_count` is the number
-- of slots that hold a capability.
pub populated_count-total :
    (cs : CSpace) (n : ℕ) (xs : List ℕ)
    → Valid cs n xs
    → Exact cs xs
    → populated_count cs
      ≡ total (λ i. if is_null (cs.slots (suc i)) then 0 else 1) cs.allocated_slots
unfolding populated_count
populated_count-total cs n xs v exact =
    let pos = FreeList-pos cs.slots cs.free_head xs v.free in
    let nulls = FreeList-null cs.slots cs.free_head xs v.free in
    let all : All (λ x. (0 < x) × (x ≤ cs.allocated_slots) × (is_null (cs.slots x) ≡ true)) xs =
      All-weaken _ _ xs (λ x b. (b.0, b.1.0, b.1.1))
        (All-both _ _ xs pos (All-both _ _ xs v.places nulls)) in
    omega (
      arith,
      count_lem (λ i. is_null (cs.slots i)) cs.allocated_slots xs v.distinct all exact,
      v.counted,
      Valid-small cs n xs v,
      v.in_pages,
      v.pages,
    )
