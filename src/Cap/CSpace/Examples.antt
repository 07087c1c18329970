-- ===== src/Cap/CSpace/Examples.antt =====
-- Capability spaces at a small input: the theorems applied.
use seraph.Prelude.{
  ℕ, suc, ◌≤◌, ◌<◌, ◌≡◌, ◌≢◌, ◌⊎◌, inr, refl, false≢true, some, List, [], ◌∷◌, arith, ◌==◌,
  if◌then◌else◌, length, true, false, ==_ne,
}
use seraph.Prelude.Sum.{total}
use seraph.Cap.Slot.{CapTag, null_slot, is_null}
use seraph.Cap.Rights
use seraph.Cap.CSpace.{
  CSpace, ok, err, CapError, new, capability, insert_cap, insert_cap_at, pre_allocate,
  populated_count,
}
use seraph.Cap.CSpace.Free.{Valid, Exact}
use seraph.Cap.CSpace.Fresh.{new-Valid, new-Exact}
use seraph.Cap.CSpace.Allocate.{Frees, free_slot-Frees}
use seraph.Cap.CSpace.Insert.{Inserts, insert_cap-Inserts}
use seraph.Cap.CSpace.Place.{Places, insert_cap_at-Places}
use seraph.Cap.CSpace.Prewarm.{Ends, pre_allocate-Ends}
use seraph.Cap.CSpace.Count.{populated_count-total}

-- A space with a quota of two slots: a frame stands at 1, and 2 is free.
abbrev pair : CSpace
pair = record {
  id = 7;
  directory = λ p. p == 0;
  slots = λ i. if i == 1 then capability CapTag.frame Rights.map 4096 else null_slot;
  allocated_slots = 2;
  max_slots = 2;
  free_head = some 2;
  free_count = 1;
}

pair-Valid : Valid pair 1 (2 ∷ [])
pair-Valid = record {
  mapped = λ p h. zero_page p (omega arith);
  unmapped = λ p h. ==_ne p 0 (λ e. omega (arith, e, h));
  pages = omega arith;
  in_pages = omega arith;
  in_quota = omega arith;
  at_limit = inr refl;
  zero_slot = λ h. refl;
  free = (refl, omega arith, refl, refl);
  counted = refl;
  places = (omega arith, tt);
  distinct = (tt, tt);
}
  where
    zero_page : (p : ℕ) → p ≡ 0 → (p == 0) ≡ true
    zero_page p e = rw e refl

pair-Exact : Exact pair (2 ∷ [])
pair-Exact i p h z out = out.0 (omega (arith, h, p, one i z))
  where
    one : (i : ℕ) → is_null (pair.slots i) ≡ true → i ≢ 1
    one i z e = false≢true (rw e at z)

insert_cap_example :
    (◌≡◌ {A = List ℕ} [] [])
      × ((◌≡◌ {A = ℕ} 0 256) ⊎ ((new 7 100).allocated_slots ≡ (new 7 100).max_slots))
      × (insert_cap (new 7 100) CapTag.frame Rights.map 4096
          ≡ err CapError.out_of_slots (new 7 100))
    ⊎ ((x : ℕ) × (m : ℕ) × (rest : List ℕ) × (cs : CSpace) × Inserts
          (new 7 100)
          []
          CapTag.frame
          Rights.map
          4096
          x
          m
          rest
          cs)
insert_cap_example =
    insert_cap-Inserts (new 7 100) 0 [] CapTag.frame Rights.map 4096 (new-Valid 7 100) refl

free_slot_example : (cs : CSpace) × Frees pair 1 (2 ∷ []) 1 cs
free_slot_example =
    free_slot-Frees pair 1 (2 ∷ []) 1 pair-Valid (omega arith) (omega arith)
      (λ e. omega (arith, e), tt)

insert_cap_at_example :
    ((◌≡◌ {A = ℕ} 70 0) ⊎ ((new 7 100).max_slots ≤ 70))
      × (insert_cap_at 16384 (new 7 100) 70 CapTag.frame Rights.map 4096
          ≡ err CapError.invalid_index (new 7 100))
    ⊎ (70 ≤ (new 7 100).allocated_slots)
      × (is_null ((new 7 100).slots 70) ≡ false)
      × (insert_cap_at 16384 (new 7 100) 70 CapTag.frame Rights.map 4096
          ≡ err CapError.invalid_index (new 7 100))
    ⊎ ((cs : CSpace) × Places 16384 (new 7 100) [] 70 CapTag.frame Rights.map 4096 cs)
insert_cap_at_example =
    insert_cap_at-Places 16384 (new 7 100) 70 CapTag.frame Rights.map 4096 0 [] (new-Valid 7 100)
      (new-Exact 7 100) refl quota (omega arith)
  where
    quota : (new 7 100).max_slots ≤ 16384
    quota = unfold new in omega arith

pre_allocate_example :
    (m : ℕ) × (xs : List ℕ) × (cs : CSpace) × Ends (new 7 100) [] m xs cs
    × ((pre_allocate 257 (new 7 100) 90 ≡ ok tt cs) × (90 ≤ length xs)
        ⊎ (pre_allocate 257 (new 7 100) 90 ≡ err CapError.out_of_slots cs)
          × (length xs < 90)
          × ((m ≡ 256) ⊎ (cs.allocated_slots ≡ cs.max_slots)))
pre_allocate_example = pre_allocate-Ends 90 257 (new 7 100) 0 [] (omega arith) (new-Valid 7 100)

populated_example :
    populated_count pair ≡ total (λ i. if is_null (pair.slots (suc i)) then 0 else 1) 2
populated_example = populated_count-total pair 1 (2 ∷ []) pair-Valid pair-Exact
