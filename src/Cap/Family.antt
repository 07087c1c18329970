-- ===== src/Cap/Family.antt =====
-- A small tree of capabilities, for the tests: in space 7, with a quota of five slots, the frame at 1 has
-- the children 2 and 3, and 2 has the child 4, a space to insert into. 5 is free.
use seraph.Prelude.{
  ℕ, ◌≤◌, ◌<◌, ◌≡◌, ◌≢◌, inr, inl, refl, sym, ◌∙◌, ap, subst, Bool-cases, ltb, none, some, List, [],
  ◌∷◌, arith, ◌==◌, if◌then◌else◌, if-true, if-false, true, false, ==_ne, false≢true,
}
use seraph.Cap.Slot.{CapTag, SlotId, CapabilitySlot, null_slot, is_null}
use seraph.Cap.Rights
use seraph.Cap.CSpace.{CSpace, capability}
use seraph.Cap.CSpace.Free.{Valid, Exact}
use seraph.Cap.Derivation.{Registry}
use seraph.Cap.Derivation.Nodes.{IsNode, AllValid}

abbrev pub at : ℕ → SlotId
at i = record { cspace_id = 7; index = i }

abbrev pub frame : CapabilitySlot
frame = capability CapTag.frame Rights.map 4096

abbrev pub family_slots : ℕ → CapabilitySlot
family_slots i =
    if i == 1
    then record frame { deriv_first_child = some (at 2) }
    else if i == 2
    then record frame {
      deriv_parent = some (at 1);
      deriv_first_child = some (at 4);
      deriv_next_sibling = some (at 3);
    }
    else if i == 3
    then record frame { deriv_parent = some (at 1); deriv_prev_sibling = some (at 2) }
    else if i == 4
    then record (capability CapTag.cspace Rights.insert 8192) { deriv_parent = some (at 2) }
    else null_slot

abbrev pub family : CSpace
family = record {
  id = 7;
  directory = λ p. p == 0;
  slots = family_slots;
  allocated_slots = 5;
  max_slots = 5;
  free_head = some 5;
  free_count = 1;
}

abbrev pub spaces : Registry
spaces c = if c == 7 then some family else none

family-Valid : Valid family 1 (5 ∷ [])
family-Valid = record {
  mapped = λ p h. zero_page p (omega arith);
  unmapped = λ p h. ==_ne p 0 (λ e. omega (arith, e, h));
  pages = omega arith;
  in_pages = omega arith;
  in_quota = omega arith;
  at_limit = inr refl;
  zero_slot = λ h. refl;
  free = (refl, omega arith, refl, refl);
  counted = refl;
  places = (omega arith, tt);
  distinct = (tt, tt);
}
  where
    zero_page : (p : ℕ) → p ≡ 0 → (p == 0) ≡ true
    zero_page p e = rw e refl

family-Exact : Exact family (5 ∷ [])
family-Exact i p h z out =
    out.0 (omega (arith, h, p, used i z 1 refl, used i z 2 refl, used i z 3 refl, used i z 4 refl))
  where
    used :
        (i : ℕ)
        → is_null (family.slots i) ≡ true
        → (k : ℕ) → is_null (family.slots k) ≡ false
        → i ≢ k
    used i z k e q = false≢true (sym e ∙ ap (λ j. is_null (family.slots j)) (sym q) ∙ z)

pub spaces-AllValid : AllValid spaces
spaces-AllValid c cs e = elim (Bool-cases (ltb c 4096)) [
  | inr b ↦ cc (sym (if-false (spaces c) none (ltb c 4096) b) ∙ e)
  | inl b ↦ elim (Bool-cases (c == 7)) [
    | inl s ↦
        subst (λ cs. (n : ℕ) × (xs : List ℕ) × Valid cs n xs × Exact cs xs)
          (some-injective (
            sym (if-true (some family) none (c == 7) s)
            ∙ sym (if-true (spaces c) none (ltb c 4096) b)
            ∙ e))
          (1, (5 ∷ []), family-Valid, family-Exact)
    | inr s ↦ cc (
        sym (if-false (some family) none (c == 7) s)
        ∙ sym (if-true (spaces c) none (ltb c 4096) b)
        ∙ e)
  ]
]
  where
    some-injective : {a b : CSpace} → some a ≡ some b → a ≡ b
    some-injective e = cc

pub used : (i : ℕ) → 0 < i → i ≤ 5 → is_null (family_slots i) ≡ false → IsNode spaces (at i)
used i p h e = record { space = family; found = refl; pos = p; in_use = h; used = e }

pub apart : (i j : ℕ) → i ≢ j → at i ≢ at j
apart i j ne e = ne (ap (λ (x : SlotId). x.index) e)
