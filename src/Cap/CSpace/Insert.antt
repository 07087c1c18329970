-- ===== src/Cap/CSpace/Insert.antt =====
-- `insert_cap`.
use seraph.Prelude.{
  ℕ, ◌≤◌, ◌<◌, ◌≡◌, ◌≢◌, ◌⊎◌, inl, inr, refl, sym, ◌∙◌, ap, true, false, false≢true, some, List, [],
  arith, update, update_self, update_ne, NotIn,
}
use native.Mathlib.Decide.{ℕ_discrete}
use seraph.Cap.Slot.{CapTag, CapabilitySlot, is_null, is_null_tag}
use seraph.Cap.CSpace.{
  CSpace, ok, err, out_of_slots, slot, write_slot, capability, populate, allocate_slot, insert_cap,
}
use seraph.Cap.CSpace.Free.{FreeList-update, Valid, Exact}
use seraph.Cap.CSpace.Allocate.{slot-Valid, allocate_slot-Allocates}

-- A slot off the free list can be written.
pub write_slot-Valid :
    (cs : CSpace) (n : ℕ) (xs : List ℕ) (x : ℕ) (s : CapabilitySlot)
    → 0 < x
    → NotIn x xs
    → Valid cs n xs
    → Valid (write_slot cs x s) n xs
write_slot-Valid cs n xs x s p out v = record {
  mapped = v.mapped;
  unmapped = v.unmapped;
  pages = v.pages;
  in_pages = v.in_pages;
  in_quota = v.in_quota;
  at_limit = v.at_limit;
  zero_slot = λ q. ap is_null (update_ne cs.slots x s 0 (λ e. omega (arith, e, p))) ∙ v.zero_slot q;
  free = FreeList-update cs.slots x s cs.free_head xs out v.free;
  counted = v.counted;
  places = v.places;
  distinct = v.distinct;
}

pub populate-run :
    (cs : CSpace) (x : ℕ) (s s' : CapabilitySlot)
    → slot cs x ≡ some (some s')
    → populate cs x s ≡ ok tt (write_slot cs x s)
unfolding populate
populate-run cs x s s' e = rw (e, populate) refl

-- What `insert_cap` leaves: the slot `x`, which held nothing, holds the capability.
pub record Inserts (cs : CSpace) (xs : List ℕ) (tag : CapTag) (rights object x m : ℕ)
    (rest : List ℕ) (cs' : CSpace) : Type 0 where
  pub returns : insert_cap cs tag rights object ≡ ok x cs'
  pub valid : Valid cs' m rest
  pub exact : Exact cs xs → Exact cs' rest
  pub pos : 0 < x
  pub in_use : x ≤ cs'.allocated_slots
  pub off : NotIn x rest
  pub grown : cs.allocated_slots ≤ cs'.allocated_slots
  pub was_free : x ≤ cs.allocated_slots → is_null (cs.slots x) ≡ true
  pub holds : slot cs' x ≡ some (some (capability tag rights object))
  pub others : (i : ℕ) → 0 < i → i ≤ cs.allocated_slots → i ≢ x → slot cs' i ≡ slot cs i

module _ (cs : CSpace) (n : ℕ) (xs : List ℕ) (tag : CapTag) (rights object : ℕ) where
  insert-full :
      allocate_slot cs ≡ err out_of_slots cs → insert_cap cs tag rights object ≡ err out_of_slots cs
  unfolding insert_cap
  insert-full e = rw (e, insert_cap) refl

  insert-run :
      (x : ℕ) (cs' : CSpace)
      → allocate_slot cs ≡ ok x cs'
      → populate cs' x (capability tag rights object)
        ≡ ok tt (write_slot cs' x (capability tag rights object))
      → insert_cap cs tag rights object ≡ ok x (write_slot cs' x (capability tag rights object))
  unfolding insert_cap
  insert-run x cs' e p = rw (e, insert_cap, p) refl

  -- `insert_cap` of a capability on a well-formed space: with no slot free and no room to grow it
  -- fails and changes nothing; or else the capability stands, untokened and underived, in a slot that
  -- held none, which a lookup finds, every other slot in use is as before, and the space is
  -- well-formed.
  pub insert_cap-Inserts :
      Valid cs n xs
      → is_null_tag tag ≡ false
      → (xs ≡ [])
          × ((n ≡ 256) ⊎ (cs.allocated_slots ≡ cs.max_slots))
          × (insert_cap cs tag rights object ≡ err out_of_slots cs)
        ⊎ ((x : ℕ) × (m : ℕ) × (rest : List ℕ) × (cs' : CSpace) × Inserts cs xs tag rights object x
              m rest cs')
  insert_cap-Inserts v live = elim (allocate_slot-Allocates cs n xs v) [
    | inl (empty, full, e) ↦ inl (empty, full, insert-full e)
    | inr (x, m, rest, cs', t) ↦
        let s = capability tag rights object in
        let written = write_slot-Valid cs' m rest x s t.pos t.off t.valid in
        let self = update_self cs'.slots x s in
        inr (
          x,
          m,
          rest,
          write_slot cs' x s,
          record {
            returns = insert-run x cs' t.returns (
                populate-run cs' x s (cs'.slots x)
                  (slot-Valid cs' m rest x t.valid t.pos t.in_use));
            valid = written;
            exact = λ exact i p h z out. elim (ℕ_discrete i x) [
              | yes e ↦ false≢true (
                  sym live
                  ∙ sym (ap is_null self)
                  ∙ ap (λ k. is_null (update cs'.slots x s k)) (sym e)
                  ∙ z)
              | no e ↦
                  t.exact exact i p h e (sym (ap is_null (update_ne cs'.slots x s i e)) ∙ z) out
            ];
            pos = t.pos;
            in_use = t.in_use;
            off = t.off;
            grown = t.grown;
            was_free = t.was_free;
            holds =
                slot-Valid (write_slot cs' x s) m rest x written t.pos t.in_use
                ∙ ap (λ s. some (some s)) self;
            others = λ i p h ne.
                slot-Valid (write_slot cs' x s) m rest i written p (omega (arith, h, t.grown))
                ∙ ap (λ s. some (some s)) (update_ne cs'.slots x s i ne ∙ t.others i p h ne)
                ∙ sym (slot-Valid cs n xs i v p h);
          },
        )
  ]
