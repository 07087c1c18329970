-- ===== src/Cap/Derive/Put.antt =====
-- A new capability in one of the spaces of a registry.
use native.Mathlib.Decide.{ℕ_discrete}
use seraph.Prelude.{
  ℕ, ◌≤◌, ◌≡◌, ◌≢◌, refl, sym, ◌∙◌, ap, subst, false, false≢true, Option, none, some, List, All,
  arith, update, update_twice,
}
use seraph.Cap.Slot.{CapTag, SlotId, CapabilitySlot, null_slot, is_null, is_null_tag}
use seraph.Cap.CSpace.{CSpace, write_slot, capability}
use seraph.Cap.CSpace.Free.{Valid, Exact}
use seraph.Cap.CSpace.Allocate.{slot-Valid}
use seraph.Cap.CSpace.Insert.{Inserts}
use seraph.Cap.Derivation.{Registry, lookup_cspace}
use seraph.Cap.Derivation.Nodes.{
  get, IsNode, AllValid, get-found, get-IsNode, swapped, lookup_self, lookup-ne, swap-AllValid,
  swap_self, swap-IsNode, write-Writes, write-found,
}
use seraph.Cap.Derivation.Children.{
  Siblings, Children, SameLinks, SameLinks-refl, Siblings-agree, All-map,
}

some-injective : {a b : CSpace} → some a ≡ some b → a ≡ b
some-injective e = cc

slot-injective : {a b : CapabilitySlot} → some (some a) ≡ some (some b) → a ≡ b
slot-injective e = cc

-- What a new capability keeps.
pub record Puts (r : Registry) (child : SlotId) (s : CapabilitySlot) (r' : Registry) : Type 0 where
  pub all_valid : AllValid r'
  pub new : IsNode r' child
  pub nodes : (b : SlotId) → IsNode r b → IsNode r' b
  pub fresh : (b : SlotId) → IsNode r b → b ≢ child
  pub self : get r' child ≡ s
  pub others : (b : SlotId) → IsNode r b → get r' b ≡ get r b

module _ (r : Registry) (k : ℕ) (cs : CSpace) (n : ℕ) (xs : List ℕ)
    (found : lookup_cspace r k ≡ some cs) (all : AllValid r) (valid : Valid cs n xs)
    (exact : Exact cs xs) (tag : CapTag) (rights object x m : ℕ) (rest : List ℕ) (cs' : CSpace)
    (live : is_null_tag tag ≡ false) (i : Inserts cs xs tag rights object x m rest cs') where
  abbrev pub placed : SlotId
  placed = record { cspace_id = k; index = x }

  holds : cs'.slots x ≡ capability tag rights object
  holds = slot-injective (sym (slot-Valid cs' m rest x i.valid i.pos i.in_use) ∙ i.holds)

  here : (b : SlotId) (v : IsNode r b) → b.cspace_id ≡ k → v.space ≡ cs
  here b v q = some-injective (sym v.found ∙ ap (lookup_cspace r) q ∙ found)

  in_old : (b : SlotId) (v : IsNode r b) → b.cspace_id ≡ k → b.index ≤ cs.allocated_slots
  in_old b v q = omega (arith, v.in_use, ap (λ (c : CSpace). c.allocated_slots) (here b v q))

  was_used : (b : SlotId) (v : IsNode r b) → b.cspace_id ≡ k → is_null (cs.slots b.index) ≡ false
  was_used b v q = ap (λ (c : CSpace). is_null (c.slots b.index)) (sym (here b v q)) ∙ v.used

  index_ne : (b : SlotId) → IsNode r b → b.cspace_id ≡ k → b.index ≢ x
  index_ne b v q e = false≢true (
      sym (was_used b v q)
      ∙ ap (λ j. is_null (cs.slots j)) e
      ∙ i.was_free (omega (arith, in_old b v q, e)))

  kept : (b : SlotId) → IsNode r b → get (swapped r k cs cs' found) b ≡ get r b
  kept b v = elim (ℕ_discrete b.cspace_id k) [
    | yes q ↦
        let h = in_old b v q in
        get-found (swapped r k cs cs' found) b cs'
          (ap (lookup_cspace (swapped r k cs cs' found)) q ∙ lookup_self r k cs cs' found)
        ∙ slot-injective (
            sym (slot-Valid cs' m rest b.index i.valid v.pos (omega (arith, h, i.grown)))
            ∙ i.others b.index v.pos h (index_ne b v q)
            ∙ slot-Valid cs n xs b.index valid v.pos h)
        ∙ sym (get-found r b cs (ap (lookup_cspace r) q ∙ found))
    | no q ↦
        ap (λ (o : Option CSpace). elim o [ none ↦ null_slot | some cs ↦ cs.slots b.index ])
          (lookup-ne r k cs cs' found b.cspace_id q)
  ]

  pub inserted-Puts : Puts r placed (capability tag rights object) (update r k (some cs'))
  inserted-Puts = record {
    all_valid = swap-AllValid r k cs cs' found all (m, rest, i.valid, i.exact exact);
    new = record {
      space = cs';
      found = lookup_self r k cs cs' found;
      pos = i.pos;
      in_use = i.in_use;
      used = ap is_null holds ∙ live;
    };
    nodes =
        λ b v. swap-IsNode r k cs cs' found b i.grown (ap is_null (kept b v) ∙ get-IsNode r b v) v;
    fresh =
        λ b v e. index_ne b v (ap (λ (a : SlotId). a.cspace_id) e) (ap (λ (a : SlotId). a.index) e);
    self = swap_self r k cs cs' found placed refl ∙ holds;
    others = kept;
  }

-- The new capability is written once more.
pub rewritten-Puts :
    (r : Registry) (child : SlotId) (s s' : CapabilitySlot) (cs : CSpace)
    → Puts r child s (update r child.cspace_id (some cs))
    → lookup_cspace (update r child.cspace_id (some cs)) child.cspace_id ≡ some cs
    → is_null s' ≡ false
    → Puts r child s' (update r child.cspace_id (some (write_slot cs child.index s')))
rewritten-Puts r child s s' cs p stands used =
    let r1 = update r child.cspace_id (some cs) in
    let w = write-Writes r1 child p.all_valid p.new s' used in
    subst (Puts r child s')
      (write-found r1 child s' cs stands
        ∙ update_twice r child.cspace_id (some cs) (some (write_slot cs child.index s')))
      (record {
        all_valid = w.all_valid;
        new = w.nodes child p.new;
        nodes = λ b v. w.nodes b (p.nodes b v);
        fresh = p.fresh;
        self = w.self;
        others = λ b v. w.others b (p.fresh b v) ∙ p.others b v;
      })

-- The lists of children stay.
pub Puts-Children :
    (r : Registry) (child : SlotId) (s : CapabilitySlot) (r' : Registry) (q : SlotId)
    (ys : List SlotId)
    → Puts r child s r'
    → IsNode r q
    → All (IsNode r) ys
    → Children r q ys
    → Children r' q ys
Puts-Children r child s r' q ys p v nodes c =
    subst (λ o. Siblings (get r') q none o ys)
      (sym (ap (λ (s : CapabilitySlot). s.deriv_first_child) (p.others q v)))
      (Siblings-agree (get r) (get r') q none (get r q).deriv_first_child ys
        (All-map (IsNode r) (λ z. SameLinks (get r z) (get r' z)) ys
          (λ z w. SameLinks-refl (get r z) (get r' z) (p.others z w)) nodes)
        c)
