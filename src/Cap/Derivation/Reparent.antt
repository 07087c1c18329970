-- ===== src/Cap/Derivation/Reparent.antt =====
-- `reparent_children`.
use seraph.Prelude.{
  ℕ, ◌≤◌, ◌≡◌, ◌≢◌, inl, inr, sym, ◌∙◌, ap, subst, Option, none, some, List, [], All, length,
}
use seraph.Cap.Slot.{SlotId, CapabilitySlot}
use seraph.Cap.Derivation.{Registry, resolve_slot, write, reparent_from, reparent_children}
use seraph.Cap.Derivation.Nodes.{
  get, IsNode, AllValid, get-IsNode, resolve_slot-IsNode, Writes, write-Writes, SlotId-cases,
}
use seraph.Cap.Derivation.Children.{
  Siblings, Children, OutOf, AllApart, SameLinks, SameLinks-refl, Siblings-agree, All-map,
}
use seraph.Cap.Derivation.Moves.{All-of, Nexts-agree, Siblings-Nexts, reparent_from-Moves, turn}

-- What `reparent_children` leaves.
pub record Reparents (fuel : ℕ) (r : Registry) (node parent : SlotId) (xs ys : List SlotId)
    (r' : Registry) : Type 0 where
  pub returns : reparent_children fuel r node (some parent) ≡ some r'
  pub all_valid : AllValid r'
  pub nodes : (b : SlotId) → IsNode r b → IsNode r' b
  pub children : Children r' parent (turn xs ys)
  pub no_children : Children r' node []
  pub others :
      (q : SlotId) (zs : List SlotId)
      → q ≢ parent
      → q ≢ node
      → All (λ x. OutOf x zs) xs
      → Children r q zs
      → Children r' q zs

module _ (r : Registry) (node : SlotId) where
  abbrev emptied : CapabilitySlot
  emptied = record (get r node) { deriv_first_child = none }

  reparent_children-run :
      (fuel : ℕ) (parent : Option SlotId) (result : Option Registry)
      → resolve_slot r node ≡ some (some (get r node))
      → reparent_from fuel (write r node emptied) (get r node).deriv_first_child parent ≡ result
      → reparent_children fuel r node parent ≡ result
  unfolding reparent_children
  reparent_children-run fuel parent result e run =
      ap
        (λ (o : Option (Option CapabilitySlot)). elim o [
          | none ↦ none
          | some none ↦ some r
          | some (some s) ↦
              reparent_from fuel (write r node (record s { deriv_first_child = none }))
                s.deriv_first_child parent
        ])
        e
      ∙ run

  module _ (w : Writes r node emptied (write r node emptied)) where
    emptied-SameLinks : (b : SlotId) → SameLinks (get r b) (get (write r node emptied) b)
    emptied-SameLinks b = elim (SlotId-cases b node) [
      | inl e ↦
          subst (λ y. SameLinks (get r y) (get (write r node emptied) y)) (sym e)
            (record {
              parent = ap (λ (s : CapabilitySlot). s.deriv_parent) w.self;
              prev = ap (λ (s : CapabilitySlot). s.deriv_prev_sibling) w.self;
              next = ap (λ (s : CapabilitySlot). s.deriv_next_sibling) w.self;
            })
      | inr ne ↦ SameLinks-refl (get r b) (get (write r node emptied) b) (w.others b ne)
    ]

    emptied-Children :
        (q : SlotId) (zs : List SlotId)
        → q ≢ node
        → Children r q zs
        → Children (write r node emptied) q zs
    emptied-Children q zs ne u =
        let r1 : Registry = write r node emptied in
        subst (λ o. Siblings (get r1) q none o zs)
          (sym (ap (λ (s : CapabilitySlot). s.deriv_first_child) (w.others q ne)))
          (Siblings-agree (get r) (get r1) q none (get r q).deriv_first_child zs
            (All-of (λ z. SameLinks (get r z) (get r1 z)) zs emptied-SameLinks) u)

-- `reparent_children` of a capability with the children `xs`, to another capability with the children
-- `ys`, all different, with fuel for the first list: the children come in front of those of the other,
-- the last one first, the capability has none, and every list of children apart from these stays.
pub reparent_children-Reparents :
    (fuel : ℕ) (r : Registry) (node parent : SlotId) (xs ys : List SlotId)
    → length xs ≤ fuel
    → AllValid r
    → IsNode r node
    → IsNode r parent
    → All (IsNode r) xs
    → All (IsNode r) ys
    → parent ≢ node
    → OutOf parent xs
    → OutOf parent ys
    → AllApart xs
    → AllApart ys
    → All (λ x. OutOf x ys) xs
    → Children r node xs
    → Children r parent ys
    → (r' : Registry) × Reparents fuel r node parent xs ys r'
reparent_children-Reparents fuel r node parent xs ys le all vn vp nx ny pn px py ax ay cross u v =
    let w = write-Writes r node all vn (emptied r node) (get-IsNode r node vn) in
    let r1 : Registry = write r node (emptied r node) in
    let h = (get r node).deriv_first_child in
    let chain =
      Nexts-agree (get r) (get r1) h xs (All-of _ xs (λ x. (emptied-SameLinks r node w x).next))
        (Siblings-Nexts (get r) node none h xs u) in
    let (r2, run, m) =
      reparent_from-Moves xs fuel r1 parent h ys le w.all_valid (w.nodes parent vp)
        (All-map (IsNode r) (IsNode r1) xs w.nodes nx)
        (All-map (IsNode r) (IsNode r1) ys w.nodes ny) px py ax ay cross chain
        (emptied-Children r node w parent ys pn v) in
    (
      r2,
      record {
        returns =
            reparent_children-run r node fuel (some parent) (some r2)
              (resolve_slot-IsNode r node all vn) run;
        all_valid = m.all_valid;
        nodes = λ b n. m.nodes b (w.nodes b n);
        children = m.children;
        no_children =
            m.others node [] (λ e. pn (sym e)) (All-of (λ x. OutOf x []) xs (λ x. tt))
              (ap (λ (s : CapabilitySlot). s.deriv_first_child) w.self);
        others = λ q zs qp qn out c. m.others q zs qp out (emptied-Children r node w q zs qn c);
      },
    )
