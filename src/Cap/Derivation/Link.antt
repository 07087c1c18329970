-- ===== src/Cap/Derivation/Link.antt =====
-- `link_child`.
use seraph.Prelude.{◌≡◌, ◌≢◌, refl, sym, ◌∙◌, ap, subst, Option, none, some}
use seraph.Cap.Slot.{SlotId, CapabilitySlot}
use seraph.Cap.Derivation.{
  Registry, resolve_slot, write, on_slot, on_link, and_then, first_child_of, link_first, link_child,
}
use seraph.Cap.Derivation.Nodes.{
  get, IsNode, AllValid, get-IsNode, resolve_slot-IsNode, write-Writes,
}
use seraph.Cap.Derivation.Change.{on_link-Changes, on_slot-link}
use seraph.Cap.Derivation.Children.{some-injective}

-- What `link_child` writes.
pub record Links (r : Registry) (parent child : SlotId) (r' : Registry) : Type 0 where
  pub returns : link_child r parent child ≡ some r'
  pub all_valid : AllValid r'
  pub nodes : (b : SlotId) → IsNode r b → IsNode r' b
  pub at_child : get r' child ≡ record (get r child) {
    deriv_parent = some parent;
    deriv_prev_sibling = none;
    deriv_next_sibling = (get r parent).deriv_first_child;
  }
  pub at_parent : get r' parent ≡ record (get r parent) { deriv_first_child = some child }
  pub at_first :
      (x : SlotId)
      → (get r parent).deriv_first_child ≡ some x
      → get r' x ≡ record (get r x) { deriv_prev_sibling = some child }
  pub others :
      (b : SlotId)
      → b ≢ child
      → b ≢ parent
      → (get r parent).deriv_first_child ≢ some b
      → get r' b ≡ get r b

module _ (r : Registry) (parent child : SlotId) where
  abbrev old : Option SlotId
  old = (get r parent).deriv_first_child

  abbrev fostered : CapabilitySlot
  fostered = record (get r child) { deriv_parent = some parent; deriv_prev_sibling = none }

  link_child-run :
      resolve_slot r child ≡ some (some (get r child))
      → link_child r parent child ≡ link_first (write r child fostered) parent child
  unfolding link_child
  link_child-run e =
      ap
        (λ (o : Option (Option CapabilitySlot)). elim o [
          | none ↦ none
          | some none ↦ some r
          | some (some c) ↦
              link_first
                (write r child (record c { deriv_parent = some parent; deriv_prev_sibling = none }))
                parent child
        ])
        e

  link_first-run :
      (r1 r2 r3 : Registry) (s : CapabilitySlot) (result : Option Registry)
      → resolve_slot r1 parent ≡ some (some s)
      → on_slot r1 parent (λ s. record s { deriv_first_child = some child }) ≡ some r2
      → on_link r2 s.deriv_first_child (λ s. record s { deriv_prev_sibling = some child }) ≡ some r3
      → on_slot r3 child (λ t. record t { deriv_next_sibling = s.deriv_first_child }) ≡ result
      → link_first r1 parent child ≡ result
  unfolding link_first
  link_first-run r1 r2 r3 s result e e2 e3 e4 =
      ap
        (λ o. and_then o (λ p.
          after (first_child_of p)
            (on_slot r1 parent (λ s. record s { deriv_first_child = some child }))))
        e
      ∙ ap (after s.deriv_first_child) e2
      ∙ ap
          (λ o.
            and_then o
              (λ r. on_slot r child (λ t. record t { deriv_next_sibling = s.deriv_first_child })))
          e3
      ∙ e4
    where
      after : Option SlotId → Option Registry → Option Registry
      after old_first o = and_then o (λ r.
          and_then (on_link r old_first (λ s. record s { deriv_prev_sibling = some child }))
            (λ r. on_slot r child (λ s. record s { deriv_next_sibling = old_first })))

  pub link_child-Links :
      AllValid r
      → IsNode r parent
      → IsNode r child
      → ((x : SlotId) → old ≡ some x → IsNode r x)
      → parent ≢ child
      → old ≢ some child
      → old ≢ some parent
      → (r' : Registry) × Links r parent child r'
  link_child-Links all vp vc vf pc fc fp =
      let w = write-Writes r child all vc fostered (get-IsNode r child vc) in
      let r1 : Registry = write r child fostered in
      let (r2, c2) =
        on_link-Changes r1 (some parent) (λ s. record s { deriv_first_child = some child })
          w.all_valid (λ x e. subst (IsNode r1) (some-injective e) (w.nodes parent vp))
          (λ s. refl) in
      let kept : get r1 parent ≡ get r parent = w.others parent pc in
      let first : (get r1 parent).deriv_first_child ≡ old =
        ap (λ (s : CapabilitySlot). s.deriv_first_child) kept in
      let (r3, c3) =
        on_link-Changes r2 (get r1 parent).deriv_first_child
          (λ s. record s { deriv_prev_sibling = some child }) c2.all_valid
          (λ x e. c2.nodes x (w.nodes x (vf x (sym first ∙ e)))) (λ s. refl) in
      let (r4, c4) =
        on_link-Changes r3 (some child)
          (λ s. record s { deriv_next_sibling = (get r1 parent).deriv_first_child }) c3.all_valid
          (λ x e.
            subst (IsNode r3) (some-injective e)
              (c3.nodes child (c2.nodes child (w.nodes child vc))))
          (λ s. refl) in
      let ne2 =
        λ (b : SlotId) (n : b ≢ parent) (e : some parent ≡ some b). n (sym (some-injective e)) in
      let ne3 = λ (b : SlotId) (n : old ≢ some b) (e : (get r1 parent).deriv_first_child ≡ some b).
        n (sym first ∙ e) in
      let ne4 =
        λ (b : SlotId) (n : b ≢ child) (e : some child ≡ some b). n (sym (some-injective e)) in
      let cp : child ≢ parent = λ e. pc (sym e) in
      (
        r4,
        record {
          returns =
              link_child-run (resolve_slot-IsNode r child all vc)
              ∙ link_first-run r1 r2 r3 (get r1 parent) (some r4)
                  (resolve_slot-IsNode r1 parent w.all_valid (w.nodes parent vp))
                  (on_slot-link r1 r2 parent _ c2.returns) c3.returns
                  (on_slot-link r3 r4 child _ c4.returns);
          all_valid = c4.all_valid;
          nodes = λ b n. c4.nodes b (c3.nodes b (c2.nodes b (w.nodes b n)));
          at_child =
              c4.changed child refl
              ∙ ap
                  (λ (s : CapabilitySlot). record s {
                    deriv_next_sibling = (get r1 parent).deriv_first_child;
                  })
                  (c3.others child (ne3 child fc) ∙ c2.others child (ne2 child cp) ∙ w.self)
              ∙ ap (λ o. record fostered { deriv_next_sibling = o }) first;
          at_parent =
              c4.others parent (ne4 parent pc)
              ∙ c3.others parent (ne3 parent fp)
              ∙ c2.changed parent refl
              ∙ ap (λ (s : CapabilitySlot). record s { deriv_first_child = some child }) kept;
          at_first = λ x e.
              let xc : x ≢ child = λ q. fc (e ∙ ap some q) in
              let xp : x ≢ parent = λ q. fp (e ∙ ap some q) in
              c4.others x (ne4 x xc)
              ∙ c3.changed x (first ∙ e)
              ∙ ap (λ (s : CapabilitySlot). record s { deriv_prev_sibling = some child })
                  (c2.others x (ne2 x xp) ∙ w.others x xc);
          others = λ b bc bp bf.
              c4.others b (ne4 b bc)
              ∙ c3.others b (ne3 b bf)
              ∙ c2.others b (ne2 b bp)
              ∙ w.others b bc;
        },
      )
