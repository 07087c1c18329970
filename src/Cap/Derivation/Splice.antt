-- ===== src/Cap/Derivation/Splice.antt =====
-- `unlink_node`.
use seraph.Prelude.{◌≡◌, ◌≢◌, refl, ◌∙◌, ap, Option, none, some}
use seraph.Cap.Slot.{SlotId, CapabilitySlot, is_null}
use seraph.Cap.Derivation.{Registry, resolve_slot, write, on_link, and_then, splice, unlink_node}
use seraph.Cap.Derivation.Nodes.{
  get, IsNode, AllValid, get-IsNode, resolve_slot-IsNode, write-Writes,
}
use seraph.Cap.Derivation.Change.{on_link-Changes}

-- What `unlink_node` writes.
pub record Unlinks (r : Registry) (node : SlotId) (r' : Registry) : Type 0 where
  pub returns : unlink_node r node ≡ some r'
  pub all_valid : AllValid r'
  pub nodes : (b : SlotId) → IsNode r b → IsNode r' b
  pub at_node : get r' node ≡ record (get r node) {
    deriv_parent = none;
    deriv_prev_sibling = none;
    deriv_next_sibling = none;
  }
  pub at_prev :
      (x : SlotId)
      → (get r node).deriv_prev_sibling ≡ some x
      → get r' x ≡ record (get r x) { deriv_next_sibling = (get r node).deriv_next_sibling }
  pub at_parent :
      (x : SlotId)
      → (get r node).deriv_prev_sibling ≡ none
      → (get r node).deriv_parent ≡ some x
      → get r' x ≡ record (get r x) { deriv_first_child = (get r node).deriv_next_sibling }
  pub at_next :
      (x : SlotId)
      → (get r node).deriv_next_sibling ≡ some x
      → get r' x ≡ record (get r x) { deriv_prev_sibling = (get r node).deriv_prev_sibling }
  pub others :
      (b : SlotId)
      → b ≢ node
      → (get r node).deriv_prev_sibling ≢ some b
      → (get r node).deriv_next_sibling ≢ some b
      → ((get r node).deriv_prev_sibling ≡ none → (get r node).deriv_parent ≢ some b)
      → get r' b ≡ get r b

-- The slot in front: the previous sibling, or the parent of a first child; and what is written there.
abbrev pub front : Option SlotId → Option SlotId → Option SlotId
front parent none = parent
front parent (some x) = some x

abbrev front_write : Option SlotId → Option SlotId → CapabilitySlot → CapabilitySlot
front_write next none s = record s { deriv_first_child = next }
front_write next (some x) s = record s { deriv_next_sibling = next }

front_write-null :
    (next prev : Option SlotId) (s : CapabilitySlot) → is_null (front_write next prev s) ≡ is_null s
front_write-null next none s = refl
front_write-null next (some x) s = refl

splice-run :
    (r r2 r3 : Registry) (parent prev next : Option SlotId)
    → on_link r (front parent prev) (front_write next prev) ≡ some r2
    → on_link r2 next (λ s. record s { deriv_prev_sibling = prev }) ≡ some r3
    → splice r parent prev next ≡ some r3
unfolding splice on_link
splice-run r r2 r3 parent none next e e' =
    ap (λ o. and_then o (λ r. on_link r next (λ s. record s { deriv_prev_sibling = none }))) e ∙ e'
splice-run r r2 r3 parent (some x) next e e' =
    ap (λ o. and_then o (λ r. on_link r next (λ s. record s { deriv_prev_sibling = some x }))) e
    ∙ e'

module _ (r : Registry) (node : SlotId) where
  abbrev s : CapabilitySlot
  s = get r node

  abbrev cut : CapabilitySlot
  cut = record s { deriv_parent = none; deriv_prev_sibling = none; deriv_next_sibling = none }

  unlink_node-run :
      (result : Option Registry)
      → resolve_slot r node ≡ some (some s)
      → splice (write r node cut) s.deriv_parent s.deriv_prev_sibling s.deriv_next_sibling ≡ result
      → unlink_node r node ≡ result
  unfolding unlink_node
  unlink_node-run result e run =
      ap
        (λ (o : Option (Option CapabilitySlot)). elim o [
          | none ↦ none
          | some none ↦ some r
          | some (some s) ↦
              splice
                (write r node (record s {
                  deriv_parent = none;
                  deriv_prev_sibling = none;
                  deriv_next_sibling = none;
                }))
                s.deriv_parent s.deriv_prev_sibling s.deriv_next_sibling
        ])
        e
      ∙ run

  pub unlink_node-Unlinks :
      AllValid r
      → IsNode r node
      → ((x : SlotId)
          → front s.deriv_parent s.deriv_prev_sibling ≡ some x
          → IsNode r x × (x ≢ node) × (s.deriv_next_sibling ≢ some x))
      → ((x : SlotId) → s.deriv_next_sibling ≡ some x → IsNode r x × (x ≢ node))
      → (r' : Registry) × Unlinks r node r'
  unlink_node-Unlinks all v before after =
      let w = write-Writes r node all v cut (get-IsNode r node v) in
      let r1 : Registry = write r node cut in
      let parent = s.deriv_parent in
      let prev = s.deriv_prev_sibling in
      let next = s.deriv_next_sibling in
      let (r2, c2) =
        on_link-Changes r1 (front parent prev) (front_write next prev) w.all_valid
          (λ x e. w.nodes x (before x e).0) (front_write-null next prev) in
      let (r3, c3) =
        on_link-Changes r2 next (λ s. record s { deriv_prev_sibling = prev }) c2.all_valid
          (λ x e. c2.nodes x (w.nodes x (after x e).0)) (λ s. refl) in
      let at_front = λ (x : SlotId) (e : front parent prev ≡ some x).
        c3.others x (before x e).2
        ∙ c2.changed x e
        ∙ ap (front_write next prev) (w.others x (before x e).1) in
      (
        r3,
        record {
          returns =
              unlink_node-run (some r3) (resolve_slot-IsNode r node all v)
                (splice-run r1 r2 r3 parent prev next c2.returns c3.returns);
          all_valid = c3.all_valid;
          nodes = λ b n. c3.nodes b (c2.nodes b (w.nodes b n));
          at_node =
              c3.others node (λ e. (after node e).1 refl)
              ∙ c2.others node (λ e. (before node e).1 refl)
              ∙ w.self;
          at_prev = λ x e.
              at_front x (ap (front parent) e)
              ∙ ap (λ (p : Option SlotId). front_write next p (get r x)) e;
          at_parent = λ x e q.
              at_front x (ap (front parent) e ∙ q)
              ∙ ap (λ (p : Option SlotId). front_write next p (get r x)) e;
          at_next = λ x e.
              c3.changed x e
              ∙ ap (λ (s : CapabilitySlot). record s { deriv_prev_sibling = prev })
                  (c2.others x (λ q. (before x q).2 e) ∙ w.others x (after x e).1);
          others = λ b bn bp bx bf.
              c3.others b bx ∙ c2.others b (not_front parent prev b bp bf) ∙ w.others b bn;
        },
      )
    where
      not_front :
          (parent prev : Option SlotId) (b : SlotId)
          → prev ≢ some b
          → (prev ≡ none → parent ≢ some b)
          → front parent prev ≢ some b
      not_front parent none b bp bf = bf refl
      not_front parent (some x) b bp bf = bp
