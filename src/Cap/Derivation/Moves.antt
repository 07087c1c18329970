-- ===== src/Cap/Derivation/Moves.antt =====
-- The loop of `reparent_children`, which moves a list of children to another parent.
use seraph.Prelude.{
  ℕ, zero, suc, ◌≤◌, ◌≡◌, ◌≢◌, inl, inr, refl, sym, ◌∙◌, ap, subst, Option, none, some, List, [],
  ◌∷◌, All, length, arith,
}
use seraph.Cap.Slot.{SlotId, CapabilitySlot}
use seraph.Cap.Derivation.{
  Registry, resolve_slot, write, on_slot, and_then, adopt, next_sibling_of, link_child,
  reparent_from,
}
use seraph.Cap.Derivation.Nodes.{
  get, IsNode, AllValid, get-IsNode, resolve_slot-IsNode, Writes, write-Writes, on_slot-write,
  SlotId-cases,
}
use seraph.Cap.Derivation.Children.{
  Slots, Siblings, Children, OutOf, AllApart, SameLinks, SameLinks-refl, Siblings-agree, All-map,
}
use seraph.Cap.Derivation.Attach.{link_child-Attaches}

-- The first list turned round in front of the second.
abbrev pub turn : List SlotId → List SlotId → List SlotId
turn [] ys = ys
turn (x ∷ xs) ys = turn xs (x ∷ ys)

-- The next siblings from a slot on.
abbrev pub Nexts : Slots → Option SlotId → List SlotId → Type 0
Nexts g h [] = h ≡ none
Nexts g h (x ∷ xs) = (h ≡ some x) × Nexts g (g x).deriv_next_sibling xs

pub Siblings-Nexts :
    (g : Slots) (parent : SlotId) (prev h : Option SlotId) (xs : List SlotId)
    → Siblings g parent prev h xs
    → Nexts g h xs
Siblings-Nexts g parent prev h [] v = v
Siblings-Nexts g parent prev h (x ∷ xs) v =
    (v.0, Siblings-Nexts g parent (some x) (g x).deriv_next_sibling xs v.3)

pub Nexts-agree :
    (g g' : Slots) (h : Option SlotId) (xs : List SlotId)
    → All (λ x. (g' x).deriv_next_sibling ≡ (g x).deriv_next_sibling) xs
    → Nexts g h xs
    → Nexts g' h xs
Nexts-agree g g' h [] a v = v
Nexts-agree g g' h (x ∷ xs) a v = (
  v.0,
  Nexts-agree g g' (g' x).deriv_next_sibling xs a.1 (subst (λ o. Nexts g o xs) (sym a.0) v.1),
)

pub All-of {κ} : (P : SlotId → Type κ) (xs : List SlotId) → ((x : SlotId) → P x) → All P xs
All-of P [] f = tt
All-of P (x ∷ xs) f = (f x, All-of P xs f)

reparent_from-none :
    (fuel : ℕ) (r : Registry) (new_parent : Option SlotId)
    → reparent_from fuel r none new_parent ≡ some r
unfolding reparent_from
reparent_from-none zero r p = refl
reparent_from-none (suc fuel) r p = refl

reparent_from-step :
    (fuel : ℕ) (r r1 r2 : Registry) (x parent : SlotId) (s : CapabilitySlot)
    (result : Option Registry)
    → resolve_slot r x ≡ some (some s)
    → on_slot r x (λ s. record s { deriv_parent = some parent }) ≡ some r1
    → link_child r1 parent x ≡ some r2
    → reparent_from fuel r2 s.deriv_next_sibling (some parent) ≡ result
    → reparent_from (suc fuel) r (some x) (some parent) ≡ result
unfolding reparent_from adopt
reparent_from-step fuel r r1 r2 x parent s result e e1 e2 run =
    ap
      (λ o. and_then o (λ c.
        after (next_sibling_of c) (on_slot r x (λ s. record s { deriv_parent = some parent }))))
      e
    ∙ ap (after s.deriv_next_sibling) e1
    ∙ ap (λ o. and_then o (λ r. reparent_from fuel r s.deriv_next_sibling (some parent))) e2
    ∙ run
  where
    after : Option SlotId → Option Registry → Option Registry
    after next o =
        and_then o
          (λ r. and_then (link_child r parent x) (λ r. reparent_from fuel r next (some parent)))

-- What moving a list of children to another parent leaves.
pub record Moves (r : Registry) (parent : SlotId) (xs ys : List SlotId) (r' : Registry)
    : Type 0 where
  pub all_valid : AllValid r'
  pub nodes : (b : SlotId) → IsNode r b → IsNode r' b
  pub children : Children r' parent (turn xs ys)
  pub others :
      (q : SlotId) (zs : List SlotId)
      → q ≢ parent
      → All (λ x. OutOf x zs) xs
      → Children r q zs
      → Children r' q zs

-- The slot has its new parent, which no list of others shows.
fostered :
    (r : Registry) (x parent : SlotId)
    → AllValid r
    → IsNode r x
    → (r1 : Registry) × (on_slot r x (λ s. record s { deriv_parent = some parent }) ≡ some r1)
      × AllValid r1
      × ((b : SlotId) → IsNode r b → IsNode r1 b)
      × ((b : SlotId) → (get r1 b).deriv_next_sibling ≡ (get r b).deriv_next_sibling)
      × ((q : SlotId) (zs : List SlotId) → OutOf x zs → Children r q zs → Children r1 q zs)
fostered r x parent all v =
    let s' : CapabilitySlot = record (get r x) { deriv_parent = some parent } in
    let w = write-Writes r x all v s' (get-IsNode r x v) in
    let r1 : Registry = write r x s' in
    (
      r1,
      on_slot-write r x all v (λ s. record s { deriv_parent = some parent }),
      w.all_valid,
      w.nodes,
      (λ b. elim (SlotId-cases b x) [
        | inl e ↦
            subst (λ y. (get r1 y).deriv_next_sibling ≡ (get r y).deriv_next_sibling) (sym e)
              (ap (λ (s : CapabilitySlot). s.deriv_next_sibling) w.self)
        | inr ne ↦ ap (λ (s : CapabilitySlot). s.deriv_next_sibling) (w.others b ne)
      ]),
      (λ q zs out u.
          subst (λ o. Siblings (get r1) q none o zs) (sym (same_first r1 w q))
            (Siblings-agree (get r) (get r1) q none (get r q).deriv_first_child zs
              (keep r1 w zs out) u)),
    )
  where
    same_first :
        (r1 : Registry)
        → Writes r x (record (get r x) { deriv_parent = some parent }) r1
        → (q : SlotId) → (get r1 q).deriv_first_child ≡ (get r q).deriv_first_child
    same_first r1 w q = elim (SlotId-cases q x) [
      | inl e ↦
          subst (λ y. (get r1 y).deriv_first_child ≡ (get r y).deriv_first_child) (sym e)
            (ap (λ (s : CapabilitySlot). s.deriv_first_child) w.self)
      | inr ne ↦ ap (λ (s : CapabilitySlot). s.deriv_first_child) (w.others q ne)
    ]

    keep :
        (r1 : Registry)
        → Writes r x (record (get r x) { deriv_parent = some parent }) r1
        → (zs : List SlotId) → OutOf x zs
        → All (λ z. SameLinks (get r z) (get r1 z)) zs
    keep r1 w [] out = tt
    keep r1 w (z ∷ zs) out =
        (SameLinks-refl (get r z) (get r1 z) (w.others z out.0), keep r1 w zs out.1)

pub reparent_from-Moves :
    (xs : List SlotId) (fuel : ℕ) (r : Registry) (parent : SlotId) (h : Option SlotId)
    (ys : List SlotId)
    → length xs ≤ fuel
    → AllValid r
    → IsNode r parent
    → All (IsNode r) xs
    → All (IsNode r) ys
    → OutOf parent xs
    → OutOf parent ys
    → AllApart xs
    → AllApart ys
    → All (λ x. OutOf x ys) xs
    → Nexts (get r) h xs
    → Children r parent ys
    → (r' : Registry) × (reparent_from fuel r h (some parent) ≡ some r') × Moves r parent xs ys r'
reparent_from-Moves [] fuel r parent h ys le all vp nx ny px py ax ay cross n v = (
  r,
  ap (λ h. reparent_from fuel r h (some parent)) n ∙ reparent_from-none fuel r (some parent),
  record { all_valid = all; nodes = λ b w. w; children = v; others = λ q zs ne out u. u },
)
reparent_from-Moves (x ∷ xs) zero r parent h ys le all vp nx ny px py ax ay cross n v =
    absurd (omega arith)
reparent_from-Moves (x ∷ xs) (suc fuel) r parent h ys le all vp nx ny px py ax ay cross n v =
    let (r1, run1, all1, nodes1, next1, lists1) = fostered r x parent all nx.0 in
    let map1 =
      λ (zs : List SlotId) (a : All (IsNode r) zs). All-map (IsNode r) (IsNode r1) zs nodes1 a in
    let (r2, l) =
      link_child-Attaches r1 parent x ys all1 (nodes1 parent vp) (nodes1 x nx.0) (map1 ys ny)
        (λ e. px.0 (sym e)) cross.0 py ay (lists1 parent ys cross.0 v) in
    let nodes2 = λ (b : SlotId) (w : IsNode r b). l.nodes b (nodes1 b w) in
    let map2 =
      λ (zs : List SlotId) (a : All (IsNode r) zs). All-map (IsNode r) (IsNode r2) zs nodes2 a in
    let next2 : Nexts (get r2) (get r x).deriv_next_sibling xs =
      Nexts-agree (get r) (get r2) (get r x).deriv_next_sibling xs
        (kept r r1 r2 next1 l.links xs ax.0 cross.1) n.1 in
    let (r3, run3, m) =
      reparent_from-Moves xs fuel r2 parent (get r x).deriv_next_sibling (x ∷ ys) (omega arith)
        l.all_valid (nodes2 parent vp) (map2 xs nx.1) (nodes2 x nx.0, map2 ys ny) px.1 (px.0, py)
        ax.1 (cross.0, ay) (crossed xs ax.0 cross.1) next2 l.children in
    (
      r3,
      ap (λ h. reparent_from (suc fuel) r h (some parent)) n.0
          ∙ reparent_from-step fuel r r1 r2 x parent (get r x) (some r3)
              (resolve_slot-IsNode r x all nx.0) run1 l.returns run3,
      record {
        all_valid = m.all_valid;
        nodes = λ b w. m.nodes b (nodes2 b w);
        children = m.children;
        others =
            λ q zs ne out u. m.others q zs ne out.1 (l.others q zs ne out.0 (lists1 q zs out.0 u));
      },
    )
  where
    crossed :
        (zs : List SlotId) → OutOf x zs → All (λ z. OutOf z ys) zs → All (λ z. OutOf z (x ∷ ys)) zs
    crossed [] out a = tt
    crossed (z ∷ zs) out a = (((λ e. out.0 (sym e)), a.0), crossed zs out.1 a.1)

    kept :
        (r r1 r2 : Registry)
        → ((b : SlotId) → (get r1 b).deriv_next_sibling ≡ (get r b).deriv_next_sibling)
        → ((b : SlotId) → b ≢ x → OutOf b ys → SameLinks (get r1 b) (get r2 b))
        → (zs : List SlotId) → OutOf x zs
        → All (λ z. OutOf z ys) zs
        → All (λ z. (get r2 z).deriv_next_sibling ≡ (get r z).deriv_next_sibling) zs
    kept r r1 r2 next1 links [] out a = tt
    kept r r1 r2 next1 links (z ∷ zs) out a =
        ((links z out.0 a.0).next ∙ next1 z, kept r r1 r2 next1 links zs out.1 a.1)
