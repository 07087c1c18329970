-- ===== src/Cap/Derivation/Detach.antt =====
-- `unlink_node` on lists of children.
use seraph.Prelude.{
  ◌≡◌, ◌≢◌, ◌⊎◌, inl, inr, refl, sym, ◌∙◌, ap, subst, Option, none, some, List, [], ◌∷◌, ◌++◌, All,
}
use seraph.Cap.Slot.{SlotId, CapabilitySlot}
use seraph.Cap.Derivation.{Registry, unlink_node}
use seraph.Cap.Derivation.Nodes.{get, IsNode, AllValid, SlotId-cases}
use seraph.Cap.Derivation.Children.{
  some-injective, link-cases, Siblings, Children, OutOf, AllApart, SameLinks, SameLinks-refl,
  Siblings-agree, Siblings-parent, All-map,
}
use seraph.Cap.Derivation.Splice.{front, Unlinks, unlink_node-Unlinks}
use seraph.Cap.Derivation.Joined.{
  All-before, AllApart-split, at-place, behind, joined, last_of, last_of-All, last_of-ne,
  last_of-none,
}

-- What `unlink_node` leaves of lists of children.
pub record Detaches (r : Registry) (parent node : SlotId) (xs : List SlotId) (r' : Registry)
    : Type 0 where
  pub returns : unlink_node r node ≡ some r'
  pub all_valid : AllValid r'
  pub nodes : (b : SlotId) → IsNode r b → IsNode r' b
  pub children : Children r' parent xs
  pub is_root : (get r' node).deriv_parent ≡ none
  pub others : (q : SlotId) (ys : List SlotId) → q ≢ parent → Children r q ys → Children r' q ys

module _ (r : Registry) (parent node : SlotId) (pre post : List SlotId)
    (v : Children r parent (pre ++ node ∷ post)) where
  abbrev place :
      ((get r node).deriv_parent ≡ some parent)
      × ((get r node).deriv_prev_sibling ≡ last_of none pre)
      × Siblings (get r) parent (some node) (get r node).deriv_next_sibling post
  place = at-place (get r) parent none (get r parent).deriv_first_child pre node post v

  -- The previous sibling stands in front, and the next one behind.
  prev-All {κ} :
      (P : SlotId → Type κ) (b : SlotId)
      → All P pre
      → (get r node).deriv_prev_sibling ≡ some b
      → P b
  prev-All P b a e = last_of-All P none pre b (λ q. cc q) a (sym place.1 ∙ e)

  next-All {κ} :
      (P : SlotId → Type κ) (b : SlotId)
      → All P post
      → (get r node).deriv_next_sibling ≡ some b
      → P b
  next-All P b a e = go post a place.2
    where
      go :
          (post : List SlotId)
          → All P post
          → Siblings (get r) parent (some node) (get r node).deriv_next_sibling post
          → P b
      go [] a u = cc (sym u ∙ e)
      go (y ∷ ys) a u = subst P (some-injective (sym u.0 ∙ e)) a.0

  front-cases :
      (x : SlotId) (p : Option SlotId)
      → (get r node).deriv_prev_sibling ≡ p
      → front (get r node).deriv_parent p ≡ some x
      → (x ≡ parent) ⊎ ((get r node).deriv_prev_sibling ≡ some x)
  front-cases x none e q = inl (some-injective (sym q ∙ place.0))
  front-cases x (some y) e q = inr (e ∙ q)

  -- The neighbours are slots of their own.
  pub unlinked :
      AllValid r
      → IsNode r parent
      → All (IsNode r) (pre ++ node ∷ post)
      → AllApart (pre ++ node ∷ post)
      → OutOf parent (pre ++ node ∷ post)
      → (r' : Registry) × Unlinks r node r'
  unlinked all vp nodes apart out =
      let (npre, nrest) = All-before (IsNode r) pre (node ∷ post) nodes in
      let (opre, orest) = All-before (λ y. y ≢ parent) pre (node ∷ post) out in
      let (xpre, xpost, cross, _, _) = AllApart-split pre node post apart in
      unlink_node-Unlinks r node all nrest.0
        (λ x e. elim (front-cases x _ refl e) [
          | inl q ↦ (
            subst (IsNode r) (sym q) vp,
            (λ w. orest.0 (sym w ∙ q)),
            (λ w. next-All (λ b. b ≢ parent) x orest.1 w q),
          )
          | inr q ↦ (
            prev-All (IsNode r) x npre q,
            prev-All (λ b. b ≢ node) x xpre q,
            (λ w. next-All (λ b. b ≢ x) x (prev-All (λ b. OutOf b post) x cross q) w refl),
          )
        ])
        (λ x e. (next-All (IsNode r) x nrest.1 e, next-All (λ b. b ≢ node) x xpost e))

  module _ (r' : Registry) (u : Unlinks r node r') where
    keeps :
        (b : SlotId)
        → b ≢ node
        → (get r node).deriv_prev_sibling ≢ some b
        → (get r node).deriv_next_sibling ≢ some b
        → SameLinks (get r b) (get r' b)
    keeps b bn bp bx = elim (SlotId-cases b parent) [
      | inr ne ↦
          SameLinks-refl (get r b) (get r' b)
            (u.others b bn bp bx (λ _ e. ne (some-injective (sym e ∙ place.0))))
      | inl e ↦
          subst (λ x. SameLinks (get r x) (get r' x)) (sym e)
            (at_parent b e bn bp bx (get r node).deriv_prev_sibling refl)
    ]
      where
        at_parent :
            (b : SlotId)
            → b ≡ parent
            → b ≢ node
            → (get r node).deriv_prev_sibling ≢ some b
            → (get r node).deriv_next_sibling ≢ some b
            → (p : Option SlotId) → (get r node).deriv_prev_sibling ≡ p
            → SameLinks (get r parent) (get r' parent)
        at_parent b e bn bp bx none q =
            let w = u.at_parent parent q place.0 in
            record {
              parent = ap (λ (s : CapabilitySlot). s.deriv_parent) w;
              prev = ap (λ (s : CapabilitySlot). s.deriv_prev_sibling) w;
              next = ap (λ (s : CapabilitySlot). s.deriv_next_sibling) w;
            }
        at_parent b e bn bp bx (some y) q = SameLinks-refl (get r parent) (get r' parent) (
            u.others parent (λ w. bn (e ∙ w)) (λ w. bp (w ∙ ap some (sym e)))
              (λ w. bx (w ∙ ap some (sym e))) (λ z _. cc (sym z ∙ q)))

    prev_links :
        (b : SlotId)
        → (get r node).deriv_prev_sibling ≡ some b
        → SameLinks
            (record (get r b) { deriv_next_sibling = (get r node).deriv_next_sibling })
            (get r' b)
    prev_links b e = SameLinks-refl _ (get r' b) (u.at_prev b e)

    next_links :
        (b : SlotId)
        → (get r node).deriv_next_sibling ≡ some b
        → SameLinks
            (record (get r b) { deriv_prev_sibling = (get r node).deriv_prev_sibling })
            (get r' b)
    next_links b e = SameLinks-refl _ (get r' b) (u.at_next b e)

    detached :
        AllApart (pre ++ node ∷ post)
        → OutOf parent (pre ++ node ∷ post)
        → Children r' parent (pre ++ post)
    detached apart out =
        let (opre, orest) = All-before (λ y. y ≢ parent) pre (node ∷ post) out in
        let (xpre, xpost, cross, apre, apost) = AllApart-split pre node post apart in
        let rest =
          behind (get r) (get r') parent node post next_links keeps xpost apost
            (not_prev post cross) place.2 in
        go pre (not_next pre cross) xpre apre opre orest v place.1 rest
      where
        not_prev :
            (ps : List SlotId)
            → All (λ b. OutOf b ps) pre
            → All (λ b. (get r node).deriv_prev_sibling ≢ some b) ps
        not_prev [] c = tt
        not_prev (z ∷ zs) c = (
          (λ e.
              prev-All (λ b. z ≢ b) z
                (All-map (λ b. OutOf b (z ∷ zs)) (λ b. z ≢ b) pre (λ b w. w.0) c) e refl),
          not_prev zs (All-map (λ b. OutOf b (z ∷ zs)) (λ b. OutOf b zs) pre (λ b w. w.1) c),
        )

        not_next :
            (ys : List SlotId)
            → All (λ b. OutOf b post) ys
            → All (λ b. (get r node).deriv_next_sibling ≢ some b) ys
        not_next [] c = tt
        not_next (y ∷ ys) c = ((λ e. next-All (λ b. b ≢ y) y c.0 e refl), not_next ys c.1)

        go :
            (ps : List SlotId)
            → All (λ b. (get r node).deriv_next_sibling ≢ some b) ps
            → OutOf node ps
            → AllApart ps
            → OutOf parent ps
            → OutOf parent (node ∷ post)
            → Children r parent (ps ++ node ∷ post)
            → (get r node).deriv_prev_sibling ≡ last_of none ps
            → Siblings
                (get r')
                parent
                (get r node).deriv_prev_sibling
                (get r node).deriv_next_sibling
                post
            → Children r' parent (ps ++ post)
        go [] after xpre apre opre orest v e rest =
            subst (λ o. Siblings (get r') parent none o post)
              (sym
                (ap (λ (s : CapabilitySlot). s.deriv_first_child) (u.at_parent parent e place.0)))
              (subst (λ o. Siblings (get r') parent o (get r node).deriv_next_sibling post) e rest)
        go (y ∷ ys) after xpre apre opre orest v e rest =
            let bp = λ (w : (get r node).deriv_prev_sibling ≡ some parent).
              last_of-ne (some y) ys parent (λ q. opre.0 (some-injective q)) opre.1 (sym e ∙ w) in
            let bx = λ (w : (get r node).deriv_next_sibling ≡ some parent).
              next-All (λ b. b ≢ parent) parent orest.1 w refl in
            let some_prev =
              λ (w : (get r node).deriv_prev_sibling ≡ none). last_of-none y ys (sym e ∙ w) in
            subst (λ o. Siblings (get r') parent none o (y ∷ (ys ++ post)))
              (sym (
                ap (λ (s : CapabilitySlot). s.deriv_first_child)
                  (u.others parent (λ w. orest.0 (sym w)) bp bx (λ w _. some_prev w))))
              (joined (get r) (get r') parent node post prev_links keeps rest y ys none
                (get r parent).deriv_first_child xpre apre after e v)

    detached-others :
        (q : SlotId) (ys : List SlotId) → q ≢ parent → Children r q ys → Children r' q ys
    detached-others q ys ne w =
        let (ppre, prest) =
          All-before (λ b. (get r b).deriv_parent ≡ some parent) pre (node ∷ post)
            (Siblings-parent (get r) parent none (get r parent).deriv_first_child
              (pre ++ node ∷ post) v) in
        let apart =
          λ (b : SlotId) (e : (get r b).deriv_parent ≡ some q)
              (e' : (get r b).deriv_parent ≡ some parent).
            ne (some-injective (sym e ∙ e')) in
        subst (λ o. Siblings (get r') q none o ys) (sym first)
          (Siblings-agree (get r) (get r') q none (get r q).deriv_first_child ys
            (All-map (λ b. (get r b).deriv_parent ≡ some q) (λ b. SameLinks (get r b) (get r' b)) ys
              (λ b e.
                keeps b (λ x. apart b e (ap (λ y. (get r y).deriv_parent) x ∙ place.0))
                  (λ x. apart b e (prev-All (λ b. (get r b).deriv_parent ≡ some parent) b ppre x))
                  (λ x.
                    apart b e (next-All (λ b. (get r b).deriv_parent ≡ some parent) b prest.1 x)))
              (Siblings-parent (get r) q none (get r q).deriv_first_child ys w))
            w)
      where
        first : (get r' q).deriv_first_child ≡ (get r q).deriv_first_child
        first = elim (SlotId-cases q node) [
          | inl e ↦
              subst (λ x. (get r' x).deriv_first_child ≡ (get r x).deriv_first_child) (sym e)
                (ap (λ (s : CapabilitySlot). s.deriv_first_child) u.at_node)
          | inr qn ↦ elim (link-cases (get r node).deriv_prev_sibling q) [
            | inl e ↦ ap (λ (s : CapabilitySlot). s.deriv_first_child) (u.at_prev q e)
            | inr qp ↦ elim (link-cases (get r node).deriv_next_sibling q) [
              | inl e ↦ ap (λ (s : CapabilitySlot). s.deriv_first_child) (u.at_next q e)
              | inr qx ↦
                  ap (λ (s : CapabilitySlot). s.deriv_first_child)
                    (u.others q qn qp qx (λ _ e. ne (some-injective (sym e ∙ place.0))))
            ]
          ]
        ]

-- `unlink_node` of a capability among the children of another, all different: it is a child no more,
-- the others stay in their order, and the children of every other capability stay.
pub unlink_node-Detaches :
    (r : Registry) (parent node : SlotId) (pre post : List SlotId)
    → AllValid r
    → IsNode r parent
    → All (IsNode r) (pre ++ node ∷ post)
    → AllApart (pre ++ node ∷ post)
    → OutOf parent (pre ++ node ∷ post)
    → Children r parent (pre ++ node ∷ post)
    → (r' : Registry) × Detaches r parent node (pre ++ post) r'
unlink_node-Detaches r parent node pre post all vp nodes apart out v =
    let (r', u) = unlinked r parent node pre post v all vp nodes apart out in
    (
      r',
      record {
        returns = u.returns;
        all_valid = u.all_valid;
        nodes = u.nodes;
        children = detached r parent node pre post v r' u apart out;
        is_root = ap (λ (s : CapabilitySlot). s.deriv_parent) u.at_node;
        others = λ q ys ne w. detached-others r parent node pre post v r' u q ys ne w;
      },
    )
