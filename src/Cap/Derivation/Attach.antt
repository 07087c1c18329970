-- ===== src/Cap/Derivation/Attach.antt =====
-- `link_child` on lists of children.
use seraph.Prelude.{
  ◌≡◌, ◌≢◌, ◌⊎◌, inl, inr, sym, ◌∙◌, ap, subst, Option, none, some, List, [], ◌∷◌, All,
}
use seraph.Cap.Slot.{SlotId, CapabilitySlot}
use seraph.Cap.Derivation.{Registry, link_child}
use seraph.Cap.Derivation.Nodes.{get, IsNode, AllValid, SlotId-cases}
use seraph.Cap.Derivation.Children.{
  some-injective, link-cases, Slots, Siblings, Children, OutOf, AllApart, SameLinks, SameLinks-refl,
  Siblings-agree, Siblings-parent,
}
use seraph.Cap.Derivation.Link.{Links, link_child-Links}

-- The first child is in the list.
pub first-out :
    (g : Slots) (parent : SlotId) (prev h : Option SlotId) (xs : List SlotId) (b : SlotId)
    → OutOf b xs
    → Siblings g parent prev h xs
    → h ≢ some b
first-out g parent prev h [] b out v e = cc (sym v ∙ e)
first-out g parent prev h (x ∷ xs) b out v e = out.0 (some-injective (sym v.0 ∙ e))

pub first-IsNode :
    (r : Registry) (g : Slots) (parent : SlotId) (prev h : Option SlotId) (xs : List SlotId)
    → All (IsNode r) xs
    → Siblings g parent prev h xs
    → (x : SlotId) → h ≡ some x
    → IsNode r x
first-IsNode r g parent prev h [] n v x e = cc (sym v ∙ e)
first-IsNode r g parent prev h (y ∷ xs) n v x e =
    subst (IsNode r) (some-injective (sym v.0 ∙ e)) n.0

module _ (r : Registry) (parent child : SlotId) (r' : Registry) (l : Links r parent child r') where
  abbrev first : Option SlotId
  first = (get r parent).deriv_first_child

  -- A slot other than the child and the former first keeps its links.
  keeps-SameLinks : (b : SlotId) → b ≢ child → first ≢ some b → SameLinks (get r b) (get r' b)
  keeps-SameLinks b bc bf = elim (SlotId-cases b parent) [
    | inl e ↦
        subst (λ x. SameLinks (get r x) (get r' x)) (sym e)
          (record {
            parent = ap (λ (s : CapabilitySlot). s.deriv_parent) l.at_parent;
            prev = ap (λ (s : CapabilitySlot). s.deriv_prev_sibling) l.at_parent;
            next = ap (λ (s : CapabilitySlot). s.deriv_next_sibling) l.at_parent;
          })
    | inr ne ↦ SameLinks-refl (get r b) (get r' b) (l.others b bc ne bf)
  ]

  All-keep :
      (xs : List SlotId)
      → OutOf child xs
      → All (λ b. first ≢ some b) xs
      → All (λ b. SameLinks (get r b) (get r' b)) xs
  All-keep [] out apart = tt
  All-keep (x ∷ xs) out apart = (keeps-SameLinks x out.0 apart.0, All-keep xs out.1 apart.1)

  -- The child comes first.
  pub attached :
      (xs : List SlotId)
      → OutOf child xs
      → AllApart xs
      → Children r parent xs
      → Children r' parent (child ∷ xs)
  attached xs out apart v = (
    ap (λ (s : CapabilitySlot). s.deriv_first_child) l.at_parent,
    ap (λ (s : CapabilitySlot). s.deriv_parent) l.at_child,
    ap (λ (s : CapabilitySlot). s.deriv_prev_sibling) l.at_child,
    subst (λ o. Siblings (get r') parent (some child) o xs)
        (sym (ap (λ (s : CapabilitySlot). s.deriv_next_sibling) l.at_child))
        (behind xs out apart v),
  )
    where
      not_first :
          (x : SlotId) (ys : List SlotId)
          → first ≡ some x
          → OutOf x ys
          → All (λ b. first ≢ some b) ys
      not_first x [] e out = tt
      not_first x (y ∷ ys) e out = (λ q. out.0 (some-injective (sym q ∙ e)), not_first x ys e out.1)

      behind :
          (xs : List SlotId)
          → OutOf child xs
          → AllApart xs
          → Children r parent xs
          → Siblings (get r') parent (some child) first xs
      behind [] out apart v = v
      behind (x ∷ xs) out apart v =
          let at = l.at_first x v.0 in
          (
            v.0,
            ap (λ (s : CapabilitySlot). s.deriv_parent) at ∙ v.1,
            ap (λ (s : CapabilitySlot). s.deriv_prev_sibling) at,
            subst (λ o. Siblings (get r') parent (some x) o xs)
                (sym (ap (λ (s : CapabilitySlot). s.deriv_next_sibling) at))
                (Siblings-agree (get r) (get r') parent (some x) (get r x).deriv_next_sibling xs
                  (All-keep xs out.1 (not_first x xs v.0 apart.0)) v.3),
          )

  -- The first child of another slot stays.
  pub first-keeps :
      (q : SlotId) → q ≢ parent → (get r' q).deriv_first_child ≡ (get r q).deriv_first_child
  first-keeps q ne = elim (SlotId-cases q child) [
    | inl e ↦
        subst (λ x. (get r' x).deriv_first_child ≡ (get r x).deriv_first_child) (sym e)
          (ap (λ (s : CapabilitySlot). s.deriv_first_child) l.at_child)
    | inr qc ↦ elim (is_first q) [
      | inl e ↦ ap (λ (s : CapabilitySlot). s.deriv_first_child) (l.at_first q e)
      | inr nf ↦ ap (λ (s : CapabilitySlot). s.deriv_first_child) (l.others q qc ne nf)
    ]
  ]
    where
      is_first : (q : SlotId) → (first ≡ some q) ⊎ (first ≢ some q)
      is_first q = link-cases first q

  -- The children of another slot stay.
  pub attached-others :
      (q : SlotId) (xs ys : List SlotId)
      → q ≢ parent
      → OutOf child ys
      → Children r parent xs
      → Children r q ys
      → Children r' q ys
  attached-others q xs ys ne out v u =
      subst (λ o. Siblings (get r') q none o ys) (sym (first-keeps q ne))
        (Siblings-agree (get r) (get r') q none (get r q).deriv_first_child ys
          (All-keep ys out (not_first ys (Siblings-parent (get r) q none _ ys u))) u)
    where
      parent_of_first :
          (xs : List SlotId)
          → Children r parent xs
          → (b : SlotId) → first ≡ some b
          → (get r b).deriv_parent ≡ some parent
      parent_of_first [] v b e = cc (sym v ∙ e)
      parent_of_first (x ∷ xs) v b e =
          subst (λ y. (get r y).deriv_parent ≡ some parent) (some-injective (sym v.0 ∙ e)) v.1

      not_first :
          (ys : List SlotId)
          → All (λ b. (get r b).deriv_parent ≡ some q) ys
          → All (λ b. first ≢ some b) ys
      not_first [] a = tt
      not_first (y ∷ ys) a =
          (λ e. ne (some-injective (sym a.0 ∙ parent_of_first xs v y e)), not_first ys a.1)

-- What `link_child` leaves of lists of children.
pub record Attaches (r : Registry) (parent child : SlotId) (xs : List SlotId) (r' : Registry)
    : Type 0 where
  pub returns : link_child r parent child ≡ some r'
  pub slots : Links r parent child r'
  pub all_valid : AllValid r'
  pub nodes : (b : SlotId) → IsNode r b → IsNode r' b
  pub children : Children r' parent (child ∷ xs)
  pub links : (b : SlotId) → b ≢ child → OutOf b xs → SameLinks (get r b) (get r' b)
  pub others :
      (q : SlotId) (ys : List SlotId)
      → q ≢ parent
      → OutOf child ys
      → Children r q ys
      → Children r' q ys

-- `link_child` of two different capabilities, of which the first has the children `xs` and is none
-- of them, nor is the second: the second becomes the first child, in front of the others in their
-- order, and the children of every other capability stay.
pub link_child-Attaches :
    (r : Registry) (parent child : SlotId) (xs : List SlotId)
    → AllValid r
    → IsNode r parent
    → IsNode r child
    → All (IsNode r) xs
    → parent ≢ child
    → OutOf child xs
    → OutOf parent xs
    → AllApart xs
    → Children r parent xs
    → (r' : Registry) × Attaches r parent child xs r'
link_child-Attaches r parent child xs all vp vc nodes pc oc op apart v =
    let h = (get r parent).deriv_first_child in
    let (r', l) =
      link_child-Links r parent child all vp vc (first-IsNode r (get r) parent none h xs nodes v) pc
        (first-out (get r) parent none h xs child oc v)
        (first-out (get r) parent none h xs parent op v) in
    (
      r',
      record {
        returns = l.returns;
        slots = l;
        all_valid = l.all_valid;
        nodes = l.nodes;
        children = attached r parent child r' l xs oc apart v;
        links = λ b ne out.
            keeps-SameLinks r parent child r' l b ne (first-out (get r) parent none h xs b out v);
        others = λ q ys ne out u. attached-others r parent child r' l q xs ys ne out v u;
      },
    )
