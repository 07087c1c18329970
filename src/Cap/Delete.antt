-- ===== src/Cap/Delete.antt =====
-- kernel/src/syscall/cap.rs, `sys_cap_delete` and `sys_cap_revoke`, from the space of the caller on:
-- `caller` is its number, the space is one that could be registered, and the objects whose counts the
-- code drops at the end are handed back.
pub mod Revoke
mod Examples
use seraph.Prelude.{
  ℕ, suc, ◌≤◌, ◌<◌, ◌≡◌, ◌≢◌, refl, sym, ◌∙◌, ap, subst, Bool, true, false, Option, none, some,
  List, [], ◌∷◌, ◌++◌, All, length, ◌==◌, if◌then◌else◌, if-true, if-false, ==_ne, Bool-cases, inl,
  inr, ltb,
}
use seraph.Cap.Slot.{SlotId, CapabilitySlot, is_null}
use seraph.Cap.CSpace.{CSpace, slot}
use seraph.Cap.Derivation.{
  Registry, lookup_cspace, and_then, reparent_children, unlink_node, free_node, revoke_subtree,
}
use seraph.Cap.Derivation.Nodes.{
  get, IsNode, AllValid, get-IsNode, get-found, slot-IsNode, Drops, free_node-Drops, found-there,
}
use seraph.Cap.Derivation.Children.{
  Slots, Siblings, Children, OutOf, AllApart, SameLinks, SameLinks-refl, Siblings-agree, All-map,
}
use seraph.Cap.Derivation.Moves.{turn}
use seraph.Cap.Derivation.Reparent.{Reparents, reparent_children-Reparents}
use seraph.Cap.Derivation.Joined.{All-before, at-place}
use seraph.Cap.Derivation.Detach.{Detaches, unlink_node-Detaches}

pub data Deleted : Type 0 where
  nothing_there : Deleted
  invalid_capability : Deleted
  deleted : ℕ → Deleted

-- The deletion of the capability in the slot `s`.
pub delete_slot : ℕ → Registry → SlotId → CapabilitySlot → Option (Deleted × Registry)
delete_slot fuel r node s = and_then (reparent_children fuel r node s.deriv_parent) (λ r.
    and_then (unlink_node r node) (λ r.
      and_then (r node.cspace_id)
        (λ cs. and_then (free_node r node cs) (λ r. some (deleted s.object, r)))))

pub sys_cap_delete : ℕ → Registry → ℕ → ℕ → Option (Deleted × Registry)
sys_cap_delete fuel r caller slot_idx = elim (r caller) [
  | none ↦ some (invalid_capability, r)
  | some cs ↦ elim (slot cs slot_idx) [
    | none ↦ none
    | some none ↦ some (invalid_capability, r)
    | some (some s) ↦
        if is_null s
        then some (nothing_there, r)
        else if s.object == 0
        then some (invalid_capability, r)
        else delete_slot fuel r (record { cspace_id = caller; index = slot_idx }) s
  ]
]

-- The objects whose counts are dropped, or none if there is no capability to revoke below.
pub sys_cap_revoke : ℕ → Registry → ℕ → ℕ → Option (Option (List ℕ) × Registry)
sys_cap_revoke fuel r caller slot_idx = elim (r caller) [
  | none ↦ some (none, r)
  | some cs ↦ elim (slot cs slot_idx) [
    | none ↦ none
    | some none ↦ some (none, r)
    | some (some s) ↦
        if is_null s
        then some (none, r)
        else and_then (revoke_subtree fuel r (record { cspace_id = caller; index = slot_idx }))
            (λ (objects, r). some (some objects, r))
  ]
]

turn-append : (xs ys zs : List SlotId) → turn xs (ys ++ zs) ≡ turn xs ys ++ zs
turn-append [] ys zs = refl
turn-append (x ∷ xs) ys zs = turn-append xs (x ∷ ys) zs

All-turn {κ} :
    (P : SlotId → Type κ) (xs ys : List SlotId) → All P xs → All P ys → All P (turn xs ys)
All-turn P [] ys a b = b
All-turn P (x ∷ xs) ys a b = All-turn P xs (x ∷ ys) a.1 (a.0, b)

AllApart-turn :
    (xs ys : List SlotId)
    → AllApart xs
    → AllApart ys
    → All (λ x. OutOf x ys) xs
    → AllApart (turn xs ys)
AllApart-turn [] ys a b c = b
AllApart-turn (x ∷ xs) ys a b c = AllApart-turn xs (x ∷ ys) a.1 (c.0, b) (crossed xs a.0 c.1)
  where
    crossed :
        (zs : List SlotId) → OutOf x zs → All (λ z. OutOf z ys) zs → All (λ z. OutOf z (x ∷ ys)) zs
    crossed [] out a = tt
    crossed (z ∷ zs) out a = (((λ e. out.0 (sym e)), a.0), crossed zs out.1 a.1)

All-join {κ} : (P : SlotId → Type κ) (xs ys : List SlotId) → All P xs → All P ys → All P (xs ++ ys)
All-join P [] ys a b = b
All-join P (x ∷ xs) ys a b = (a.0, All-join P xs ys a.1 b)

middle-out :
    (xs : List SlotId) (x : SlotId) (ys : List SlotId)
    → AllApart (xs ++ x ∷ ys)
    → OutOf x (xs ++ ys)
middle-out [] x ys a = a.0
middle-out (z ∷ xs) x ys a =
    ((λ e. (All-before (λ y. y ≢ z) xs (x ∷ ys) a.0).1.0 (sym e)), middle-out xs x ys a.1)

-- What deleting a capability below another leaves.
pub record Deletes (fuel : ℕ) (r : Registry) (node parent : SlotId) (xs rest : List SlotId)
    (r' : Registry) : Type 0 where
  pub returns :
      sys_cap_delete fuel r node.cspace_id node.index ≡ some (deleted (get r node).object, r')
  pub all_valid : AllValid r'
  pub is_gone : is_null (get r' node) ≡ true
  pub nodes : (b : SlotId) → b ≢ node → IsNode r b → IsNode r' b
  pub children : Children r' parent rest
  pub others :
      (q : SlotId) (zs : List SlotId)
      → q ≢ parent
      → q ≢ node
      → OutOf node zs
      → All (λ x. OutOf x zs) xs
      → Children r q zs
      → Children r' q zs

module _ (fuel : ℕ) (r : Registry) (node : SlotId) where
  sys_cap_delete-run :
      (r1 r2 r3 : Registry) (cs cs' : CSpace)
      → r node.cspace_id ≡ some cs
      → slot cs node.index ≡ some (some (get r node))
      → is_null (get r node) ≡ false
      → (get r node).object ≢ 0
      → reparent_children fuel r node (get r node).deriv_parent ≡ some r1
      → unlink_node r1 node ≡ some r2
      → r2 node.cspace_id ≡ some cs'
      → free_node r2 node cs' ≡ some r3
      → sys_cap_delete fuel r node.cspace_id node.index ≡ some (deleted (get r node).object, r3)
  unfolding sys_cap_delete delete_slot
  sys_cap_delete-run r1 r2 r3 cs cs' e1 e2 e3 e4 e5 e6 e7 e8 =
      ap outer e1
      ∙ ap inner e2
      ∙ if-false _ _ (is_null (get r node)) e3
      ∙ if-false _ _ ((get r node).object == 0) (==_ne (get r node).object 0 e4)
      ∙ ap (λ o. and_then o unlinked) e5
      ∙ ap (λ o. and_then o dropped) e6
      ∙ ap (λ o. and_then o (freed r2)) e7
      ∙ ap (λ o. and_then o (λ r0. some (deleted (get r node).object, r0))) e8
    where
      freed : Registry → CSpace → Option (Deleted × Registry)
      freed r0 cs = and_then (free_node r0 node cs) (λ r0. some (deleted (get r node).object, r0))

      dropped : Registry → Option (Deleted × Registry)
      dropped r0 = and_then (r0 node.cspace_id) (freed r0)

      unlinked : Registry → Option (Deleted × Registry)
      unlinked r0 = and_then (unlink_node r0 node) dropped

      inner : Option (Option CapabilitySlot) → Option (Deleted × Registry)
      inner o = elim o [
        | none ↦ none
        | some none ↦ some (invalid_capability, r)
        | some (some s) ↦
            if is_null s
            then some (nothing_there, r)
            else if s.object == 0
            then some (invalid_capability, r)
            else delete_slot fuel r node s
      ]

      outer : Option CSpace → Option (Deleted × Registry)
      outer o = elim o [
        | none ↦ some (invalid_capability, r)
        | some cs ↦ inner (slot cs node.index)
      ]

-- The lists of a registry in which one slot has been given back.
dropped-Children :
    (r r' : Registry) (node q : SlotId) (zs : List SlotId)
    → ((b : SlotId) → b ≢ node → get r' b ≡ get r b)
    → q ≢ node
    → OutOf node zs
    → Children r q zs
    → Children r' q zs
dropped-Children r r' node q zs same ne out v =
    subst (λ o. Siblings (get r') q none o zs)
      (sym (ap (λ (s : CapabilitySlot). s.deriv_first_child) (same q ne)))
      (Siblings-agree (get r) (get r') q none (get r q).deriv_first_child zs
        (All-map (λ z. z ≢ node) (λ z. SameLinks (get r z) (get r' z)) zs
          (λ z n. SameLinks-refl (get r z) (get r' z) (same z n)) out)
        v)

-- The system call that deletes a capability with the children `xs`, which is a child of another
-- between `pre` and `post`, all of them different, with fuel for the children: it hands back the object,
-- the slot is empty, and every other capability is still there. The children of the deleted capability
-- come in front of those of the other, and the lists of children apart from these stay.
pub sys_cap_delete-Deletes :
    (fuel : ℕ) (r : Registry) (node parent : SlotId) (xs pre post : List SlotId)
    → length xs ≤ fuel
    → AllValid r
    → IsNode r node
    → (get r node).object ≢ 0
    → IsNode r parent
    → All (IsNode r) xs
    → All (IsNode r) (pre ++ node ∷ post)
    → OutOf node xs
    → OutOf parent xs
    → OutOf parent (pre ++ node ∷ post)
    → AllApart xs
    → AllApart (pre ++ node ∷ post)
    → All (λ x. OutOf x (pre ++ node ∷ post)) xs
    → Children r node xs
    → Children r parent (pre ++ node ∷ post)
    → (r' : Registry) × Deletes fuel r node parent xs (turn xs pre ++ post) r'
sys_cap_delete-Deletes fuel r node parent xs pre post le all vn object vp nx ny nx_out px py ax ay
      cross u v =
    let ys = pre ++ node ∷ post in
    let place = at-place (get r) parent none (get r parent).deriv_first_child pre node post v in
    let pn : parent ≢ node = λ e. (All-before (λ y. y ≢ parent) pre (node ∷ post) py).1.0 (sym e) in
    let (r1, a) =
      reparent_children-Reparents fuel r node parent xs ys le all vn vp nx ny pn px py ax ay cross u
        v in
    let whole = turn-append xs pre (node ∷ post) in
    let spread = λ (P : SlotId → Type 0) (f : All P xs) (g : All P ys).
      subst (All P) whole (All-turn P xs ys f g) in
    let apart = subst AllApart whole (AllApart-turn xs ys ax ay cross) in
    let (r2, b) =
      unlink_node-Detaches r1 parent node (turn xs pre) post a.all_valid (a.nodes parent vp)
        (All-map (IsNode r) (IsNode r1) (turn xs pre ++ node ∷ post) a.nodes
          (spread (IsNode r) nx ny))
        apart (spread (λ y. y ≢ parent) px py) (subst (Children r1 parent) whole a.children) in
    let w = b.nodes node (a.nodes node vn) in
    let (r3, d) = free_node-Drops r2 node b.all_valid w in
    (
      r3,
      record {
        returns =
            sys_cap_delete-run fuel r node r1 r2 r3 vn.space w.space
              (found-there r node.cspace_id vn.space vn.found) (slot-IsNode r node vn all)
              (get-IsNode r node vn) object (ap (reparent_children fuel r node) place.0 ∙ a.returns)
              b.returns (found-there r2 node.cspace_id w.space w.found) d.returns;
        all_valid = d.all_valid;
        is_gone = d.self;
        nodes = λ c ne x. d.nodes c ne (b.nodes c (a.nodes c x));
        children =
            dropped-Children r2 r3 node parent (turn xs pre ++ post) d.others pn
              (middle-out (turn xs pre) node post apart) b.children;
        others = λ q zs qp qn out away c.
            dropped-Children r2 r3 node q zs d.others qn out
              (b.others q zs qp (a.others q zs qp qn away c));
      },
    )
