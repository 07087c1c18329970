-- ===== src/Cap/Derivation/Revoke.antt =====
-- `revoke_subtree`.
use seraph.Prelude.{
  ℕ, zero, suc, ◌+◌, ◌-◌, ◌≤◌, ◌≡◌, ◌≢◌, refl, sym, ◌∙◌, ap, subst, true, Option, none, some, List,
  [], ◌∷◌, ◌++◌, arith, ◌==◌, append-nil, append_assoc, Bool-cases, inl, inr,
}
use seraph.Cap.Slot.{SlotId, CapabilitySlot, is_null}
use seraph.Cap.CSpace.{CSpace, slot}
use seraph.Cap.Derivation.{
  Registry, lookup_cspace, resolve_slot, write, and_then, next_sibling_of, push_children,
  push_object, free_node, revoke_from, revoke_subtree,
}
use seraph.Cap.Derivation.Nodes.{
  get, IsNode, AllValid, get-IsNode, slot-IsNode, resolve_slot-IsNode, write-Writes,
  free_node-Drops,
}
use seraph.Cap.Derivation.Forest.{
  Forest, empty, node, size, AllOf, Out, Apart, Hangs, push, own, objects, AllOf-map, AllOf-both,
  Hangs-agree, objects-agree,
}

push_children-none :
    (fuel : ℕ) (r : Registry) (stack : List SlotId) → push_children fuel r none stack ≡ some stack
unfolding push_children
push_children-none zero r stack = refl
push_children-none (suc fuel) r stack = refl

push_children-step :
    (fuel : ℕ) (r : Registry) (x : SlotId) (s : CapabilitySlot) (stack : List SlotId)
    → resolve_slot r x ≡ some (some s)
    → push_children (suc fuel) r (some x) stack
      ≡ push_children fuel r s.deriv_next_sibling (x ∷ stack)
unfolding push_children
push_children-step fuel r x s stack e =
    ap (λ o. and_then o (λ s. push_children fuel r (next_sibling_of s) (x ∷ stack))) e

push_children-push :
    (f : Forest) (fuel : ℕ) (r : Registry) (h : Option SlotId) (stack : List SlotId)
    → size f ≤ fuel
    → AllValid r
    → AllOf (IsNode r) f
    → Hangs (get r) h f
    → push_children fuel r h stack ≡ some (push f stack)
push_children-push empty fuel r h stack le all nodes v =
    ap (λ h. push_children fuel r h stack) v ∙ push_children-none fuel r stack
push_children-push (node x c s) zero r h stack le all nodes v = absurd (omega arith)
push_children-push (node x c s) (suc fuel) r h stack le all nodes v =
    ap (λ h. push_children (suc fuel) r h stack) v.0
    ∙ push_children-step fuel r x (get r x) stack (resolve_slot-IsNode r x all nodes.0)
    ∙ push_children-push s fuel r (get r x).deriv_next_sibling (x ∷ stack) (omega arith) all nodes.2
        v.2

revoke_from-nil :
    (fuel : ℕ) (r : Registry) (acc : List ℕ) → revoke_from fuel r [] acc ≡ some (acc, r)
unfolding revoke_from
revoke_from-nil zero r acc = refl
revoke_from-nil (suc fuel) r acc = refl

revoke_from-step :
    (fuel : ℕ) (r r' : Registry) (x : SlotId) (cs : CSpace) (s : CapabilitySlot)
    (stack stack' : List SlotId) (acc : List ℕ)
    → lookup_cspace r x.cspace_id ≡ some cs
    → slot cs x.index ≡ some (some s)
    → free_node r x cs ≡ some r'
    → push_children fuel r' s.deriv_first_child stack ≡ some stack'
    → revoke_from (suc fuel) r (x ∷ stack) acc
      ≡ revoke_from fuel r' stack' (push_object acc s.object)
unfolding revoke_from
revoke_from-step fuel r r' x cs s stack stack' acc found here freed pushed =
    ap
      (λ (o : Option CSpace). elim o [
        | none ↦ revoke_from fuel r stack acc
        | some cs ↦ elim (slot cs x.index) [
          | none ↦ none
          | some none ↦ revoke_from fuel r stack acc
          | some (some s) ↦ rest s (free_node r x cs)
        ]
      ])
      found
    ∙ ap
        (λ (o : Option (Option CapabilitySlot)). elim o [
          | none ↦ none
          | some none ↦ revoke_from fuel r stack acc
          | some (some s) ↦ rest s (free_node r x cs)
        ])
        here
    ∙ ap (rest s) freed
    ∙ ap (λ o. and_then o (λ stack. revoke_from fuel r' stack (push_object acc s.object))) pushed
  where
    rest : CapabilitySlot → Option Registry → Option (List ℕ × Registry)
    rest s o = and_then o (λ r.
        and_then (push_children fuel r s.deriv_first_child stack)
          (λ stack. revoke_from fuel r stack (push_object acc s.object)))

push_object-own : (acc : List ℕ) (o : ℕ) → push_object acc o ≡ acc ++ own o
push_object-own acc o = elim (Bool-cases (o == 0)) [
  | inl e ↦ rw e (sym (append-nil acc))
  | inr e ↦ rw e refl
]

-- What giving back the slots of a forest leaves.
pub record Revokes (r : Registry) (f : Forest) (r' : Registry) : Type 0 where
  pub all_valid : AllValid r'
  pub nodes : (b : SlotId) → Out b f → IsNode r b → IsNode r' b
  pub nulls : AllOf (λ b. is_null (get r' b) ≡ true) f
  pub others : (b : SlotId) → Out b f → get r' b ≡ get r b

-- The objects so far, when a node is gone and its children are to come.
collected :
    (acc : List ℕ) (r r1 r2 : Registry) (x : SlotId) (c s : Forest)
    → get r1 x ≡ get r x
    → AllOf (λ y. get r2 y ≡ get r y) c
    → push_object (acc ++ objects (get r) s) (get r1 x).object ++ objects (get r2) c
      ≡ acc ++ objects (get r) (node x c s)
collected acc r r1 r2 x c s same keep =
    let acc1 = acc ++ objects (get r) s in
    let o : ℕ = (get r1 x).object in
    ap (λ l. l ++ objects (get r2) c) (push_object-own acc1 o)
    ∙ append_assoc acc1 (own o) (objects (get r2) c)
    ∙ ap (λ l. acc1 ++ (own o ++ l)) (objects-agree (get r) (get r2) c keep)
    ∙ ap (λ (t : CapabilitySlot). acc1 ++ (own t.object ++ objects (get r) c)) same
    ∙ append_assoc acc (objects (get r) s) (own (get r x).object ++ objects (get r) c)

-- The loop takes the roots of a forest and all below them off the stack.
revoke_from-Revokes :
    (f : Forest) (fuel rest : ℕ) (r : Registry) (h : Option SlotId) (stack : List SlotId)
    (acc : List ℕ)
    → fuel ≡ size f + rest
    → AllValid r
    → AllOf (IsNode r) f
    → Hangs (get r) h f
    → Apart f
    → (r' : Registry) × (revoke_from fuel r (push f stack) acc
        ≡ revoke_from rest r' stack (acc ++ objects (get r) f))
      × Revokes r f r'
revoke_from-Revokes empty fuel rest r h stack acc e all nodes v apart =
    let same : fuel ≡ rest = omega arith in
    (
      r,
      ap (λ n. revoke_from n r stack acc) same
          ∙ ap (revoke_from rest r stack) (sym (append-nil acc)),
      record { all_valid = all; nodes = λ b out w. w; nulls = tt; others = λ b out. refl },
    )
revoke_from-Revokes (node x c s) fuel rest r h stack acc e all nodes v apart =
    let n : ℕ = size c + rest in
    let acc1 = acc ++ objects (get r) s in
    let (r1, run1, k1) =
      revoke_from-Revokes s fuel (suc n) r (get r x).deriv_next_sibling (x ∷ stack) acc
        (omega arith) all nodes.2 v.2 apart.5 in
    let x1 = k1.nodes x apart.1 nodes.0 in
    let same1 : get r1 x ≡ get r x = k1.others x apart.1 in
    let (r2, d) = free_node-Drops r1 x k1.all_valid x1 in
    let keep1 =
      AllOf-map (λ y. Out y s) (λ y. get r1 y ≡ get r y) c (λ y out. k1.others y out) apart.2 in
    let keep2 : AllOf (λ y. get r2 y ≡ get r y) c =
      AllOf-map (λ y. (y ≢ x) × (get r1 y ≡ get r y)) _ c (λ y p. d.others y p.0 ∙ p.1)
        (AllOf-both _ _ c apart.0 keep1) in
    let nodes2 : AllOf (IsNode r2) c =
      AllOf-map (λ y. (y ≢ x) × ((Out y s) × IsNode r y)) _ c
        (λ y p. d.nodes y p.0 (k1.nodes y p.1.0 p.1.1))
        (AllOf-both _ _ c apart.0 (AllOf-both _ _ c apart.2 nodes.1)) in
    let first : (get r1 x).deriv_first_child ≡ (get r x).deriv_first_child =
      ap (λ (t : CapabilitySlot). t.deriv_first_child) same1 in
    let hangs2 : Hangs (get r2) (get r1 x).deriv_first_child c =
      Hangs-agree (get r) (get r2) _ c keep2 (subst (λ o. Hangs (get r) o c) (sym first) v.1) in
    let pushed =
      push_children-push c n r2 (get r1 x).deriv_first_child stack (omega arith) d.all_valid nodes2
        hangs2 in
    let step =
      revoke_from-step n r1 r2 x x1.space (get r1 x) stack (push c stack) acc1 x1.found
        (slot-IsNode r1 x x1 k1.all_valid) d.returns pushed in
    let o : ℕ = (get r1 x).object in
    let (r3, run3, k3) =
      revoke_from-Revokes c n rest r2 (get r1 x).deriv_first_child stack (push_object acc1 o) refl
        d.all_valid nodes2 hangs2 apart.4 in
    let sum = collected acc r r1 r2 x c s same1 keep2 in
    (
      r3,
      run1 ∙ step ∙ run3 ∙ ap (revoke_from rest r3 stack) sum,
      record {
        all_valid = k3.all_valid;
        nodes = λ b out w. k3.nodes b out.1 (d.nodes b (λ q. out.0 (sym q)) (k1.nodes b out.2 w));
        nulls = (
          ap is_null (k3.others x apart.0) ∙ d.self,
          k3.nulls,
          AllOf-map (λ y. (y ≢ x) × ((Out y c) × (is_null (get r1 y) ≡ true))) _ s
              (λ y p. ap is_null (k3.others y p.1.0 ∙ d.others y p.0) ∙ p.1.1)
              (AllOf-both _ _ s apart.1 (AllOf-both _ _ s apart.3 k1.nulls)),
        );
        others = λ b out. k3.others b out.1 ∙ d.others b (λ q. out.0 (sym q)) ∙ k1.others b out.2;
      },
    )

-- What `revoke_subtree` leaves.
pub record RevokesBelow (fuel : ℕ) (r : Registry) (root : SlotId) (f : Forest) (r' : Registry)
    : Type 0 where
  pub returns : revoke_subtree fuel r root ≡ some (objects (get r) f, r')
  pub kept : get r' root ≡ record (get r root) { deriv_first_child = none }
  pub all_valid : AllValid r'
  pub nulls : AllOf (λ b. is_null (get r' b) ≡ true) f
  pub others : (b : SlotId) → b ≢ root → Out b f → get r' b ≡ get r b
  pub nodes : (b : SlotId) → Out b f → IsNode r b → IsNode r' b

module _ (fuel : ℕ) (r : Registry) (root : SlotId) (f : Forest) where
  abbrev cut : CapabilitySlot
  cut = record (get r root) { deriv_first_child = none }

  revoke-run :
      (stack : List SlotId) (result : Option (List ℕ × Registry))
      → resolve_slot r root ≡ some (some (get r root))
      → push_children fuel (write r root cut) (get r root).deriv_first_child [] ≡ some stack
      → revoke_from fuel (write r root cut) stack [] ≡ result
      → revoke_subtree fuel r root ≡ result
  unfolding revoke_subtree
  revoke-run stack result e pushed run =
      ap
        (λ (o : Option (Option CapabilitySlot)). elim o [
          | none ↦ none
          | some none ↦ some ([], r)
          | some (some s) ↦
              and_then
                (push_children fuel (write r root (record s { deriv_first_child = none }))
                  s.deriv_first_child [])
                (λ stack.
                  revoke_from fuel (write r root (record s { deriv_first_child = none })) stack [])
        ])
        e
      ∙ ap (λ o. and_then o (λ stack. revoke_from fuel (write r root cut) stack [])) pushed
      ∙ run

  -- `revoke_subtree` of a capability, in well-formed spaces, where a forest of capabilities that are
  -- all different hangs below it, with fuel for each of them, returns: the objects of all of them are
  -- handed back, their slots are null and on the free lists of their spaces, the capability itself is
  -- kept with no children, and every other slot is as before.
  pub revoke_subtree-Revokes :
      size f ≤ fuel
      → AllValid r
      → IsNode r root
      → AllOf (IsNode r) f
      → Hangs (get r) (get r root).deriv_first_child f
      → Apart f
      → Out root f
      → (r' : Registry) × RevokesBelow fuel r root f r'
  revoke_subtree-Revokes le all v nodes hangs apart out =
      let w = write-Writes r root all v cut (get-IsNode r root v) in
      let r1 : Registry = write r root cut in
      let keep : AllOf (λ y. get r1 y ≡ get r y) f =
        AllOf-map (λ y. y ≢ root) _ f (λ y ne. w.others y ne) out in
      let nodes1 : AllOf (IsNode r1) f = AllOf-map (IsNode r) _ f (λ y n. w.nodes y n) nodes in
      let first = (get r root).deriv_first_child in
      let hangs1 : Hangs (get r1) first f = Hangs-agree (get r) (get r1) first f keep hangs in
      let pushed = push_children-push f fuel r1 first [] le w.all_valid nodes1 hangs1 in
      let (r', run, k) =
        revoke_from-Revokes f fuel (fuel - size f) r1 first [] [] (omega arith) w.all_valid nodes1
          hangs1 apart in
      (
        r',
        record {
          returns =
              revoke-run (push f []) _ (resolve_slot-IsNode r root all v) pushed
                (run ∙ revoke_from-nil (fuel - size f) r' (objects (get r1) f))
              ∙ ap (λ l. some (l, r')) (objects-agree (get r) (get r1) f keep);
          kept = k.others root out ∙ w.self;
          all_valid = k.all_valid;
          nulls = k.nulls;
          others = λ b ne apart. k.others b apart ∙ w.others b ne;
          nodes = λ b apart n. k.nodes b apart (w.nodes b n);
        },
      )
