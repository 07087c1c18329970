-- ===== src/Cap/Derivation/Nodes.antt =====
-- Slots that hold capabilities, in the spaces of a registry, and what a write to one of them keeps.
use native.Mathlib.Decide.{ℕ_discrete}
use seraph.Prelude.{
  ℕ, ◌≤◌, ◌<◌, ◌≡◌, ◌≢◌, refl, sym, ◌∙◌, ap, ap₂, subst, true, false, false≢true, Option, none,
  some, List, ◌∷◌, arith, ◌⊎◌, ltb, if◌then◌else◌, if-true, if-false, Bool-cases, inl, inr, update,
  update_self, update_ne,
}
use seraph.Cap.Slot.{SlotId, CapabilitySlot, null_slot, is_null}
use seraph.Cap.CSpace.{CSpace, slot, write_slot, free_slot, Outcome}
use seraph.Cap.CSpace.Free.{Valid, Exact}
use seraph.Cap.CSpace.Allocate.{slot-Valid, free_slot-Frees}
use seraph.Cap.CSpace.Unlink.{FreeList-NotIn}
use seraph.Cap.CSpace.Insert.{write_slot-Valid}
use seraph.Cap.Derivation.{Registry, lookup_cspace, resolve_slot, write, on_slot, free_node}

-- A space that is found is there.
pub found-there : (r : Registry) (c : ℕ) (cs : CSpace) → lookup_cspace r c ≡ some cs → r c ≡ some cs
found-there r c cs e = elim (Bool-cases (ltb c 4096)) [
  | inl b ↦ sym (if-true (r c) none (ltb c 4096) b) ∙ e
  | inr b ↦ cc (sym (if-false (r c) none (ltb c 4096) b) ∙ e)
]

-- The slot that an identifier names.
abbrev pub get : Registry → SlotId → CapabilitySlot
get r id = elim (lookup_cspace r id.cspace_id) [ none ↦ null_slot | some cs ↦ cs.slots id.index ]

-- The slot is in use and holds a capability.
pub record IsNode (r : Registry) (id : SlotId) : Type 0 where
  pub space : CSpace
  pub found : lookup_cspace r id.cspace_id ≡ some space
  pub pos : 0 < id.index
  pub in_use : id.index ≤ space.allocated_slots
  pub used : is_null (space.slots id.index) ≡ false

-- Every space that is registered is well-formed.
abbrev pub AllValid : Registry → Type 0
AllValid r =
    (c : ℕ) (cs : CSpace)
    → lookup_cspace r c ≡ some cs
    → (n : ℕ) × (xs : List ℕ) × Valid cs n xs × Exact cs xs

pub get-found :
    (r : Registry) (id : SlotId) (cs : CSpace)
    → lookup_cspace r id.cspace_id ≡ some cs
    → get r id ≡ cs.slots id.index
get-found r id cs e =
    ap (λ (o : Option CSpace). elim o [ none ↦ null_slot | some cs ↦ cs.slots id.index ]) e

pub get-IsNode : (r : Registry) (id : SlotId) → IsNode r id → is_null (get r id) ≡ false
get-IsNode r id v = ap is_null (get-found r id v.space v.found) ∙ v.used

pub slot-IsNode :
    (r : Registry) (id : SlotId) (v : IsNode r id)
    → AllValid r
    → slot v.space id.index ≡ some (some (get r id))
slot-IsNode r id v all =
    let (n, xs, valid, _) = all id.cspace_id v.space v.found in
    slot-Valid v.space n xs id.index valid v.pos v.in_use
    ∙ ap (λ s. some (some s)) (sym (get-found r id v.space v.found))

pub resolve_slot-IsNode :
    (r : Registry) (id : SlotId)
    → AllValid r
    → IsNode r id
    → resolve_slot r id ≡ some (some (get r id))
unfolding resolve_slot
resolve_slot-IsNode r id all v =
    ap (λ (o : Option CSpace). elim o [ none ↦ some none | some cs ↦ slot cs id.index ]) v.found
    ∙ slot-IsNode r id v all

-- Identifiers are equal if their parts are.
pub id-ext : (a b : SlotId) → a.cspace_id ≡ b.cspace_id → a.index ≡ b.index → a ≡ b
id-ext a b c i = ap₂ (λ x y. record { cspace_id = x; index = y }) c i

-- A space in place of the one that is registered.
module _ (r : Registry) (k : ℕ) (cs cs' : CSpace) (found : lookup_cspace r k ≡ some cs) where
  abbrev pub swapped : Registry
  swapped = update r k (some cs')

  in_range : ltb k 4096 ≡ true
  in_range = elim (Bool-cases (ltb k 4096)) [
    | inl e ↦ e
    | inr e ↦ cc (sym (if-false (r k) none (ltb k 4096) e) ∙ found)
  ]

  pub lookup_self : lookup_cspace swapped k ≡ some cs'
  lookup_self = if-true _ _ (ltb k 4096) in_range ∙ update_self r k (some cs')

  pub lookup-ne : (j : ℕ) → j ≢ k → lookup_cspace swapped j ≡ lookup_cspace r j
  lookup-ne j n = ap (λ o. if ltb j 4096 then o else none) (update_ne r k (some cs') j n)

  pub swap-AllValid :
      AllValid r → ((n : ℕ) × (xs : List ℕ) × Valid cs' n xs × Exact cs' xs) → AllValid swapped
  swap-AllValid all new c cs0 e = elim (ℕ_discrete c k) [
    | yes q ↦
        let same : cs' ≡ cs0 =
          some-injective (sym lookup_self ∙ ap (lookup_cspace swapped) (sym q) ∙ e) in
        subst (λ cs. (n : ℕ) × (xs : List ℕ) × Valid cs n xs × Exact cs xs) same new
    | no q ↦ all c cs0 (sym (lookup-ne c q) ∙ e)
  ]
    where
      some-injective : {a b : CSpace} → some a ≡ some b → a ≡ b
      some-injective e = cc

  -- The other slots are as before.
  swap-get :
      (a b : SlotId)
      → a.cspace_id ≡ k
      → ((j : ℕ) → j ≢ a.index → cs'.slots j ≡ cs.slots j)
      → b ≢ a
      → get swapped b ≡ get r b
  swap-get a b home same ne = elim (ℕ_discrete b.cspace_id k) [
    | yes q ↦
        get-found swapped b cs' (ap (lookup_cspace swapped) q ∙ lookup_self)
        ∙ same b.index (λ i. ne (id-ext b a (q ∙ sym home) i))
        ∙ sym (get-found r b cs (ap (lookup_cspace r) q ∙ found))
    | no q ↦
        ap (λ (o : Option CSpace). elim o [ none ↦ null_slot | some cs ↦ cs.slots b.index ])
          (lookup-ne b.cspace_id q)
  ]

  pub swap_self : (a : SlotId) → a.cspace_id ≡ k → get swapped a ≡ cs'.slots a.index
  swap_self a home = get-found swapped a cs' (ap (lookup_cspace swapped) home ∙ lookup_self)

  -- A node stays one, if its slot still holds a capability.
  pub swap-IsNode :
      (b : SlotId)
      → cs.allocated_slots ≤ cs'.allocated_slots
      → is_null (get swapped b) ≡ false
      → IsNode r b
      → IsNode swapped b
  swap-IsNode b same used v = elim (ℕ_discrete b.cspace_id k) [
    | yes q ↦
        let at : lookup_cspace swapped b.cspace_id ≡ some cs' =
          ap (lookup_cspace swapped) q ∙ lookup_self in
        let here : v.space ≡ cs = some-injective (sym v.found ∙ ap (lookup_cspace r) q ∙ found) in
        record {
          space = cs';
          found = at;
          pos = v.pos;
          in_use = omega (arith, v.in_use, ap (λ (c : CSpace). c.allocated_slots) here, same);
          used = sym (ap is_null (get-found swapped b cs' at)) ∙ used;
        }
    | no q ↦ record {
      space = v.space;
      found = lookup-ne b.cspace_id q ∙ v.found;
      pos = v.pos;
      in_use = v.in_use;
      used = v.used;
    }
  ]
    where
      some-injective : {a b : CSpace} → some a ≡ some b → a ≡ b
      some-injective e = cc

-- What a write of a slot that holds a capability keeps.
pub record Writes (r : Registry) (a : SlotId) (s : CapabilitySlot) (r' : Registry) : Type 0 where
  pub all_valid : AllValid r'
  pub nodes : (b : SlotId) → IsNode r b → IsNode r' b
  pub self : get r' a ≡ s
  pub others : (b : SlotId) → b ≢ a → get r' b ≡ get r b

pub write-found :
    (r : Registry) (a : SlotId) (s : CapabilitySlot) (cs : CSpace)
    → lookup_cspace r a.cspace_id ≡ some cs
    → write r a s ≡ update r a.cspace_id (some (write_slot cs a.index s))
write-found r a s cs e =
    ap
      (λ (o : Option CSpace). elim o [
        | none ↦ r
        | some cs ↦ update r a.cspace_id (some (write_slot cs a.index s))
      ])
      e

pub SlotId-cases : (a b : SlotId) → (a ≡ b) ⊎ (a ≢ b)
SlotId-cases a b = elim (ℕ_discrete a.cspace_id b.cspace_id) [
  | no n ↦ inr (λ e. n (ap (λ (x : SlotId). x.cspace_id) e))
  | yes c ↦ elim (ℕ_discrete a.index b.index) [
    | no n ↦ inr (λ e. n (ap (λ (x : SlotId). x.index) e))
    | yes i ↦ inl (id-ext a b c i)
  ]
]

module _ (r : Registry) (a : SlotId) (all : AllValid r) (v : IsNode r a) where
  abbrev cs : CSpace
  cs = v.space

  pub write-Writes : (s : CapabilitySlot) → is_null s ≡ false → Writes r a s (write r a s)
  write-Writes s used =
      let k = a.cspace_id in
      let cs' : CSpace = write_slot cs a.index s in
      let (n, xs, valid, exact) = all k cs v.found in
      let out = FreeList-NotIn cs.slots cs.free_head xs a.index valid.free v.used in
      let own = update_self cs.slots a.index s in
      let other = λ (j : ℕ) (ne : j ≢ a.index). update_ne cs.slots a.index s j ne in
      let self = swap_self r k cs cs' v.found a refl ∙ own in
      let others = λ (b : SlotId) (ne : b ≢ a). swap-get r k cs cs' v.found a b refl other ne in
      let exact' : Exact cs' xs = λ i p h z apart. elim (ℕ_discrete i a.index) [
        | yes e ↦
            false≢true
              (sym used ∙ sym (ap is_null own) ∙ ap (λ j. is_null (cs'.slots j)) (sym e) ∙ z)
        | no e ↦ exact i p h (sym (ap is_null (other i e)) ∙ z) apart
      ] in
      subst (Writes r a s) (sym (write-found r a s cs v.found)) (record {
        all_valid =
            swap-AllValid r k cs cs' v.found all
              (n, xs, write_slot-Valid cs n xs a.index s v.pos out valid, exact');
        nodes = λ b w.
            swap-IsNode r k cs cs' v.found b (omega arith)
              (elim (SlotId-cases b a) [
                | inl e ↦
                    ap (λ x. is_null (get (swapped r k cs cs' v.found) x)) e
                    ∙ ap is_null self
                    ∙ used
                | inr ne ↦ ap is_null (others b ne) ∙ get-IsNode r b w
              ])
              w;
        self = self;
        others = others;
      })

  pub on_slot-write :
      (f : CapabilitySlot → CapabilitySlot) → on_slot r a f ≡ some (write r a (f (get r a)))
  unfolding on_slot
  on_slot-write f =
      ap
        (λ (o : Option (Option CapabilitySlot)). elim o [
          | none ↦ none
          | some none ↦ some r
          | some (some s) ↦ some (write r a (f s))
        ])
        (resolve_slot-IsNode r a all v)

  -- What giving back the slot keeps.
  pub record Drops (r' : Registry) : Type 0 where
    pub returns : free_node r a cs ≡ some r'
    pub all_valid : AllValid r'
    pub nodes : (b : SlotId) → b ≢ a → IsNode r b → IsNode r' b
    pub self : is_null (get r' a) ≡ true
    pub others : (b : SlotId) → b ≢ a → get r' b ≡ get r b

  free_node-run :
      (cs' : CSpace)
      → free_slot cs a.index ≡ Outcome.ok tt cs'
      → free_node r a cs ≡ some (update r a.cspace_id (some cs'))
  unfolding free_node
  free_node-run cs' e = rw (e, free_node) refl

  pub free_node-Drops : (r' : Registry) × Drops r'
  free_node-Drops =
      let k = a.cspace_id in
      let (n, xs, valid, exact) = all k cs v.found in
      let out = FreeList-NotIn cs.slots cs.free_head xs a.index valid.free v.used in
      let (cs', f) = free_slot-Frees cs n xs a.index valid v.pos v.in_use out in
      let others = λ (b : SlotId) (ne : b ≢ a). swap-get r k cs cs' v.found a b refl f.others ne in
      (
        swapped r k cs cs' v.found,
        record {
          returns = free_node-run cs' f.returns;
          all_valid =
              swap-AllValid r k cs cs' v.found all (n, (a.index ∷ xs), f.valid, f.exact exact);
          nodes = λ b ne w.
              swap-IsNode r k cs cs' v.found b (omega (arith, f.allocated))
                (ap is_null (others b ne) ∙ get-IsNode r b w) w;
          self = ap is_null (swap_self r k cs cs' v.found a refl) ∙ f.valid.free.2;
          others = others;
        },
      )
