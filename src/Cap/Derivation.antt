-- ===== src/Cap/Derivation.antt =====
-- kernel/src/cap/derivation.rs, with the registry of capability spaces of kernel/src/cap/mod.rs: the
-- tree of capabilities derived from each other. `none` stands for a panic, or for a loop that has
-- more rounds than its fuel. The lock is left out.
pub mod Nodes
pub mod Forest
pub mod Revoke
pub mod Change
pub mod Children
pub mod Link
pub mod Attach
pub mod Splice
pub mod Joined
pub mod Detach
pub mod Moves
pub mod Reparent
use seraph.Prelude.{
  ℕ, zero, suc, Bool, true, false, Option, none, some, List, [], ◌∷◌, ◌++◌, ◌==◌, ltb,
  if◌then◌else◌, update,
}
use seraph.Cap.Slot.{SlotId, CapabilitySlot}
use seraph.Cap.CSpace.{CSpace, slot, write_slot, free_slot, ok, err, Outcome}

abbrev pub max_cspaces : ℕ
max_cspaces = 4096

-- The space that is registered under each number.
abbrev pub Registry : Type 0
Registry = ℕ → Option CSpace

abbrev pub register_cspace : Registry → ℕ → CSpace → Registry
register_cspace r id cs = if ltb id max_cspaces then update r id (some cs) else r

abbrev pub unregister_cspace : Registry → ℕ → Registry
unregister_cspace r id = if ltb id max_cspaces then update r id none else r

abbrev pub lookup_cspace : Registry → ℕ → Option CSpace
lookup_cspace r id = if ltb id max_cspaces then r id else none

pub resolve_slot : Registry → SlotId → Option (Option CapabilitySlot)
resolve_slot r id = elim (lookup_cspace r id.cspace_id) [
  | none ↦ some none
  | some cs ↦ slot cs id.index
]

-- A write through the reference that `resolve_slot_mut` gives.
abbrev pub write : Registry → SlotId → CapabilitySlot → Registry
write r id s = elim (lookup_cspace r id.cspace_id) [
  | none ↦ r
  | some cs ↦ update r id.cspace_id (some (write_slot cs id.index s))
]

-- `if let Some(slot) = resolve_slot_mut(id) { … }`, for a block that writes the slot.
pub on_slot : Registry → SlotId → (CapabilitySlot → CapabilitySlot) → Option Registry
on_slot r id f = elim (resolve_slot r id) [
  | none ↦ none
  | some none ↦ some r
  | some (some s) ↦ some (write r id (f s))
]

-- The same for a link that may be absent.
pub on_link : Registry → Option SlotId → (CapabilitySlot → CapabilitySlot) → Option Registry
on_link r none f = some r
on_link r (some id) f = on_slot r id f

abbrev pub and_then {ℓ κ} : {A : Type ℓ} {B : Type κ} → Option A → (A → Option B) → Option B
and_then none f = none
and_then (some a) f = f a

abbrev pub first_child_of : Option CapabilitySlot → Option SlotId
first_child_of none = none
first_child_of (some s) = s.deriv_first_child

abbrev pub next_sibling_of : Option CapabilitySlot → Option SlotId
next_sibling_of none = none
next_sibling_of (some s) = s.deriv_next_sibling

-- What `link_child` does once the child has its parent.
pub link_first : Registry → SlotId → SlotId → Option Registry
link_first r parent child = and_then (resolve_slot r parent) (λ p.
    let old_first = first_child_of p in
    and_then (on_slot r parent (λ s. record s { deriv_first_child = some child })) (λ r.
      and_then (on_link r old_first (λ s. record s { deriv_prev_sibling = some child }))
        (λ r. on_slot r child (λ s. record s { deriv_next_sibling = old_first }))))

pub link_child : Registry → SlotId → SlotId → Option Registry
link_child r parent child = elim (resolve_slot r child) [
  | none ↦ none
  | some none ↦ some r
  | some (some c) ↦
      link_first
        (write r child (record c { deriv_parent = some parent; deriv_prev_sibling = none })) parent
        child
]

-- The splice around a node: its neighbours, or its parent if it comes first.
pub splice : Registry → Option SlotId → Option SlotId → Option SlotId → Option Registry
splice r parent prev next =
    and_then
      (elim prev [
        | none ↦ on_link r parent (λ s. record s { deriv_first_child = next })
        | some id ↦ on_slot r id (λ s. record s { deriv_next_sibling = next })
      ])
      (λ r. on_link r next (λ s. record s { deriv_prev_sibling = prev }))

pub unlink_node : Registry → SlotId → Option Registry
unlink_node r node = elim (resolve_slot r node) [
  | none ↦ none
  | some none ↦ some r
  | some (some s) ↦
      splice
        (write r node
          (record s { deriv_parent = none; deriv_prev_sibling = none; deriv_next_sibling = none }))
        s.deriv_parent s.deriv_prev_sibling s.deriv_next_sibling
]

-- A child moved to the new parent, or made a root.
pub adopt : Registry → Option SlotId → SlotId → Option Registry
adopt r none child =
    on_slot r child
      (λ s. record s { deriv_parent = none; deriv_prev_sibling = none; deriv_next_sibling = none })
adopt r (some parent) child = link_child r parent child

-- The loop of `reparent_children`.
pub reparent_from : ℕ → Registry → Option SlotId → Option SlotId → Option Registry
reparent_from fuel r none new_parent = some r
reparent_from zero r (some child) new_parent = none
reparent_from (suc fuel) r (some child) new_parent = and_then (resolve_slot r child) (λ c.
    and_then (on_slot r child (λ s. record s { deriv_parent = new_parent })) (λ r.
      and_then (adopt r new_parent child)
        (λ r. reparent_from fuel r (next_sibling_of c) new_parent)))

pub reparent_children : ℕ → Registry → SlotId → Option SlotId → Option Registry
reparent_children fuel r node new_parent = elim (resolve_slot r node) [
  | none ↦ none
  | some none ↦ some r
  | some (some s) ↦
      reparent_from fuel (write r node (record s { deriv_first_child = none })) s.deriv_first_child
        new_parent
]

-- A child list pushed on the work stack, whose top comes first.
pub push_children : ℕ → Registry → Option SlotId → List SlotId → Option (List SlotId)
push_children fuel r none stack = some stack
push_children zero r (some id) stack = none
push_children (suc fuel) r (some id) stack =
    and_then (resolve_slot r id) (λ s. push_children fuel r (next_sibling_of s) (id ∷ stack))

abbrev pub push_object : List ℕ → ℕ → List ℕ
push_object to_dealloc object = if object == 0 then to_dealloc else (to_dealloc ++ object ∷ [])

-- The slot of a node back on the free list of its space.
pub free_node : Registry → SlotId → CSpace → Option Registry
free_node r id cs = elim (free_slot cs id.index) [
  | Outcome.ok _ cs ↦ some (update r id.cspace_id (some cs))
  | Outcome.err e cs ↦ some (update r id.cspace_id (some cs))
  | Outcome.panic ↦ none
  | Outcome.out_of_fuel ↦ none
]

-- The loop over the work stack.
pub revoke_from : ℕ → Registry → List SlotId → List ℕ → Option (List ℕ × Registry)
revoke_from fuel r [] to_dealloc = some (to_dealloc, r)
revoke_from zero r (id ∷ stack) to_dealloc = none
revoke_from (suc fuel) r (id ∷ stack) to_dealloc = elim (lookup_cspace r id.cspace_id) [
  | none ↦ revoke_from fuel r stack to_dealloc
  | some cs ↦ elim (slot cs id.index) [
    | none ↦ none
    | some none ↦ revoke_from fuel r stack to_dealloc
    | some (some s) ↦ and_then (free_node r id cs) (λ r.
        and_then (push_children fuel r s.deriv_first_child stack)
          (λ stack. revoke_from fuel r stack (push_object to_dealloc s.object)))
  ]
]

pub revoke_subtree : ℕ → Registry → SlotId → Option (List ℕ × Registry)
revoke_subtree fuel r root = elim (resolve_slot r root) [
  | none ↦ none
  | some none ↦ some ([], r)
  | some (some s) ↦
      let r = write r root (record s { deriv_first_child = none }) in
      and_then (push_children fuel r s.deriv_first_child []) (λ stack. revoke_from fuel r stack [])
]
