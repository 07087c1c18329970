-- ===== src/Cap/Slot.antt =====
-- kernel/src/cap/slot.rs: the slot that holds a capability. A free slot holds the index of the next
-- free one in place of its parent. The padding is left out, and 0 is no object.
use seraph.Prelude.{ℕ, Bool, true, false, Option, none, some, ◌==◌, if◌then◌else◌}

pub data CapTag : Type 0 where
  null frame address_space endpoint signal event_queue interrupt mmio_region thread cspace wait_set
        io_port_range sched_control sbi_control :
      CapTag

pub record SlotId : Type 0 where
  pub cspace_id : ℕ
  pub index : ℕ

pub record CapabilitySlot : Type 0 where
  pub tag : CapTag
  pub rights : ℕ
  pub token : ℕ
  pub object : ℕ
  pub deriv_parent : Option SlotId
  pub deriv_first_child : Option SlotId
  pub deriv_next_sibling : Option SlotId
  pub deriv_prev_sibling : Option SlotId

abbrev pub null_slot : CapabilitySlot
null_slot = record {
  tag = CapTag.null;
  rights = 0;
  token = 0;
  object = 0;
  deriv_parent = none;
  deriv_first_child = none;
  deriv_next_sibling = none;
  deriv_prev_sibling = none;
}

abbrev pub is_null_tag : CapTag → Bool
is_null_tag CapTag.null = true
is_null_tag _ = false

abbrev pub is_null : CapabilitySlot → Bool
is_null s = is_null_tag s.tag

-- `None` is the panic on the index 0. Every field is written.
abbrev pub set_next_free : Option ℕ → Option CapabilitySlot
set_next_free none = some null_slot
set_next_free (some i) =
    if i == 0
    then none
    else some (record null_slot { deriv_parent = some (record { cspace_id = 0; index = i }) })

abbrev pub next_free : CapabilitySlot → Option ℕ
next_free s = elim s.deriv_parent [ none ↦ none | some id ↦ some id.index ]
