-- ===== src/Cap/Derive.antt =====
-- kernel/src/syscall/cap.rs, the system calls that make a capability from another: `sys_cap_derive`,
-- `sys_cap_derive_token`, `sys_cap_copy` and `sys_cap_insert`. `caller` is the number of the space of the
-- caller, the arguments are the 32-bit numbers the code takes them for, and `none` stands for a panic.
-- A space is found under its number, so that one that could not be registered is left out.
pub mod Put
pub mod Power
pub mod Mint
pub mod Calls
mod Examples
use seraph.Prelude.{
  ℕ, ◌+◌, ◌-◌, ◌%◌, ◌^◌, Bool, true, false, not, Option, none, some, ◌==◌, if◌then◌else◌, update,
  bit_and,
}
use seraph.Cap.Slot.{CapTag, SlotId, CapabilitySlot, is_null}
use seraph.Cap.Rights
use seraph.Cap.CSpace.{CSpace, CapError, Outcome, slot, write_slot, insert_cap, insert_cap_at}
use seraph.Cap.Lookup.{SyscallError, Lookup, lookup_cap}
use seraph.Cap.Derivation.{Registry, and_then, link_child}

-- The spaces, the counts of the objects, and the space that each object holds.
pub record Kernel : Type 0 where
  pub spaces : Registry
  pub ref_count : ℕ → ℕ
  pub cspace_of : ℕ → ℕ

pub data Answer : Type 0 where
  done : ℕ → Answer
  failed : SyscallError → Answer

-- The count wraps at 32 bits.
abbrev pub inc_ref : (ℕ → ℕ) → ℕ → ℕ → ℕ
inc_ref counts object = update counts object ((counts object + 1) % 2 ^ 32)

abbrev pub dec_ref : (ℕ → ℕ) → ℕ → ℕ → ℕ
dec_ref counts object = update counts object ((counts object + 2 ^ 32 - 1) % 2 ^ 32)

-- The source of a call: `some none` if there is no capability with an object.
pub read_source : CSpace → ℕ → Option (Option CapabilitySlot)
read_source cs src_idx = elim (slot cs src_idx) [
  | none ↦ none
  | some none ↦ some none
  | some (some s) ↦ some (if is_null s then none else if s.object == 0 then none else some s)
]

abbrev pub insert_error : CapError → SyscallError
insert_error CapError.wx_violation = SyscallError.wx_violation
insert_error _ = SyscallError.out_of_memory

abbrev pub insert_at_error : CapError → SyscallError
insert_at_error CapError.wx_violation = SyscallError.wx_violation
insert_at_error CapError.invalid_index = SyscallError.invalid_argument
insert_at_error _ = SyscallError.out_of_memory

abbrev pub inherited : ℕ → Option ℕ
inherited token = if token == 0 then none else some token

pub set_token : CSpace → ℕ → Option ℕ → Option CSpace
set_token cs new_idx none = some cs
set_token cs new_idx (some token) = elim (slot cs new_idx) [
  | none ↦ none
  | some none ↦ some cs
  | some (some s) ↦ some (write_slot cs new_idx (record s { token = token }))
]

-- What follows the insertion into the space `dest`: on success the new slot takes its token and
-- becomes a child of the source.
pub minted :
    Kernel
    → SlotId
    → ℕ
    → ℕ
    → Option ℕ
    → (CapError → SyscallError)
    → Outcome ℕ
    → Option (Answer × Kernel)
minted k parent dest object token to_error (Outcome.ok new_idx cs) =
    and_then (set_token cs new_idx token) (λ cs.
      and_then
        (link_child (update k.spaces dest (some cs)) parent
          (record { cspace_id = dest; index = new_idx }))
        (λ spaces.
          some
            (done new_idx, record k { spaces = spaces; ref_count = inc_ref k.ref_count object })))
minted k parent dest object token to_error (Outcome.err e cs) = some (
  failed (to_error e),
  record k {
    spaces = update k.spaces dest (some cs);
    ref_count = dec_ref (inc_ref k.ref_count object) object;
  },
)
minted k parent dest object token to_error Outcome.panic = none
minted k parent dest object token to_error Outcome.out_of_fuel = none

-- A call that works on a source in the space of the caller.
abbrev pub with_source :
    Kernel → ℕ → ℕ → (CSpace → CapabilitySlot → Option (Answer × Kernel)) → Option (Answer × Kernel)
with_source k caller src_idx f = elim (k.spaces caller) [
  | none ↦ some (failed SyscallError.invalid_capability, k)
  | some cs ↦ elim (read_source cs src_idx) [
    | none ↦ none
    | some none ↦ some (failed SyscallError.invalid_capability, k)
    | some (some s) ↦ f cs s
  ]
]

pub sys_cap_derive : Kernel → ℕ → ℕ → ℕ → Option (Answer × Kernel)
sys_cap_derive k caller src_idx rights_mask = with_source k caller src_idx (λ cs s.
    minted k (record { cspace_id = caller; index = src_idx }) caller s.object (inherited s.token)
      insert_error (insert_cap cs s.tag (bit_and rights_mask s.rights) s.object))

pub sys_cap_derive_token : Kernel → ℕ → ℕ → ℕ → ℕ → Option (Answer × Kernel)
sys_cap_derive_token k caller src_idx rights_mask token_value =
    if token_value == 0
    then some (failed SyscallError.invalid_argument, k)
    else with_source k caller src_idx (λ cs s.
      if not (s.token == 0)
      then some (failed SyscallError.invalid_argument, k)
      else minted k (record { cspace_id = caller; index = src_idx }) caller s.object
          (some token_value) insert_error
          (insert_cap cs s.tag (bit_and rights_mask s.rights) s.object))

-- The space that the capability in the slot `dest_cs_idx` of the caller gives the right to insert into.
abbrev pub with_dest :
    Kernel → CSpace → ℕ → (ℕ → CSpace → Option (Answer × Kernel)) → Option (Answer × Kernel)
with_dest k cs dest_cs_idx f = elim (lookup_cap (some cs) dest_cs_idx CapTag.cspace Rights.insert) [
  | Lookup.panic ↦ none
  | Lookup.failed e ↦ some (failed e, k)
  | Lookup.found d ↦
      if d.object == 0
      then some (failed SyscallError.invalid_capability, k)
      else and_then (k.spaces (k.cspace_of d.object)) (f (k.cspace_of d.object))
]

pub sys_cap_copy : Kernel → ℕ → ℕ → ℕ → ℕ → Option (Answer × Kernel)
sys_cap_copy k caller src_idx dest_cs_idx rights_mask = with_source k caller src_idx (λ cs s.
    with_dest k cs dest_cs_idx (λ dest dest_cs.
      minted k (record { cspace_id = caller; index = src_idx }) dest s.object (inherited s.token)
        insert_error (insert_cap dest_cs s.tag (bit_and rights_mask s.rights) s.object)))

-- An insertion at a given index, with the index as its result.
abbrev pub at_index : ℕ → Outcome (Unit {0}) → Outcome ℕ
at_index index (Outcome.ok _ cs) = Outcome.ok index cs
at_index index (Outcome.err e cs) = Outcome.err e cs
at_index index Outcome.panic = Outcome.panic
at_index index Outcome.out_of_fuel = Outcome.out_of_fuel

-- The call answers with 0.
abbrev pub answer_zero : Option (Answer × Kernel) → Option (Answer × Kernel)
answer_zero none = none
answer_zero (some (done _, k)) = some (done 0, k)
answer_zero (some (failed e, k)) = some (failed e, k)

pub sys_cap_insert : ℕ → Kernel → ℕ → ℕ → ℕ → ℕ → ℕ → Option (Answer × Kernel)
sys_cap_insert fuel k caller src_idx dest_cs_idx dest_slot_idx rights_mask =
    with_source k caller src_idx (λ cs s. with_dest k cs dest_cs_idx (λ dest dest_cs. answer_zero (
      minted k (record { cspace_id = caller; index = src_idx }) dest s.object (inherited s.token)
        insert_at_error
        (at_index dest_slot_idx (
          insert_cap_at fuel dest_cs dest_slot_idx s.tag (bit_and rights_mask s.rights)
            s.object)))))
