-- ===== src/Cap/Lookup.antt =====
-- kernel/src/syscall/mod.rs, `lookup_cap`: the capability that a system call names by its index in
-- the space of the caller. 0 is no space.
mod Examples
use native.Mathlib.Decide.{dec_lt}
use seraph.Prelude.{
  ℕ, ◌+◌, ◌*◌, ◌/◌, ◌≤◌, ◌<◌, ◌≡◌, ◌⊎◌, inl, inr, refl, ◌∙◌, ap, Bool, true, false, not, Option,
  none, some, arith, ◌==◌, if◌then◌else◌, if-true, if-false, ltb, lt→ltb, Bool-cases, ◌≢◌, sym,
  ==_iff, ==_refl, false≢true, ◌&&◌, bit_and,
}
use seraph.Prelude.Bits.{bit, bit-bit_and}
use seraph.Cap.Rights.{contains}
use seraph.Cap.Slot.{CapTag, CapabilitySlot}
use seraph.Cap.CSpace.{CSpace, slot}

-- abi/syscall/src/lib.rs
pub data SyscallError : Type 0 where
  unknown_syscall invalid_capability insufficient_rights invalid_address invalid_argument
        would_block object_gone out_of_memory not_supported wx_violation msg_too_large deadlock
        queue_full dma_unsafe invalid_state interrupted :
      SyscallError

pub data Lookup : Type 0 where
  found : CapabilitySlot → Lookup
  failed : SyscallError → Lookup
  panic : Lookup

abbrev tag_number : CapTag → ℕ
tag_number CapTag.null = 0
tag_number CapTag.frame = 1
tag_number CapTag.address_space = 2
tag_number CapTag.endpoint = 3
tag_number CapTag.signal = 4
tag_number CapTag.event_queue = 5
tag_number CapTag.interrupt = 6
tag_number CapTag.mmio_region = 7
tag_number CapTag.thread = 8
tag_number CapTag.cspace = 9
tag_number CapTag.wait_set = 10
tag_number CapTag.io_port_range = 11
tag_number CapTag.sched_control = 12
tag_number CapTag.sbi_control = 13

abbrev pub same_tag : CapTag → CapTag → Bool
same_tag a b = tag_number a == tag_number b

unfoldable pub lookup_cap : Option CSpace → ℕ → CapTag → ℕ → Lookup
lookup_cap none index expected_tag required_rights = failed invalid_capability
lookup_cap (some cs) index expected_tag required_rights = elim (slot cs index) [
  | none ↦ panic
  | some none ↦ failed invalid_capability
  | some (some s) ↦
      if not (same_tag s.tag expected_tag)
      then failed invalid_capability
      else if not (contains s.rights required_rights)
      then failed insufficient_rights
      else found s
]

-- The number names the tag.
abbrev tag_of : ℕ → CapTag
tag_of n =
    if n == 0
    then CapTag.null
    else if n == 1
    then CapTag.frame
    else if n == 2
    then CapTag.address_space
    else if n == 3
    then CapTag.endpoint
    else if n == 4
    then CapTag.signal
    else if n == 5
    then CapTag.event_queue
    else if n == 6
    then CapTag.interrupt
    else if n == 7
    then CapTag.mmio_region
    else if n == 8
    then CapTag.thread
    else if n == 9
    then CapTag.cspace
    else if n == 10
    then CapTag.wait_set
    else if n == 11
    then CapTag.io_port_range
    else if n == 12
    then CapTag.sched_control
    else CapTag.sbi_control

tag_of-tag_number : (t : CapTag) → tag_of (tag_number t) ≡ t
tag_of-tag_number CapTag.null = refl
tag_of-tag_number CapTag.frame = refl
tag_of-tag_number CapTag.address_space = refl
tag_of-tag_number CapTag.endpoint = refl
tag_of-tag_number CapTag.signal = refl
tag_of-tag_number CapTag.event_queue = refl
tag_of-tag_number CapTag.interrupt = refl
tag_of-tag_number CapTag.mmio_region = refl
tag_of-tag_number CapTag.thread = refl
tag_of-tag_number CapTag.cspace = refl
tag_of-tag_number CapTag.wait_set = refl
tag_of-tag_number CapTag.io_port_range = refl
tag_of-tag_number CapTag.sched_control = refl
tag_of-tag_number CapTag.sbi_control = refl

same_tag-true : (a b : CapTag) → same_tag a b ≡ true → a ≡ b
same_tag-true a b e =
    sym (tag_of-tag_number a)
    ∙ ap tag_of ((==_iff (tag_number a) (tag_number b)).0 e)
    ∙ tag_of-tag_number b

same_tag-false : (a b : CapTag) → same_tag a b ≡ false → a ≢ b
same_tag-false a b e q =
    false≢true (sym e ∙ ap (λ t. tag_number t == tag_number b) q ∙ ==_refl (tag_number b))

contains-bits :
    (rights mask : ℕ)
    → contains rights mask ≡ true
    → (i : ℕ) → bit mask i ≡ true
    → bit rights i ≡ true
contains-bits rights mask e i b = left (bit rights i) (bit mask i) (
    sym (bit-bit_and rights mask i)
    ∙ ap (λ m. bit m i) ((==_iff (bit_and rights mask) mask).0 e)
    ∙ b)
  where
    left : (x y : Bool) → (x && y) ≡ true → x ≡ true
    left true y e = refl
    left false y e = e

contains-not : (rights mask : ℕ) → contains rights mask ≡ false → bit_and rights mask ≢ mask
contains-not rights mask e q = false≢true (sym e ∙ (==_iff (bit_and rights mask) mask).1 q)

slot-panic : (cs : CSpace) (index : ℕ) → 16384 ≤ index → slot cs index ≡ none
unfolding slot
slot-panic cs index h = if-false _ _ (ltb (index / 64) 256) (not_lt (index / 64) 256 (omega arith))
  where
    not_lt : (a b : ℕ) → b ≤ a → ltb a b ≡ false
    not_lt a b h = ground arith

slot-there :
    (cs : CSpace) (index : ℕ)
    → index < 16384
    → slot cs index ≡ some (if cs.directory (index / 64) then some (cs.slots index) else none)
unfolding slot
slot-there cs index h = if-true _ _ (ltb (index / 64) 256) (lt→ltb (index / 64) 256 (omega arith))

module _ (cs : CSpace) (index : ℕ) (tag : CapTag) (rights : ℕ) where
  -- A lookup in a slot.
  abbrev checked : Option (Option CapabilitySlot) → Lookup
  checked none = panic
  checked (some none) = failed invalid_capability
  checked (some (some s)) =
      if not (same_tag s.tag tag)
      then failed invalid_capability
      else if not (contains s.rights rights)
      then failed insufficient_rights
      else found s

  lookup-checked :
      (o : Option (Option CapabilitySlot))
      → slot cs index ≡ o
      → lookup_cap (some cs) index tag rights ≡ checked o
  unfolding lookup_cap
  lookup-checked none e = rw (e, lookup_cap) refl
  lookup-checked (some none) e = rw (e, lookup_cap) refl
  lookup-checked (some (some s)) e = rw (e, lookup_cap) refl

  -- `lookup_cap`, by its cases: an index from 16384 on panics, whatever the space; below that, a
  -- capability is found just if its page is there, its tag is the expected one, and all rights that
  -- are required are among its own, and the error says which of these fails.
  pub lookup_cap-cases :
      (16384 ≤ index) × (lookup_cap (some cs) index tag rights ≡ panic)
      ⊎ (index < 16384)
        × ((cs.directory (index / 64) ≡ false) ⊎ ((cs.slots index).tag ≢ tag))
        × (lookup_cap (some cs) index tag rights ≡ failed invalid_capability)
      ⊎ (index < 16384)
        × (cs.directory (index / 64) ≡ true)
        × ((cs.slots index).tag ≡ tag)
        × (bit_and (cs.slots index).rights rights ≢ rights)
        × (lookup_cap (some cs) index tag rights ≡ failed insufficient_rights)
      ⊎ (index < 16384)
        × (cs.directory (index / 64) ≡ true)
        × ((cs.slots index).tag ≡ tag)
        × ((i : ℕ) → bit rights i ≡ true → bit (cs.slots index).rights i ≡ true)
        × (lookup_cap (some cs) index tag rights ≡ found (cs.slots index))
  lookup_cap-cases = elim (dec_lt index 16384) [
    | no h ↦
        let far : 16384 ≤ index = omega arith in
        inl (far, lookup-checked none (slot-panic cs index far))
    | yes h ↦ inr (elim (Bool-cases (cs.directory (index / 64))) [
      | inr e ↦ inl (
        h,
        inl e,
        lookup-checked (some none) (slot-there cs index h ∙ ap some (if-false _ _ _ e)),
      )
      | inl e ↦
          let s = cs.slots index in
          let at =
            lookup-checked (some (some s)) (slot-there cs index h ∙ ap some (if-true _ _ _ e)) in
          elim (Bool-cases (same_tag s.tag tag)) [
            | inr t ↦ inl (h, inr (same_tag-false s.tag tag t), at ∙ if-true _ _ _ (ap not t))
            | inl t ↦
                let same = same_tag-true s.tag tag t in
                inr (elim (Bool-cases (contains s.rights rights)) [
                  | inr r ↦ inl (
                    h,
                    e,
                    same,
                    contains-not s.rights rights r,
                    at ∙ if-false _ _ _ (ap not t) ∙ if-true _ _ _ (ap not r),
                  )
                  | inl r ↦ inr (
                    h,
                    e,
                    same,
                    contains-bits s.rights rights r,
                    at ∙ if-false _ _ _ (ap not t) ∙ if-false _ _ _ (ap not r),
                  )
                ])
          ]
    ])
  ]
