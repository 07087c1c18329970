-- ===== src/Cap/Derive/Calls.antt =====
-- `sys_cap_derive` and `sys_cap_copy`.
use seraph.Prelude.{ℕ, ◌≡◌, ◌≢◌, true, List, bit_and}
use seraph.Prelude.Bits.{bit}
use seraph.Cap.Slot.{SlotId, CapabilitySlot}
use seraph.Cap.Rights
use seraph.Cap.CSpace.{CSpace}
use seraph.Cap.Lookup.{Lookup}
use seraph.Cap.Derivation.Nodes.{get, IsNode, AllValid}
use seraph.Cap.Derivation.Children.{Children}
use seraph.Cap.Derive.{Kernel}
use seraph.Cap.Derive.Mint.{Mints}

-- What deriving a capability in the slot `child` leaves: its rights are those that both the mask and
-- the source have.
pub record Derives (k : Kernel) (src child : SlotId) (xs : List SlotId) (mask : ℕ) (k' : Kernel)
    : Type 0 where
  pub mints :
      Mints k src child xs
        (get k.spaces src).tag
        (bit_and mask (get k.spaces src).rights)
        (get k.spaces src).token
        (get k.spaces src).object
        k'
  pub within :
      (i : ℕ)
      → bit (get k'.spaces child).rights i ≡ true
      → (bit mask i ≡ true) × (bit (get k.spaces src).rights i ≡ true)

module _ (k : Kernel) (src : SlotId) (mask : ℕ) (xs : List SlotId) (all : AllValid k.spaces)
    (vs : IsNode k.spaces src) (object : (get k.spaces src).object ≢ 0) where
  abbrev s : CapabilitySlot
  s = get k.spaces src
