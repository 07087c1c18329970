-- ===== src/Cap/Lookup/Examples.antt =====
-- Lookups at a small input: the theorem applied.
use seraph.Prelude.{
  ℕ, ◌/◌, ◌<◌, ◌≤◌, ◌≡◌, ◌≢◌, ◌⊎◌, true, false, bit_and, refl, ◌==◌, if◌then◌else◌, some, none,
}
use seraph.Prelude.Bits.{bit}
use seraph.Cap.Slot.{CapTag, null_slot}
use seraph.Cap.Rights
use seraph.Cap.CSpace.{CSpace, slot, capability}
use seraph.Cap.Lookup.{found, failed, panic, SyscallError, lookup_cap, lookup_cap-cases}

-- An endpoint that may be called stands at 5.
abbrev caller : CSpace
caller = record {
  id = 1;
  directory = λ p. p == 0;
  slots = λ i. if i == 5 then capability CapTag.endpoint Rights.send 4096 else null_slot;
  allocated_slots = 63;
  max_slots = 256;
  free_head = none;
  free_count = 0;
}

run_found : lookup_cap (some caller) 5 CapTag.endpoint Rights.send ≡ found (caller.slots 5)
unfolding lookup_cap slot
run_found = refl

run_receive :
    lookup_cap (some caller) 5 CapTag.endpoint Rights.receive
    ≡ failed SyscallError.insufficient_rights
unfolding lookup_cap slot
run_receive = refl

lookup_example :
    (16384 ≤ 5) × (lookup_cap (some caller) 5 CapTag.endpoint Rights.send ≡ panic)
    ⊎ (5 < 16384)
      × ((caller.directory (5 / 64) ≡ false) ⊎ ((caller.slots 5).tag ≢ CapTag.endpoint))
      × (lookup_cap (some caller) 5 CapTag.endpoint Rights.send
          ≡ failed SyscallError.invalid_capability)
    ⊎ (5 < 16384)
      × (caller.directory (5 / 64) ≡ true)
      × ((caller.slots 5).tag ≡ CapTag.endpoint)
      × (bit_and (caller.slots 5).rights Rights.send ≢ Rights.send)
      × (lookup_cap (some caller) 5 CapTag.endpoint Rights.send
          ≡ failed SyscallError.insufficient_rights)
    ⊎ (5 < 16384)
      × (caller.directory (5 / 64) ≡ true)
      × ((caller.slots 5).tag ≡ CapTag.endpoint)
      × ((i : ℕ) → bit Rights.send i ≡ true → bit (caller.slots 5).rights i ≡ true)
      × (lookup_cap (some caller) 5 CapTag.endpoint Rights.send ≡ found (caller.slots 5))
lookup_example = lookup_cap-cases caller 5 CapTag.endpoint Rights.send
