-- ===== src/Cap/CSpace.antt =====
-- kernel/src/cap/cspace.rs: the capability space, a directory of 256 pages of 64 slots with a free
-- list through the slots. The slot `s` of the page `p` is `slots (p * 64 + s)`, and `directory p`
-- says whether the page is there. The lock is left out.
pub mod Free
pub mod Grow
pub mod Allocate
pub mod Unlink
pub mod Insert
pub mod Reach
pub mod Place
pub mod Prewarm
pub mod Count
pub mod Fresh
mod Examples
use seraph.Prelude.{
  ℕ, zero, suc, ◌+◌, ◌-◌, ◌*◌, ◌/◌, ◌%◌, ◌^◌, min, Bool, true, false, not, Option, none, some, List,
  [], ◌∷◌, ◌==◌, ltb, leb, if◌then◌else◌, update,
}
use seraph.Cap.Slot.{CapTag, CapabilitySlot, null_slot, is_null, set_next_free, next_free}

abbrev pub l2_size : ℕ
l2_size = 64

abbrev pub l1_size : ℕ
l1_size = 256

pub data CapError : Type 0 where
  out_of_slots out_of_memory invalid_index wx_violation : CapError

pub record CSpace : Type 0 where
  pub id : ℕ
  pub directory : ℕ → Bool
  pub slots : ℕ → CapabilitySlot
  pub allocated_slots : ℕ
  pub max_slots : ℕ
  pub free_head : Option ℕ
  pub free_count : ℕ

-- What a method on `&mut self` does: it returns, or panics, or a loop in it has more rounds than
-- the fuel it was given. An error leaves a state too.
pub data Outcome {ℓ} (A : Type ℓ) : Type ℓ where
  ok : A → CSpace → Outcome A
  err : CapError → CSpace → Outcome A
  panic : Outcome A
  out_of_fuel : Outcome A

-- The operator `?`.
abbrev pub and_then {ℓ κ} :
    {A : Type ℓ} {B : Type κ} → Outcome A → (A → CSpace → Outcome B) → Outcome B
and_then (ok a cs) f = f a cs
and_then (err e cs) f = err e cs
and_then panic f = panic
and_then out_of_fuel f = out_of_fuel

abbrev pub ok_or {ℓ} : {A : Type ℓ} → Option A → CapError → CSpace → Outcome A
ok_or none e cs = err e cs
ok_or (some a) e cs = ok a cs

pub new : ℕ → ℕ → CSpace
new id max_slots = record {
  id = id;
  directory = λ _. false;
  slots = λ _. null_slot;
  allocated_slots = 0;
  max_slots = max_slots;
  free_head = none;
  free_count = 0;
}

-- `None` is the panic on a page index outside the directory.
unfoldable pub slot : CSpace → ℕ → Option (Option CapabilitySlot)
slot cs index =
    if ltb (index / l2_size) l1_size
    then some (if cs.directory (index / l2_size) then some (cs.slots index) else none)
    else none

abbrev pub write_slot : CSpace → ℕ → CapabilitySlot → CSpace
write_slot cs index s = record cs { slots = update cs.slots index s }

-- The first of the `n` entries from `p` on that holds no page.
pub position : (ℕ → Bool) → ℕ → ℕ → Option ℕ
position directory p zero = none
position directory p (suc n) =
    let rest = position directory (p + 1) n in if directory p then rest else some p

-- The loop of `grow` over the `n` slots from `first` on, the last one first: each is linked to the
-- one after it, the last one to `next`. The index is below 16384, so that `as u32` keeps it.
pub thread : (ℕ → CapabilitySlot) → ℕ → ℕ → Option ℕ → Option ((ℕ → CapabilitySlot) × Option ℕ)
thread slots first zero next = some (slots, next)
thread slots first (suc n) next = elim (set_next_free next) [
  | none ↦ none
  | some s ↦ thread (update slots (first + n) s) first n (some (first + n))
]

-- A page of null slots.
abbrev pub zeroed : (ℕ → CapabilitySlot) → ℕ → ℕ → CapabilitySlot
zeroed slots page i = if i / l2_size == page then null_slot else slots i

abbrev pub new_free_slots : CSpace → ℕ → ℕ
new_free_slots cs page =
    min (l2_size - (if page == 0 then 1 else 0)) (cs.max_slots - cs.allocated_slots)

pub grow : CSpace → Outcome (Unit {0})
grow cs = elim (position cs.directory 0 l1_size) [
  | none ↦ err out_of_slots cs
  | some page ↦
      let start_slot = if page == 0 then 1 else 0 in
      let new_free = new_free_slots cs page in
      if new_free == 0
      then err out_of_slots cs
      else elim (thread (zeroed cs.slots page) (page * l2_size + start_slot) new_free
          cs.free_head) [
            | none ↦ panic
            | some (slots, next) ↦ ok tt (record cs {
              slots = slots;
              free_head = next;
              allocated_slots = cs.allocated_slots + new_free;
              free_count = (cs.free_count + new_free) % 2 ^ 64;
              directory = update cs.directory page true;
            })
          ]
]

-- The rest of `allocate_slot` once the free list has been filled.
pub pop_free : CSpace → Outcome ℕ
pop_free cs = and_then (ok_or cs.free_head out_of_slots cs) (λ idx cs. elim (slot cs idx) [
  | none ↦ panic
  | some o ↦ and_then (ok_or o invalid_index cs) (λ s cs.
      ok idx (record (write_slot cs idx null_slot) {
        free_head = next_free s;
        free_count = (cs.free_count + 2 ^ 64 - 1) % 2 ^ 64;
      }))
])

pub allocate_slot : CSpace → Outcome ℕ
allocate_slot cs = elim cs.free_head [
  | none ↦ and_then (grow cs) (λ _ cs. pop_free cs)
  | some idx ↦ pop_free cs
]

pub free_slot : CSpace → ℕ → Outcome (Unit {0})
free_slot cs index = elim (slot cs index) [
  | none ↦ panic
  | some none ↦ ok tt cs
  | some (some _) ↦ elim (set_next_free cs.free_head) [
    | none ↦ panic
    | some s ↦ ok tt (record (write_slot cs index s) {
      free_head = some index;
      free_count = (cs.free_count + 1) % 2 ^ 64;
    })
  ]
]

abbrev pub capability : CapTag → ℕ → ℕ → CapabilitySlot
capability tag rights object = record null_slot { tag = tag; rights = rights; object = object }

-- The slot at an index is filled.
pub populate : CSpace → ℕ → CapabilitySlot → Outcome (Unit {0})
populate cs index s = elim (slot cs index) [
  | none ↦ panic
  | some o ↦ and_then (ok_or o invalid_index cs) (λ _ cs. ok tt (write_slot cs index s))
]

pub insert_cap : CSpace → CapTag → ℕ → ℕ → Outcome ℕ
insert_cap cs tag rights object =
    and_then (allocate_slot cs) (λ index cs.
      and_then (populate cs index (capability tag rights object)) (λ _ cs. ok index cs))

pub pre_allocate : ℕ → CSpace → ℕ → Outcome (Unit {0})
pre_allocate zero cs min_free = out_of_fuel
pre_allocate (suc fuel) cs min_free =
    let rest = and_then (grow cs) (λ _ cs. pre_allocate fuel cs min_free) in
    if ltb cs.free_count min_free then rest else ok tt cs

-- `self.slot(i).and_then(next_free)`.
pub next_of : CSpace → ℕ → Option (Option ℕ)
next_of cs i = elim (slot cs i) [
  | none ↦ none
  | some none ↦ some none
  | some (some s) ↦ some (next_free s)
]

-- The loop of `remove_from_free_list`.
pub unlink_free : ℕ → CSpace → ℕ → ℕ → Outcome Bool
unlink_free zero cs cur target = out_of_fuel
unlink_free (suc fuel) cs cur target = elim (next_of cs cur) [
  | none ↦ panic
  | some none ↦ ok false cs
  | some (some next) ↦
      let rest = unlink_free fuel cs next target in
      let splice : Outcome Bool = elim (next_of cs target) [
        | none ↦ panic
        | some after ↦ elim (set_next_free after) [
          | none ↦ panic
          | some s ↦
              ok true (record (write_slot cs cur s) {
                free_count = (cs.free_count + 2 ^ 64 - 1) % 2 ^ 64;
              })
        ]
      ] in
      if next == target then splice else rest
]

pub remove_from_free_list : ℕ → CSpace → ℕ → Outcome Bool
remove_from_free_list fuel cs target = elim cs.free_head [
  | none ↦ ok false cs
  | some head ↦
      let popped : Outcome Bool = elim (next_of cs target) [
        | none ↦ panic
        | some next ↦
            ok true
              (record cs { free_head = next; free_count = (cs.free_count + 2 ^ 64 - 1) % 2 ^ 64 })
      ] in
      let walked = unlink_free fuel cs head target in if head == target then popped else walked
]

-- The loop of `insert_cap_at` that grows up to a page.
pub grow_to : ℕ → CSpace → ℕ → Outcome (Unit {0})
grow_to zero cs page = out_of_fuel
grow_to (suc fuel) cs page =
    let rest = and_then (grow cs) (λ _ cs. grow_to fuel cs page) in
    if not (ltb page l1_size) then panic else if cs.directory page then ok tt cs else rest

pub insert_cap_at : ℕ → CSpace → ℕ → CapTag → ℕ → ℕ → Outcome (Unit {0})
insert_cap_at fuel cs index tag rights object =
    if index == 0
    then err invalid_index cs
    else if leb cs.max_slots index
    then err invalid_index cs
    else and_then (grow_to fuel cs (index / l2_size)) (λ _ cs. elim (slot cs index) [
      | none ↦ panic
      | some o ↦ and_then (ok_or o invalid_index cs) (λ s cs.
          if not (is_null s)
          then err invalid_index cs
          else and_then (remove_from_free_list fuel cs index)
              (λ _ cs. populate cs index (capability tag rights object)))
    ])

pub populated_count : CSpace → ℕ
populated_count cs = (cs.allocated_slots + 2 ^ 64 - cs.free_count) % 2 ^ 64

-- The objects that `for_each_object` calls its function on, in order: those of the `n` slots from
-- `i` on. Slot 0 and the slots of a page that is not there are passed over.
pub objects_from : CSpace → ℕ → ℕ → List ℕ
objects_from cs i zero = []
objects_from cs i (suc n) =
    let rest = objects_from cs (i + 1) n in
    if cs.directory (i / l2_size)
    then if is_null (cs.slots i)
      then rest
      else if (cs.slots i).object == 0
      then rest
      else ((cs.slots i).object ∷ rest)
    else rest

pub for_each_object : CSpace → List ℕ
for_each_object cs = objects_from cs 1 (l1_size * l2_size - 1)
