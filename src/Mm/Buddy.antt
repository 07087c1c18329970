-- ===== src/Mm/Buddy.antt =====
-- kernel/src/mm/buddy.rs, `BuddyAllocator`: free blocks of 2^order pages in singly linked lists, one
-- for each order, whose nodes are slots of a fixed pool. An array is a map from its indices. Slot 0
-- is `NONE`. A method that can fail to return is an `Option`, and `none` stands for that: the spin
-- loop on an exhausted pool, or the panic of an order out of range. The debug assertions are left
-- out; `usize` and `u64` sums and differences wrap as in a release build.
pub mod Places
pub mod Blocks
pub mod Push
pub mod Take
pub mod Remove
pub mod Cover
pub mod Split
pub mod Alloc
pub mod Merge
pub mod Release
pub mod Drain
pub mod Region
mod Examples
use seraph.Prelude.{
  ℕ, zero, suc, ◌+◌, ◌-◌, ◌*◌, ◌/◌, ◌%◌, ◌^◌, min, Bool, true, false, not, ◌&&◌, Option, none, some,
  List, [], ◌∷◌, ◌++◌, ◌==◌, ltb, leb, if◌then◌else◌, update, length, bit_xor,
}
use seraph.Prelude.Chain.{Links}

abbrev pub page_size : ℕ
page_size = 4096

abbrev pub max_order : ℕ
max_order = 10

abbrev pub order_count : ℕ
order_count = 11

abbrev pub pool_size : ℕ
pool_size = 4096

pub record Buddy : Type 0 where
  pub addrs : ℕ → ℕ
  pub nexts : Links
  pub free_lists : ℕ → ℕ
  pub pool_head : ℕ
  pub pool_init : Bool
  pub free_pages : ℕ
  pub total_pages : ℕ

pub new : Buddy
new = record {
  addrs = λ _. 0;
  nexts = λ _. 0;
  free_lists = λ _. 0;
  pool_head = 0;
  pool_init = false;
  free_pages = 0;
  total_pages = 0;
}

-- `for i in 1..n + 1 { nexts[i] = (i + 1) as u16 }`
pub link_slots : ℕ → Links → Links
link_slots zero nexts = nexts
link_slots (suc n) nexts = update (link_slots n nexts) (suc n) ((n + 2) % 2 ^ 16)

-- The chain of all slots, `1 → 2 → … → POOL_SIZE → NONE`.
pub set_up : Buddy → Buddy
set_up b = record b {
  nexts = update (link_slots (pool_size - 1) b.nexts) pool_size 0;
  pool_head = 1;
  pool_init = true;
}

pub init_pool : Buddy → Buddy
init_pool b = if b.pool_init then b else set_up b

pub pool_alloc : Buddy → Option (ℕ × Buddy)
pool_alloc b =
    if b.pool_head == 0
    then none
    else some (b.pool_head, record b { pool_head = b.nexts b.pool_head })

pub pool_free : Buddy → ℕ → Buddy
pool_free b slot = record b { nexts = update b.nexts slot b.pool_head; pool_head = slot }

-- The block goes into the slot, and the slot to the front of the list of the order.
pub insert_slot : Buddy → ℕ → ℕ → ℕ → Buddy
insert_slot b order addr slot = record b {
  addrs = update b.addrs slot addr;
  nexts = update b.nexts slot (b.free_lists order);
  free_lists = update b.free_lists order slot;
  free_pages = (b.free_pages + 2 ^ order) % 2 ^ 64;
}

pub push_block : Buddy → ℕ → ℕ → Option Buddy
push_block b order addr = elim (pool_alloc (init_pool b)) [
  | none ↦ none
  | some (slot, b') ↦ if ltb order order_count then some (insert_slot b' order addr slot) else none
]

-- `free_pages -= 1 << order`
abbrev pub sub_pages : ℕ → ℕ → ℕ
sub_pages n order = (n + 2 ^ 64 - 2 ^ order) % 2 ^ 64

-- `None` if the list is empty.
pub pop_block : Buddy → ℕ → Option (ℕ × Buddy)
unfolding pool_free
pop_block b order =
    let slot = b.free_lists order in
    let b' = pool_free (record b { free_lists = update b.free_lists order (b.nexts slot) }) slot in
    if slot == 0
    then none
    else some (b.addrs slot, record b' { free_pages = sub_pages b.free_pages order })

-- The body of the loop of `remove_block` at the slot of the block.
pub unlink : Buddy → ℕ → ℕ → ℕ → Buddy
unfolding pool_free
unlink b order prev cur =
    let next = b.nexts cur in
    let b' =
      if prev == 0
      then record b { free_lists = update b.free_lists order next }
      else record b { nexts = update b.nexts prev next } in
    record (pool_free b' cur) { free_pages = sub_pages b.free_pages order }

-- The loop, on fuel; `none` means that the fuel ran out.
pub remove_from : ℕ → Buddy → ℕ → ℕ → ℕ → ℕ → Option (Bool × Buddy)
remove_from zero b order target prev cur = none
remove_from (suc fuel) b order target prev cur =
    let rest = remove_from fuel b order target cur (b.nexts cur) in
    if cur == 0
    then some (false, b)
    else if b.addrs cur == target
    then some (true, unlink b order prev cur)
    else rest

pub remove_block : Buddy → ℕ → ℕ → Option (Bool × Buddy)
remove_block b order target = remove_from (pool_size + 1) b order target 0 (b.free_lists order)

-- `(order..=MAX_ORDER).find(|&o| free_lists[o] != NONE)` over the `n` orders from `o` on.
pub find_source : Buddy → ℕ → ℕ → Option ℕ
find_source b o zero = none
find_source b o (suc n) =
    let rest = find_source b (o + 1) n in if b.free_lists o == 0 then rest else some o

-- The bytes of a block.
abbrev pub block_size : ℕ → ℕ
block_size order = page_size * 2 ^ order

-- The splitting loop of `alloc`, with `d` rounds left.
pub split : Buddy → ℕ → ℕ → ℕ → Option Buddy
split b block order zero = some b
split b block order (suc d) =
    elim (push_block b (order + d) ((block + block_size (order + d)) % 2 ^ 64)) [
      | none ↦ none
      | some b' ↦ split b' block order d
    ]

-- The result is the block, or `none` within the pair if there is none to give.
pub alloc : Buddy → ℕ → Option (Option ℕ × Buddy)
alloc b order =
    if ltb max_order order
    then some (none, b)
    else elim (find_source b order (order_count - order)) [
      | none ↦ some (none, b)
      | some source ↦ elim (pop_block b source) [
        | none ↦ some (none, b)
        | some (block, b') ↦ elim (split b' block order (source - order)) [
          | none ↦ none
          | some b'' ↦ some (some block, b'')
        ]
      ]
    ]

-- The coalescing loop of `free`, with `n` orders left below the highest: the block to push.
pub coalesce : ℕ → Buddy → ℕ → ℕ → Option (ℕ × ℕ × Buddy)
coalesce zero b addr order = some (addr, order, b)
coalesce (suc n) b addr order =
    let buddy = bit_xor addr (block_size order) in
    elim (remove_block b order buddy) [
      | none ↦ none
      | some (true, b') ↦ coalesce n b' (min addr buddy) (order + 1)
      | some (false, b') ↦ some (addr, order, b')
    ]

pub free : Buddy → ℕ → ℕ → Option Buddy
free b addr order = elim (coalesce (max_order - order) b addr order) [
  | none ↦ none
  | some (addr', order', b') ↦ push_block b' order' addr'
]

-- The highest of the orders up to `o` whose block fits in the pages that remain and is aligned at
-- the cursor, or 0.
pub best_order : ℕ → ℕ → ℕ → ℕ
best_order zero remaining cursor = 0
best_order (suc o) remaining cursor =
    let rest = best_order o remaining cursor in
    if leb (2 ^ suc o) remaining && (cursor % (page_size * 2 ^ suc o) == 0) then suc o else rest

-- The loop of `add_region`, on fuel.
pub add_from : ℕ → Buddy → ℕ → ℕ → Option Buddy
add_from zero b cursor end = if ltb cursor end then none else some b
add_from (suc fuel) b cursor end =
    let order = best_order max_order ((end - cursor) / page_size) cursor in
    let rest = λ (b' : Buddy). add_from fuel b' ((cursor + block_size order) % 2 ^ 64) end in
    if ltb cursor end
    then elim (push_block b order cursor) [ none ↦ none | some b' ↦ rest b' ]
    else some b

pub add_region : Buddy → ℕ → ℕ → Option Buddy
add_region b start end =
    let pages = (end - start) / page_size in
    if leb end start
    then some b
    else add_from (pages + 1) (record b { total_pages = (b.total_pages + pages) % 2 ^ 64 }) start
        end

pub free_page_count : Buddy → ℕ
free_page_count b = b.free_pages

pub total_page_count : Buddy → ℕ
total_page_count b = b.total_pages

-- The inner loop of `drain_for_usercaps`, with `n` places left in `out`; `pairs` is what has been
-- written, last first.
pub drain_order : ℕ → Buddy → ℕ → ℕ → List (ℕ × ℕ) → ℕ × Buddy × List (ℕ × ℕ)
drain_order zero b reserve order pairs = (0, b, pairs)
drain_order (suc n) b reserve order pairs =
    if ltb reserve b.free_pages && not (ltb (b.free_pages - 2 ^ order) reserve)
    then elim (pop_block b order) [
      | none ↦ (suc n, b, pairs)
      | some (addr, b') ↦ drain_order n b' reserve order ((addr, order) ∷ pairs)
    ]
    else (suc n, b, pairs)

-- The outer loop, over the orders below `k`, highest first.
pub drain_below : ℕ → ℕ → Buddy → ℕ → List (ℕ × ℕ) → Buddy × List (ℕ × ℕ)
drain_below zero n b reserve pairs = (b, pairs)
drain_below (suc k) n b reserve pairs =
    let (n', b', pairs') = drain_order n b reserve k pairs in drain_below k n' b' reserve pairs'

-- With room for `n` pairs in `out`: the allocator, and the pairs, last first.
pub drain_for_usercaps : Buddy → ℕ → ℕ → Buddy × List (ℕ × ℕ)
drain_for_usercaps b reserve n = drain_below order_count n b reserve []
