-- ===== src/Mm/Buddy/Examples.antt =====
-- `BuddyAllocator` at small inputs: the theorems applied.
use seraph.Prelude.{◌+◌}
use seraph.Mm.Buddy.{add_region, best_order, total_page_count}
use seraph.Mm.Buddy.Blocks.{pages, Refines}
use seraph.Mm.Buddy.Cover.{cover}
use seraph.Mm.Buddy.Region.{within, rounds, add_region-Adds}
use seraph.Prelude.{
  ℕ, ◌<◌, ◌≤◌, ◌≡◌, ◌⊎◌, inl, refl, none, some, [], ◌∷◌, arith, update, take_result,
}
use seraph.Prelude.Sum.{total}
use seraph.Mm.Buddy.{
  Buddy, new, order_count, init_pool, set_up, pool_alloc, insert_slot, push_block, alloc,
}
use seraph.Mm.Buddy.Blocks.{Free, Holds}
use seraph.Mm.Buddy.Push.{new-Refines, push_block-Holds}
use seraph.Mm.Buddy.Cover.{AllBlocks, AllBlocks-update}
use seraph.Mm.Buddy.Alloc.{Gives, alloc-Gives}

-- One block of two pages, from 8192 to 16384, in slot 1.
abbrev nothing : Free
nothing = λ _. []

abbrev ready : Buddy
ready = set_up new

abbrev stocked : Buddy
stocked = insert_slot (record ready { pool_head = ready.nexts 1 }) 1 8192 1

abbrev one : Free
one = update nothing 1 (8192 ∷ [])

run_stocked : push_block new 1 8192 ≡ some stocked
unfolding push_block init_pool pool_alloc set_up new
run_stocked = refl

stocked-Holds : Holds stocked one
unfolding total
stocked-Holds =
    let (b, e, v, t) =
      push_block-Holds new nothing 1 8192 new-Refines (omega arith) (omega arith) in
    take_result (push_block new 1 8192) stocked run_stocked (λ b. Holds b one) (b, e, v)

one-AllBlocks : AllBlocks one
one-AllBlocks =
    AllBlocks-update nothing 1 (8192 ∷ []) (λ o h. tt) (((1, omega arith), omega arith), tt)

alloc_example :
    (((k : ℕ) → 0 ≤ k → k < order_count → one k ≡ []) × (alloc stocked 0 ≡ some (none, stocked)))
    ⊎ ((block : ℕ) × (b' : Buddy) × (f' : Free) × Gives stocked one 0 block b' f')
unfolding total
alloc_example =
    alloc-Gives stocked one 0 (inl stocked-Holds) one-AllBlocks (omega arith) (omega arith)

-- Three pages from 4096 on: one block of a page and one of two.
run_rounds : rounds 4 4096 16384 ≡ 2
unfolding rounds best_order
run_rounds = refl

add_region_example :
    (b' : Buddy) × (f' : Free) × (add_region new 4096 16384 ≡ some b')
    × Refines b' f'
    × AllBlocks f'
    × ((x : ℕ) → cover f' x ≡ cover nothing x + within 4096 16384 x)
    × (pages f' ≡ pages nothing + 3)
    × (total_page_count b' ≡ total_page_count new + 3)
unfolding total new total_page_count
add_region_example =
    add_region-Adds new nothing 4096 16384 new-Refines (λ o h. tt) (omega arith) (omega arith)
      (omega arith) (omega (arith, run_rounds)) (omega arith)
