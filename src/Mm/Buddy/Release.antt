-- ===== src/Mm/Buddy/Release.antt =====
-- `free`.
use seraph.Prelude.{ℕ, ◌+◌, ◌^◌, ◌≤◌, ◌≡◌, ◌⊎◌, some, true, false, has}
use seraph.Mm.Buddy.{Buddy, max_order, free, free_page_count, total_page_count}
use seraph.Mm.Buddy.Blocks.{Free, Holds}
use seraph.Mm.Buddy.Cover.{inside, cover, AllBlocks}
use seraph.Mm.Buddy.Merge.{buddy_of}

-- What `free` leaves: the block, or the larger one it is part of, is first in the list of its
-- order, and its buddy is not free unless the order is the highest.
pub record Frees (b : Buddy) (f : Free) (addr order : ℕ) (b' : Buddy) (f' : Free) : Type 0 where
  pub returns : free b addr order ≡ some b'
  pub holds : Holds b' f'
  pub all_blocks : AllBlocks f'
  pub covers : (x : ℕ) → cover f' x ≡ cover f x + inside addr order x
  pub counts : free_page_count b' ≡ free_page_count b + 2 ^ order
  pub total : total_page_count b' ≡ total_page_count b
  pub block : ℕ
  pub block_order : ℕ
  pub merged : has block (f' block_order) ≡ true
  pub contains : (x : ℕ) → inside addr order x ≤ inside block block_order x
  pub alone :
      (block_order ≡ max_order) ⊎ (has (buddy_of block block_order) (f' block_order) ≡ false)
