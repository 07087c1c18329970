-- ===== src/Mm/Buddy/Drain.antt =====
-- `drain_for_usercaps`.
use seraph.Prelude.{ℕ, ◌+◌, ◌-◌, ◌^◌, ◌≤◌, ◌≡◌, ◌⊎◌, Bool, not, ◌&&◌, List, [], ◌∷◌, ltb, length}
use seraph.Mm.Buddy.{Buddy, free_page_count}
use seraph.Mm.Buddy.Blocks.{Free, Holds}
use seraph.Mm.Buddy.Cover.{inside, cover, AllBlocks}

-- What the pairs of an address and an order cover, and their pages.
pub covered : List (ℕ × ℕ) → ℕ → ℕ
covered [] x = 0
covered (pair ∷ pairs) x = inside pair.0 pair.1 x + covered pairs x

pub pages_in : List (ℕ × ℕ) → ℕ
pages_in [] = 0
pages_in (pair ∷ pairs) = 2 ^ pair.1 + pages_in pairs

-- Blocks have moved from the allocator to the pairs, and as many of the `n` places have been used.
pub record Drains (reserve n : ℕ) (b : Buddy) (f : Free) (pairs : List (ℕ × ℕ)) (n' : ℕ)
    (b' : Buddy) (pairs' : List (ℕ × ℕ)) : Type 0 where
  pub left : Free
  pub holds : Holds b' left
  pub all_blocks : AllBlocks left
  pub covers : (x : ℕ) → cover left x + covered pairs' x ≡ cover f x + covered pairs x
  pub counts : free_page_count b' + pages_in pairs' ≡ free_page_count b + pages_in pairs
  pub places : n' + length pairs' ≡ n + length pairs
  pub reserved : (free_page_count b' ≡ free_page_count b) ⊎ (reserve ≤ free_page_count b')

module _ (reserve : ℕ) where
  -- The test of the inner loop.
  abbrev spare : Buddy → ℕ → Bool
  spare b order = ltb reserve b.free_pages && not (ltb (b.free_pages - 2 ^ order) reserve)

  abbrev Ends : ℕ → Buddy → Free → List (ℕ × ℕ) → ℕ × Buddy × List (ℕ × ℕ) → Type 0
  Ends n b f pairs r = Drains reserve n b f pairs r.0 r.1 r.2
