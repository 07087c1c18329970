-- ===== src/Mm/Buddy/Alloc.antt =====
-- `alloc`.
use seraph.Prelude.{
  ℕ, ◌+◌, ◌-◌, ◌^◌, ◌<◌, ◌≤◌, ◌≡◌, ◌⊎◌, inl, inr, sym, ◌∙◌, ap, subst, none, some, List, [], ◌∷◌,
  arith, update, length, All,
}
use seraph.Mm.Buddy.{
  Buddy, order_count, max_order, pool_size, block_size, alloc, find_source, pop_block, split,
  free_page_count, total_page_count,
}
use seraph.Mm.Buddy.Blocks.{Free, Holds, Refines, blocks, blocks-drop, pages-drop}
use seraph.Mm.Buddy.Take.{pop_block-Holds}
use seraph.Mm.Buddy.Cover.{inside, cover, IsBlock, AllBlocks, AllBlocks-update, cover-pop}
use seraph.Mm.Buddy.Split.{
  split_free, split-Holds, split_cover, split_pages, split-AllBlocks, find_source_lem, alloc-none,
  alloc-some,
}

-- The block that `alloc` gives, with the free blocks that remain.
pub record Gives (b : Buddy) (f : Free) (order block : ℕ) (b' : Buddy) (f' : Free) : Type 0 where
  pub returns : alloc b order ≡ some (some block, b')
  pub holds : Holds b' f'
  pub all_blocks : AllBlocks f'
  pub is_block : IsBlock order block
  pub covers : (x : ℕ) → cover f' x + inside block order x ≡ cover f x
  pub counts : free_page_count b' + 2 ^ order ≡ free_page_count b
  pub total : total_page_count b' ≡ total_page_count b

module _ (b : Buddy) (f : Free) (order : ℕ) where
  alloc_from :
      (s a : ℕ) (rest : List ℕ)
      → Holds b f
      → AllBlocks f
      → order ≤ s
      → s < order_count
      → f s ≡ a ∷ rest
      → (alloc_eq : (b1 b2 : Buddy)
          → pop_block b s ≡ some (a, b1)
          → split b1 a order (s - order) ≡ some b2
          → alloc b order ≡ some (some a, b2))
      → blocks f + max_order ≤ pool_size
      → (b' : Buddy) × (f' : Free) × Gives b f order a b' f'
  unfolding free_page_count total_page_count
  alloc_from s a rest v all lo hi l eq room =
      let d = s - order in
      let f1 = update f s rest in
      let sum : order + d ≡ s = omega arith in
      let (b1, e1, v1, t1) = pop_block-Holds b f s a rest v hi l in
      let here = subst (All (IsBlock s)) l (all s hi) in
      let shorter : length rest + 1 ≡ length (f s) = omega (arith, ap length l) in
      let (b2, e2, v2, t2) =
        split-Holds d b1 f1 a order v1 (omega arith)
          (omega (arith, blocks-drop f s rest hi shorter))
          (subst (λ k. a + block_size k ≤ 2 ^ 64) (sym sum) here.0.1) in
      let (all2, is) =
        split-AllBlocks d f1 a order (omega arith) (subst (λ k. IsBlock k a) (sym sum) here.0)
          (AllBlocks-update f s rest all here.1) in
      (
        b2,
        split_free f1 a order d,
        record {
          returns = eq b1 b2 e1 e2;
          holds = v2;
          all_blocks = all2;
          is_block = is;
          covers = λ x. omega (
            arith,
            split_cover d f1 a order x (omega arith),
            cover-pop f s a x rest hi l,
            ap (λ k. inside a k x) sum,
          );
          counts = omega (
            arith,
            v2.counted,
            v.counted,
            split_pages d f1 a order (omega arith),
            pages-drop f s rest hi shorter,
            ap (λ (k : ℕ). 2 ^ k) sum,
          );
          total = t2 ∙ t1;
        },
      )

  -- `alloc` of an order in range: if no order from that one on has a free block, it gives nothing
  -- and changes nothing; otherwise, as long as the pool has ten slots for the halves, it gives a
  -- block of that order, aligned to its size, that was free, and everything else that was free
  -- stays free, no address more and none less.
  pub alloc-Gives :
      Refines b f
      → AllBlocks f
      → order < order_count
      → blocks f + max_order ≤ pool_size
      → (((k : ℕ) → order ≤ k → k < order_count → f k ≡ []) × (alloc b order ≡ some (none, b)))
        ⊎ ((block : ℕ) × (b' : Buddy) × (f' : Free) × Gives b f order block b' f')
  alloc-Gives r all h room =
      elim (find_source_lem b f order (order_count - order) r (omega arith)) [
        | inl (e, clear) ↦ inl (λ k lo hi. clear k lo (omega arith), alloc-none b order h e)
        | inr (s, a, rest, e, lo, hi, l, _) ↦
            let (b', f', gives) = go s a rest r e lo (omega arith) l in inr (a, b', f', gives)
      ]
    where
      go :
          (s a : ℕ) (rest : List ℕ)
          → Refines b f
          → find_source b order (order_count - order) ≡ some s
          → order ≤ s
          → s < order_count
          → f s ≡ a ∷ rest
          → (b' : Buddy) × (f' : Free) × Gives b f order a b' f'
      go s a rest (inl v) e lo hi l =
          alloc_from s a rest v all lo hi l (λ b1 b2 p q. alloc-some b order s a b1 b2 h e p q) room
      go s a rest (inr v) e lo hi l = cc (v.empty s)
