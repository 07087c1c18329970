-- ===== src/Mm/Buddy/Region.antt =====
-- `add_region`: the greedy loop covers the region with aligned blocks.
use native.Mathlib.Omega.{div_any}
use native.Mathlib.Decide.{dec_lt}
use seraph.Prelude.{
  ℕ, zero, suc, ◌+◌, ◌-◌, ◌*◌, ◌/◌, ◌%◌, ◌^◌, ◌<◌, ◌≤◌, ◌≡◌, inl, inr, refl, ◌∙◌, ap, Bool, true,
  false, ◌&&◌, none, some, ◌∷◌, arith, ◌==◌, ltb, leb, lt→ltb, leb→le, if◌then◌else◌, if-true,
  if-false, ==_iff, Bool-cases, update,
}
use seraph.Prelude.Bits.{pow_pos}
use seraph.Mm.Buddy.{
  order_count, Buddy, max_order, page_size, pool_size, block_size, push_block, best_order, add_from,
  add_region, total_page_count,
}
use seraph.Mm.Buddy.Blocks.{Free, Refines, blocks, pages, blocks-push, pages-push}
use seraph.Mm.Buddy.Push.{push_block-Holds}
use seraph.Mm.Buddy.Cover.{cover, AllBlocks, AllBlocks-update, cover-push}

-- 1 if the address lies in the region, else 0.
abbrev pub within : ℕ → ℕ → ℕ → ℕ
within start end x = if leb start x && ltb x end then 1 else 0

both-true : (a b : Bool) → (a && b) ≡ true → (a ≡ true) × (b ≡ true)
both-true true b e = (refl, e)
both-true false b e = cc

-- The order fits, and the cursor is aligned to it.
best_order-fits :
    (o remaining cursor : ℕ)
    → 0 < remaining
    → cursor % page_size ≡ 0
    → (best_order o remaining cursor ≤ o)
      × (2 ^ best_order o remaining cursor ≤ remaining)
      × (cursor % block_size (best_order o remaining cursor) ≡ 0)
unfolding best_order
best_order-fits zero remaining cursor pos h = (omega arith, omega arith, h)
best_order-fits (suc o) remaining cursor pos h =
    elim (Bool-cases (leb (2 ^ suc o) remaining && (cursor % (page_size * 2 ^ suc o) == 0))) [
      | inl e ↦
          let (fits, aligned) =
            both-true (leb (2 ^ suc o) remaining) (cursor % (page_size * 2 ^ suc o) == 0) e in
          rw e (
            omega arith,
            leb→le (2 ^ suc o) remaining fits,
            (==_iff (cursor % (page_size * 2 ^ suc o)) 0).0 aligned,
          )
      | inr e ↦
          let (le, fits, aligned) = best_order-fits o remaining cursor pos h in
          rw e (omega (arith, le), fits, aligned)
    ]
  where
    le_suc : (k o : ℕ) → k ≤ o → k ≤ suc o
    le_suc k o h = omega arith

multiple : (a b : ℕ) → a % b ≡ 0 → (q : ℕ) × (a ≡ q * b)
multiple a b e = (a / b, omega (arith, div_any a b, e))

-- The order of the first block, and the number of blocks.
abbrev pub first_order : ℕ → ℕ → ℕ
first_order cursor end = best_order max_order ((end - cursor) / page_size) cursor

unfoldable pub rounds : ℕ → ℕ → ℕ → ℕ
rounds zero cursor end = 0
rounds (suc fuel) cursor end =
    let rest = rounds fuel (cursor + block_size (first_order cursor end)) end in
    if ltb cursor end then suc rest else 0

module _ (cursor end : ℕ) (lt : cursor < end) (hc : cursor % page_size ≡ 0)
    (he : end % page_size ≡ 0) where
  abbrev order : ℕ
  order = first_order cursor end

  some_page : 0 < (end - cursor) / page_size
  some_page = omega arith

  first_order-fits :
      (order ≤ max_order)
      × (cursor + block_size order ≤ end)
      × ((q : ℕ) × (cursor ≡ q * block_size order))
      × ((cursor + block_size order) % page_size ≡ 0)
  first_order-fits =
      let (le, fits, aligned) =
        best_order-fits max_order ((end - cursor) / page_size) cursor some_page hc in
      (le, omega (arith, fits), multiple cursor (block_size order) aligned, omega arith)

-- What adding the region from `cursor` to `end` leaves.
pub record Adds (b : Buddy) (f : Free) (cursor end : ℕ) (b' : Buddy) (f' : Free) : Type 0 where
  pub refines : Refines b' f'
  pub all_blocks : AllBlocks f'
  pub covers : (x : ℕ) → cover f' x ≡ cover f x + within cursor end x
  pub counts : pages f' ≡ pages f + (end - cursor) / page_size
  pub total : total_page_count b' ≡ total_page_count b

add_from-stop :
    (fuel : ℕ) (b : Buddy) (cursor end : ℕ) → end ≤ cursor → add_from fuel b cursor end ≡ some b
unfolding add_from
add_from-stop zero b cursor end h = if-false _ _ (ltb cursor end) (ground arith)
add_from-stop (suc fuel) b cursor end h = if-false _ _ (ltb cursor end) (ground arith)

add_from-step :
    (fuel : ℕ) (b b' : Buddy) (cursor end : ℕ)
    → cursor < end
    → push_block b (first_order cursor end) cursor ≡ some b'
    → add_from (suc fuel) b cursor end
      ≡ add_from fuel b' ((cursor + block_size (first_order cursor end)) % 2 ^ 64) end
unfolding add_from
add_from-step fuel b b' cursor end h e =
    if-true _ _ (ltb cursor end) (lt→ltb cursor end h)
    ∙ ap
        (λ o. elim o [
          | none ↦ none
          | some b' ↦ add_from fuel b' ((cursor + block_size (first_order cursor end)) % 2 ^ 64) end
        ])
        e

rounds-step :
    (fuel cursor end : ℕ)
    → cursor < end
    → rounds (suc fuel) cursor end
      ≡ suc (rounds fuel (cursor + block_size (first_order cursor end)) end)
unfolding rounds
rounds-step fuel cursor end h = if-true _ _ (ltb cursor end) (lt→ltb cursor end h)

add_from-Adds :
    (fuel : ℕ) (b : Buddy) (f : Free) (cursor end : ℕ)
    → Refines b f
    → AllBlocks f
    → cursor % page_size ≡ 0
    → end % page_size ≡ 0
    → cursor ≤ end
    → end < 2 ^ 64
    → (end - cursor) / page_size < fuel
    → blocks f + rounds fuel cursor end ≤ pool_size
    → (b' : Buddy) × (f' : Free) × (add_from fuel b cursor end ≡ some b')
      × Adds b f cursor end b' f'
unfolding total_page_count
add_from-Adds zero b f cursor end r all hc he le top enough room = absurd (omega arith)
add_from-Adds (suc fuel) b f cursor end r all hc he le top enough room = elim (dec_lt cursor end) [
  | no n ↦ (
    b,
    f,
    add_from-stop (suc fuel) b cursor end (omega arith),
    record {
      refines = r;
      all_blocks = all;
      covers = λ x. ground arith;
      counts = omega arith;
      total = refl;
    },
  )
  | yes lt ↦
      let o = first_order cursor end in
      let next = cursor + block_size o in
      let (small, inside_end, block, aligned) = first_order-fits cursor end lt hc he in
      let steps = rounds-step fuel cursor end lt in
      let in_range : o < order_count = omega (arith, small) in
      let fits : cursor + block_size o ≤ 2 ^ 64 = omega (arith, inside_end) in
      let grown = blocks-push f o cursor in_range in
      let (b1, e1, v1, t1) = push_block-Holds b f o cursor r in_range (omega (arith, steps)) in
      let f1 = update f o (cursor ∷ f o) in
      let all1 = AllBlocks-update f o _ all ((block, fits), all o in_range) in
      let (b2, f2, e2, a) =
        add_from-Adds fuel b1 f1 next end (inl v1) all1 aligned he inside_end top
          (omega (arith, pow_pos o)) (omega (arith, steps, grown)) in
      (
        b2,
        f2,
        add_from-step fuel b b1 cursor end lt e1
            ∙ ap (λ c. add_from fuel b1 c end) {x = next % 2 ^ 64} {y = next}
                (omega (arith, inside_end))
            ∙ e2,
        record {
          refines = a.refines;
          all_blocks = a.all_blocks;
          covers = λ x. ground (arith, a.covers x, cover-push f o cursor x in_range, inside_end);
          counts = omega (arith, a.counts, pages-push f o cursor in_range, inside_end, lt);
          total = a.total ∙ t1;
        },
      )
]

-- The counter of all pages is no part of what an allocator holds.
Refines-total :
    (b : Buddy) (f : Free) (n : ℕ) → Refines b f → Refines (record b { total_pages = n }) f
Refines-total b f n (inl v) = inl (record {
  init = v.init;
  slots = v.slots;
  lists = v.lists;
  contents = v.contents;
  in_pool = v.in_pool;
  room = v.room;
  counted = v.counted;
})
Refines-total b f n (inr v) =
    inr (record {
      not_init = v.not_init;
      empty = v.empty;
      no_list = v.no_list;
      no_pages = v.no_pages;
    })

-- `add_region` of a region of whole pages returns if the pool has a slot for each of its blocks:
-- each address of the region is covered once more and every other address as before, by blocks that
-- are aligned to their sizes, and both page counts grow by the pages of the region, where the sum
-- is a word.
pub add_region-Adds :
    (b : Buddy) (f : Free) (start end : ℕ)
    → Refines b f
    → AllBlocks f
    → start % page_size ≡ 0
    → end % page_size ≡ 0
    → end < 2 ^ 64
    → blocks f + rounds ((end - start) / page_size + 1) start end ≤ pool_size
    → total_page_count b + (end - start) / page_size < 2 ^ 64
    → (b' : Buddy) × (f' : Free) × (add_region b start end ≡ some b')
      × Refines b' f'
      × AllBlocks f'
      × ((x : ℕ) → cover f' x ≡ cover f x + within start end x)
      × (pages f' ≡ pages f + (end - start) / page_size)
      × (total_page_count b' ≡ total_page_count b + (end - start) / page_size)
unfolding add_region total_page_count
add_region-Adds b f start end r all hs he top room word = elim (Bool-cases (leb end start)) [
  | inl e ↦
      (b, f, if-true _ _ (leb end start) e, r, all, λ x. ground arith, ground arith, ground arith)
  | inr e ↦
      let pages_added = (end - start) / page_size in
      let b0 : Buddy = record b { total_pages = (b.total_pages + pages_added) % 2 ^ 64 } in
      let (b', f', run, a) =
        add_from-Adds (pages_added + 1) b0 f start end (Refines-total b f _ r) all hs he
          (ground arith) top (omega arith) room in
      (
        b',
        f',
        if-false _ _ (leb end start) e ∙ run,
        a.refines,
        a.all_blocks,
        a.covers,
        a.counts,
        omega (arith, a.total, word),
      )
]
