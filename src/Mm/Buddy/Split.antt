-- ===== src/Mm/Buddy/Split.antt =====
-- The parts of `alloc`: the search for a free block, and the splitting of a block that is too large.
use native.Mathlib.Decide.{ℕ_discrete}
use native.Mathlib.Nat.{two-pow-succ}
use seraph.Prelude.{
  ℕ, zero, suc, ◌+◌, ◌-◌, ◌*◌, ◌%◌, ◌^◌, ◌<◌, ◌≤◌, ◌≡◌, ◌⊎◌, inl, inr, refl, sym, ◌∙◌, ap, subst,
  none, some, List, [], ◌∷◌, arith, ==_ne, update,
}
use seraph.Prelude.Bits.{pow_pos}
use seraph.Mm.Buddy.{
  Buddy, order_count, pool_size, block_size, find_source, split, alloc, push_block, pop_block,
}
use seraph.Mm.Buddy.Blocks.{Free, Holds, Refines, blocks, pages, blocks-push, pages-push}
use seraph.Mm.Buddy.Push.{push_block-Holds}
use seraph.Mm.Buddy.Take.{free_lists-nil, free_lists-cons}
use seraph.Mm.Buddy.Cover.{
  inside, cover, IsBlock, AllBlocks, AllBlocks-update, cover-push, inside-halves, halves-IsBlock,
}

-- The free blocks after a block of order `order + d` has been split down to `order`: the upper
-- half of each round.
pub split_free : Free → ℕ → ℕ → ℕ → Free
split_free f block order zero = f
split_free f block order (suc d) =
    split_free (update f (order + d) ((block + block_size (order + d)) ∷ f (order + d))) block order
      d

double : (order d : ℕ) → block_size (order + suc d) ≡ 2 * block_size (order + d)
double order d = omega (arith, two-pow-succ (order + d), ap (λ (k : ℕ). 2 ^ k) (add_suc order d))
  where
    add_suc : (order d : ℕ) → order + suc d ≡ suc (order + d)
    add_suc order d = omega arith

size_pos : (o : ℕ) → 0 < block_size o
size_pos o = omega (arith, pow_pos o)

split_step :
    (b : Buddy) (block order d : ℕ) {b' : Buddy}
    → push_block b (order + d) ((block + block_size (order + d)) % 2 ^ 64) ≡ some b'
    → split b block order (suc d) ≡ split b' block order d
unfolding split
split_step b block order d e = rw (e, split)

pub split-Holds :
    (d : ℕ) (b : Buddy) (f : Free) (block order : ℕ)
    → Holds b f
    → order + d < order_count
    → blocks f + d ≤ pool_size
    → block + block_size (order + d) ≤ 2 ^ 64
    → (b' : Buddy) × (split b block order d ≡ some b')
      × Holds b' (split_free f block order d)
      × (b'.total_pages ≡ b.total_pages)
unfolding split split_free
split-Holds zero b f block order v h room fit = (b, refl, v, refl)
split-Holds (suc d) b f block order v h room fit =
    let half = block + block_size (order + d) in
    let small : half < 2 ^ 64 = omega (arith, fit, double order d, size_pos (order + d)) in
    let wrap : half % 2 ^ 64 ≡ half = omega (arith, small) in
    let (b1, e1, v1, t1) =
      push_block-Holds b f (order + d) half (inl v) (omega arith) (omega arith) in
    let (b2, e2, v2, t2) =
      split-Holds d b1 (update f (order + d) (half ∷ f (order + d))) block order v1 (omega arith)
        (omega (arith, blocks-push f (order + d) half (omega arith)))
        (omega (arith, fit, double order d)) in
    (
      b2,
      split_step b block order d (subst (λ k. push_block b (order + d) k ≡ some b1) (sym wrap) e1)
          ∙ e2,
      v2,
      t2 ∙ t1,
    )

pub split_cover :
    (d : ℕ) (f : Free) (block order x : ℕ)
    → order + d < order_count
    → cover (split_free f block order d) x + inside block order x
      ≡ cover f x + inside block (order + d) x
unfolding split_free
split_cover zero f block order x h = ap (λ k. cover f x + inside block k x) (omega arith)
split_cover (suc d) f block order x h =
    let half = block + block_size (order + d) in
    omega (
      arith,
      split_cover d (update f (order + d) (half ∷ f (order + d))) block order x (omega arith),
      cover-push f (order + d) half x (omega arith),
      inside-halves block (order + d) x,
      ap (λ k. inside block k x) (add_suc order d),
    )
  where
    add_suc : (order d : ℕ) → order + suc d ≡ suc (order + d)
    add_suc order d = omega arith

pub split_pages :
    (d : ℕ) (f : Free) (block order : ℕ)
    → order + d < order_count
    → pages (split_free f block order d) + 2 ^ order ≡ pages f + 2 ^ (order + d)
unfolding split_free
split_pages zero f block order h = ap (λ (k : ℕ). pages f + 2 ^ k) (omega arith)
split_pages (suc d) f block order h =
    let half = block + block_size (order + d) in
    omega (
      arith,
      split_pages d (update f (order + d) (half ∷ f (order + d))) block order (omega arith),
      pages-push f (order + d) half (omega arith),
      two-pow-succ (order + d),
      ap (λ (k : ℕ). 2 ^ k) (add_suc order d),
    )
  where
    add_suc : (order d : ℕ) → order + suc d ≡ suc (order + d)
    add_suc order d = omega arith

pub split-AllBlocks :
    (d : ℕ) (f : Free) (block order : ℕ)
    → order + d < order_count
    → IsBlock (order + d) block
    → AllBlocks f
    → AllBlocks (split_free f block order d) × IsBlock order block
unfolding split_free
split-AllBlocks zero f block order h i all = (all, subst (λ k. IsBlock k block) (omega arith) i)
split-AllBlocks (suc d) f block order h i all =
    let (low, high) =
      halves-IsBlock (order + d) block (subst (λ k. IsBlock k block) (add_suc order d) i) in
    split-AllBlocks d (update f (order + d) ((block + block_size (order + d)) ∷ f (order + d)))
      block order (omega arith) low
      (AllBlocks-update f (order + d) _ all (high, all (order + d) (omega arith)))
  where
    add_suc : (order d : ℕ) → order + suc d ≡ suc (order + d)
    add_suc order d = omega arith

pub List-cases : (l : List ℕ) → (l ≡ []) ⊎ ((a : ℕ) × (rest : List ℕ) × (l ≡ a ∷ rest))
List-cases [] = inl refl
List-cases (a ∷ rest) = inr (a, rest, refl)

-- The smallest order from `o` on with a free block.
pub find_source_lem :
    (b : Buddy) (f : Free) (o n : ℕ)
    → Refines b f
    → o + n ≤ order_count
    → ((find_source b o n ≡ none) × ((k : ℕ) → o ≤ k → k < o + n → f k ≡ []))
      ⊎ ((s : ℕ) × (a : ℕ) × (rest : List ℕ) × (find_source b o n ≡ some s)
          × (o ≤ s)
          × (s < o + n)
          × (f s ≡ a ∷ rest)
          × ((k : ℕ) → o ≤ k → k < s → f k ≡ []))
unfolding find_source
find_source_lem b f o zero r h = inl (refl, λ k lo hi. absurd (omega arith))
find_source_lem b f o (suc n) r h = elim (List-cases (f o)) [
  | inr (a, rest, e) ↦ inr (
    o,
    a,
    rest,
    rw (==_ne (b.free_lists o) 0 (free_lists-cons b f o a rest r (omega arith) e)),
    omega arith,
    omega arith,
    e,
    λ k lo hi. absurd (omega arith),
  )
  | inl e ↦
      let here = λ (k : ℕ) (q : k ≡ o). subst (λ k. f k ≡ []) (sym q) e in
      elim (find_source_lem b f (o + 1) n r (omega arith)) [
        | inl (z, clear) ↦ inl (
          rw (free_lists-nil b f o r (omega arith) e) z,
          λ k lo hi. elim (ℕ_discrete k o) [
            | yes q ↦ here k q
            | no q ↦ clear k (omega arith) (omega arith)
          ],
        )
        | inr (s, a, rest, z, lo, hi, l, clear) ↦ inr (
          s,
          a,
          rest,
          rw (free_lists-nil b f o r (omega arith) e) z,
          omega arith,
          omega arith,
          l,
          λ k klo khi. elim (ℕ_discrete k o) [
            | yes q ↦ here k q
            | no q ↦ clear k (omega arith) khi
          ],
        )
      ]
]

pub alloc-none :
    (b : Buddy) (order : ℕ)
    → order < order_count
    → find_source b order (order_count - order) ≡ none
    → alloc b order ≡ some (none, b)
unfolding alloc
alloc-none b order h e = ground arith

pub alloc-some :
    (b : Buddy) (order s block : ℕ) (b' b'' : Buddy)
    → order < order_count
    → find_source b order (order_count - order) ≡ some s
    → pop_block b s ≡ some (block, b')
    → split b' block order (s - order) ≡ some b''
    → alloc b order ≡ some (some block, b'')
unfolding alloc
alloc-some b order s block b' b'' h e p q = ground arith
