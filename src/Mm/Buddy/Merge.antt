-- ===== src/Mm/Buddy/Merge.antt =====
-- The coalescing loop of `free`: a block and its buddy make one block of the next order.
use native.Mathlib.Decide.{ℕ_discrete}
use native.Mathlib.Nat.{two-pow-succ}
use seraph.Prelude.{
  ℕ, zero, suc, ◌+◌, ◌-◌, ◌*◌, ◌/◌, ◌%◌, ◌^◌, ◌<◌, ◌≤◌, ◌≡◌, ◌⊎◌, inl, inr, refl, sym, ◌∙◌, ap,
  subst, fun_ext, min, true, false, some, List, arith, ◌==◌, ==_refl, ==_ne, Bool-cases, update,
  erase, has, All-has, All-erase, bit_xor, length-erase, erase-NotIn, NotIn-not_has,
}
use seraph.Prelude.Bits.{neighbour, bit_xor-neighbour, pow_pos}
use seraph.Mm.Buddy.{Buddy, order_count, max_order, block_size, remove_block, coalesce}
use seraph.Mm.Buddy.Blocks.{Free, Holds, blocks, pages, blocks-drop, pages-drop}
use seraph.Mm.Buddy.Remove.{remove_block-Holds}
use seraph.Mm.Buddy.Cover.{
  inside, cover, IsBlock, AllBlocks, AllBlocks-update, cover-erase, inside-halves,
}

abbrev pub buddy_of : ℕ → ℕ → ℕ
buddy_of addr order = bit_xor addr (block_size order)

block_size_pow : (o : ℕ) → block_size o ≡ 2 ^ (o + 12)
block_size_pow zero = omega arith
block_size_pow (suc o) =
    omega (
      arith,
      two-pow-succ o,
      two-pow-succ (o + 12),
      block_size_pow o,
      ap (λ (k : ℕ). 2 ^ k) (plus o),
    )
  where
    plus : (o : ℕ) → suc o + 12 ≡ suc (o + 12)
    plus o = omega arith

-- The buddy is the block before or the block after, in a pair that starts at an even one.
buddy_of_lem : (o q : ℕ) → buddy_of (q * block_size o) o ≡ neighbour q * block_size o
buddy_of_lem o q =
    subst (λ s. bit_xor (q * s) s ≡ neighbour q * s) (sym (block_size_pow o))
      (bit_xor-neighbour (o + 12) q)

neighbours :
    (q s : ℕ)
    → ((p : ℕ) × (q ≡ p * 2) × (neighbour q * s ≡ q * s + s))
      ⊎ ((p : ℕ) × (q ≡ p * 2 + 1) × (neighbour q * s + s ≡ q * s))
neighbours q s = elim (Bool-cases (q % 2 == 0)) [
  | inl e ↦ inl (q / 2, ground arith, rw e (omega arith))
  | inr e ↦ inr (q / 2, ground arith, rw e (before_it (q - 1) (ground arith)))
]
  where
    before_it : (r : ℕ) → q ≡ suc r → r * s + s ≡ q * s
    before_it r e = omega (arith, ap (λ (q : ℕ). q * s) e)

pub merge :
    (o a : ℕ)
    → IsBlock o a
    → IsBlock o (buddy_of a o)
    → IsBlock (suc o) (min a (buddy_of a o))
      × ((x : ℕ)
          → inside a o x + inside (buddy_of a o) o x ≡ inside (min a (buddy_of a o)) (suc o) x)
merge o a ((q, e), h) (_, k) =
    let s = block_size o in
    let t : buddy_of a o ≡ neighbour q * s = ap (λ a. buddy_of a o) e ∙ buddy_of_lem o q in
    elim (neighbours q s) [
      | inl (p, ev, up) ↦
          let above : buddy_of a o ≡ a + s = omega (arith, t, up, e) in
          let low : min a (buddy_of a o) ≡ a = omega (arith, above) in
          (
            (
              (
                p,
                omega (
                  arith,
                  low,
                  e,
                  two-pow-succ o,
                  ap (λ (q : ℕ). q * s) ev,
                  ap (λ (t : ℕ). p * (4096 * t)) (two-pow-succ o),
                ),
              ),
              omega (arith, low, above, k, two-pow-succ o),
            ),
            λ x. omega (
              arith,
              ap (λ t. inside t o x) above,
              ap (λ t. inside t (suc o) x) low,
              inside-halves a o x,
            ),
          )
      | inr (p, od, down) ↦
          let below : buddy_of a o + s ≡ a = omega (arith, t, down, e) in
          let low : min a (buddy_of a o) ≡ buddy_of a o = omega (arith, below) in
          (
            (
              (
                p,
                omega (
                  arith,
                  low,
                  below,
                  e,
                  two-pow-succ o,
                  ap (λ (q : ℕ). q * s) od,
                  ap (λ (t : ℕ). p * (4096 * t)) (two-pow-succ o),
                ),
              ),
              omega (arith, low, below, h, two-pow-succ o),
            ),
            λ x. omega (
              arith,
              ap (λ t. inside t o x) (sym below),
              ap (λ t. inside t (suc o) x) low,
              inside-halves (buddy_of a o) o x,
            ),
          )
    ]

pub buddy_ne : (o a : ℕ) → IsBlock o a → (a == buddy_of a o) ≡ false
buddy_ne o a ((q, e), h) =
    let t : buddy_of a o ≡ neighbour q * block_size o =
      ap (λ a. buddy_of a o) e ∙ buddy_of_lem o q in
    elim (neighbours q (block_size o)) [
      | inl (p, ev, up) ↦ ==_ne a (buddy_of a o) (λ z. omega (arith, z, t, up, e, pow_pos o))
      | inr (p, od, down) ↦ ==_ne a (buddy_of a o) (λ z. omega (arith, z, t, down, e, pow_pos o))
    ]

update-same : (f : Free) (o : ℕ) {l : List ℕ} → l ≡ f o → update f o l ≡ f
update-same f o {l} e = fun_ext λ k. same k (ℕ_discrete k o)
  where
    same : (k : ℕ) → Dec (k ≡ o) → update f o l k ≡ f k
    same k (yes q) = rw (q, ==_refl o) e
    same k (no n) = rw (==_ne k o n)

-- The loop stops at the highest order, or at a block whose buddy is not free.
pub record Coalesces (n : ℕ) (b : Buddy) (f : Free) (addr order : ℕ) : Type 0 where
  pub addr' : ℕ
  pub order' : ℕ
  pub b' : Buddy
  pub f' : Free
  pub returns : coalesce n b addr order ≡ some (addr', order', b')
  pub holds : Holds b' f'
  pub all_blocks : AllBlocks f'
  pub is_block : IsBlock order' addr'
  pub in_range : order' < order_count
  pub covers : (x : ℕ) → cover f' x + inside addr' order' x ≡ cover f x + inside addr order x
  pub page_sum : pages f' + 2 ^ order' ≡ pages f + 2 ^ order
  pub no_more : blocks f' ≤ blocks f
  pub contains : (x : ℕ) → inside addr order x ≤ inside addr' order' x
  pub alone : (order' ≡ max_order) ⊎ (has (buddy_of addr' order') (f' order') ≡ false)
  pub total : b'.total_pages ≡ b.total_pages

coalesce_end :
    (n : ℕ) (b b1 : Buddy) (addr order : ℕ)
    → remove_block b order (buddy_of addr order) ≡ some (false, b1)
    → coalesce (suc n) b addr order ≡ some (addr, order, b1)
unfolding coalesce
coalesce_end n b b1 addr order e = rw (e, coalesce)

coalesce_step :
    (n : ℕ) (b b1 : Buddy) (addr order : ℕ)
    → remove_block b order (buddy_of addr order) ≡ some (true, b1)
    → coalesce (suc n) b addr order ≡ coalesce n b1 (min addr (buddy_of addr order)) (order + 1)
unfolding coalesce
coalesce_step n b b1 addr order e = rw (e, coalesce)

module _ (b : Buddy) (f : Free) (addr order n : ℕ) (b1 : Buddy) (all : AllBlocks f)
    (i : IsBlock order addr) (h : order < max_order)
    (e : has (buddy_of addr order) (f order) ≡ true) where
  abbrev rest : Free
  rest = update f order (erase (buddy_of addr order) (f order))

  joined :
      remove_block b order (buddy_of addr order) ≡ some (true, b1)
      → b1.total_pages ≡ b.total_pages
      → Coalesces n b1 rest (min addr (buddy_of addr order)) (order + 1)
      → Coalesces (suc n) b f addr order
  joined e1 t1 c =
      let t = buddy_of addr order in
      let shorter = length-erase t (f order) e in
      let (_, sum) =
        merge order addr i (All-has (IsBlock order) t (f order) (all order (omega arith)) e) in
      record {
        addr' = c.addr';
        order' = c.order';
        b' = c.b';
        f' = c.f';
        returns = coalesce_step n b b1 addr order e1 ∙ c.returns;
        holds = c.holds;
        all_blocks = c.all_blocks;
        is_block = c.is_block;
        in_range = c.in_range;
        covers = λ x. omega (
          arith,
          c.covers x,
          cover-erase f order t x (omega arith) e,
          sum x,
          ap (λ o. inside (min addr t) o x) (suc_of order),
        );
        page_sum = omega (
          arith,
          c.page_sum,
          pages-drop f order (erase t (f order)) (omega arith) shorter,
          two-pow-succ order,
          ap (λ (o : ℕ). 2 ^ o) (suc_of order),
        );
        no_more =
            omega (arith, c.no_more, blocks-drop f order (erase t (f order)) (omega arith) shorter);
        contains = λ x.
            omega (arith, c.contains x, sum x, ap (λ o. inside (min addr t) o x) (suc_of order));
        alone = c.alone;
        total = c.total ∙ t1;
      }
    where
      suc_of : (o : ℕ) → o + 1 ≡ suc o
      suc_of o = omega arith

pub coalesce-Coalesces :
    (n : ℕ) (b : Buddy) (f : Free) (addr order : ℕ)
    → Holds b f
    → AllBlocks f
    → IsBlock order addr
    → order + n ≡ max_order
    → Coalesces n b f addr order
unfolding coalesce
coalesce-Coalesces zero b f addr order v all i h = record {
  addr' = addr;
  order' = order;
  b' = b;
  f' = f;
  returns = refl;
  holds = v;
  all_blocks = all;
  is_block = i;
  in_range = omega arith;
  covers = λ x. refl;
  page_sum = refl;
  no_more = omega arith;
  contains = λ x. omega arith;
  alone = inl (omega arith);
  total = refl;
}
coalesce-Coalesces (suc n) b f addr order v all i h =
    let t = buddy_of addr order in
    let (b1, e1, v1, t1) = remove_block-Holds b f order t v (omega arith) in
    elim (Bool-cases (has t (f order))) [
      | inr e ↦
          let same = update-same f order (erase-NotIn t (f order) (NotIn-not_has t (f order) e)) in
          record {
            addr' = addr;
            order' = order;
            b' = b1;
            f' = f;
            returns = coalesce_end n b b1 addr order (rw e at e1);
            holds = subst (Holds b1) same v1;
            all_blocks = all;
            is_block = i;
            in_range = omega arith;
            covers = λ x. refl;
            page_sum = refl;
            no_more = omega arith;
            contains = λ x. omega arith;
            alone = inr e;
            total = t1;
          }
      | inl e ↦
          let t_is = All-has (IsBlock order) t (f order) (all order (omega arith)) e in
          joined b f addr order n b1 all i (omega arith) e (rw e at e1) t1 (
            coalesce-Coalesces n b1 (update f order (erase t (f order))) (min addr t) (order + 1) v1
              (AllBlocks-update f order _ all
                (All-erase (IsBlock order) t (f order) (all order (omega arith))))
              (subst (λ o. IsBlock o (min addr t)) (suc_of order) (merge order addr i t_is).0)
              (omega arith))
    ]
  where
    suc_of : (o : ℕ) → suc o ≡ o + 1
    suc_of o = omega arith
