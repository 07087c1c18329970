-- ===== src/Mm/Buddy/Push.antt =====
-- `init_pool` and `push_block`.
use native.Mathlib.Decide.{ℕ_discrete}
use seraph.Prelude.{
  ℕ, zero, suc, ◌+◌, ◌-◌, ◌*◌, ◌%◌, ◌^◌, ◌<◌, ◌≤◌, ◌≡◌, inl, inr, refl, sym, ◌∙◌, ap, subst, none,
  some, List, [], ◌∷◌, arith, ◌==◌, if◌then◌else◌, ==_refl, ==_ne, lt→ltb, update, update_self,
  update_ne, length,
}
use seraph.Prelude.Sum.{
  total_zero, range_from, length-range_from, All-range_from, Distinct-range_from,
}
use seraph.Prelude.Chain.{Links, Chain}
use seraph.Mm.Buddy.{
  Buddy, new, order_count, pool_size, link_slots, set_up, init_pool, pool_alloc, insert_slot,
  push_block,
}
use seraph.Mm.Buddy.Blocks.{Free, Holds, IsNew, Refines, blocks, insert_slot-Holds}

-- Each slot is linked to the next.
link_slots_lem :
    (n : ℕ) (nexts : Links) (i : ℕ) → 0 < i → i ≤ n → link_slots n nexts i ≡ (i + 1) % 2 ^ 16
unfolding link_slots
link_slots_lem zero nexts i lo hi = absurd (omega arith)
link_slots_lem (suc n) nexts i lo hi = elim (ℕ_discrete i (suc n)) [
  | yes e ↦ rw (e, ==_refl (suc n)) (omega arith)
  | no ne ↦ rw (==_ne i (suc n) ne) (link_slots_lem n nexts i lo (omega arith))
]

Chain-range_from :
    (nexts : Links) (k c : ℕ)
    → 0 < k
    → ((i : ℕ) → k ≤ i → i < k + c → nexts i ≡ i + 1)
    → nexts (k + c) ≡ 0
    → Chain nexts k (range_from k (suc c))
unfolding range_from
Chain-range_from nexts k zero pos step stop = (refl, pos, ap nexts (omega arith) ∙ stop)
Chain-range_from nexts k (suc c) pos step stop = (
  refl,
  pos,
  subst (λ h. Chain nexts h (range_from (k + 1) (suc c))) (sym (step k (omega arith) (omega arith)))
      (Chain-range_from nexts (k + 1) c (omega arith)
        (λ i lo hi. step i (omega arith) (omega arith)) (ap nexts (omega arith) ∙ stop)),
)

abbrev fresh : Links → Links
fresh nexts = update (link_slots (pool_size - 1) nexts) pool_size 0

fresh-Chain : (nexts : Links) → Chain (fresh nexts) 1 (range_from 1 pool_size)
fresh-Chain nexts =
    Chain-range_from (fresh nexts) 1 (pool_size - 1) (omega arith)
      (λ i lo hi.
        update_ne (link_slots (pool_size - 1) nexts) pool_size 0 i (λ e. omega (arith, e))
        ∙ link_slots_lem (pool_size - 1) nexts i lo (omega arith)
        ∙ omega arith)
      (update_self (link_slots (pool_size - 1) nexts) pool_size 0)

-- With the pool set up, all slots are ready for use.
set_up-Holds : (b : Buddy) (f : Free) → IsNew b f → Holds (set_up b) f
unfolding set_up
set_up-Holds b f v = record {
  init = refl;
  slots = λ o. if o == order_count then range_from 1 pool_size else [];
  lists = record {
    chain = λ o h. elim (ℕ_discrete o order_count) [
      | yes e ↦ rw e (fresh-Chain b.nexts)
      | no n ↦ rw (==_ne o order_count n) (v.no_list o)
    ];
    distinct = λ o h. elim (ℕ_discrete o order_count) [
      | yes e ↦ rw e (Distinct-range_from 1 pool_size)
      | no n ↦ rw (==_ne o order_count n) tt
    ];
    home = λ _. order_count;
    at_home = λ o h. elim (ℕ_discrete o order_count) [
      | yes e ↦
          rw e (
            All-range_from (λ _. ◌≡◌ {A = ℕ} order_count order_count) 1 pool_size (λ i lo hi. refl))
      | no n ↦ rw (==_ne o order_count n) tt
    ];
  };
  contents = λ o h. rw (==_ne o order_count (λ e. omega (arith, e)), v.empty o);
  in_pool = λ o h. elim (ℕ_discrete o order_count) [
    | yes e ↦ rw e (All-range_from (λ s. s ≤ pool_size) 1 pool_size (λ i lo hi. omega arith))
    | no n ↦ rw (==_ne o order_count n) tt
  ];
  room = omega (
    arith,
    length-range_from 1 pool_size,
    total_zero (λ o. length (f o)) order_count (λ o. ap length (v.empty o)),
  );
  counted = omega (
    arith,
    v.no_pages,
    total_zero (λ o. length (f o) * 2 ^ o) order_count
        (λ o. ap (λ l. length l * 2 ^ o) (v.empty o) ∙ omega arith),
  );
}

pub init_pool-Holds : (b : Buddy) (f : Free) → Refines b f → Holds (init_pool b) f
unfolding init_pool
init_pool-Holds b f (inl v) = subst (λ c. Holds (if c then b else set_up b) f) (sym v.init) v
init_pool-Holds b f (inr v) =
    subst (λ c. Holds (if c then b else set_up b) f) (sym v.not_init) (set_up-Holds b f v)

init_pool-total_pages : (b : Buddy) → (init_pool b).total_pages ≡ b.total_pages
unfolding init_pool set_up
init_pool-total_pages b = ground arith

insert_slot-total_pages :
    (b : Buddy) (o a x : ℕ) → (insert_slot b o a x).total_pages ≡ b.total_pages
unfolding insert_slot
insert_slot-total_pages b o a x = refl

pub new-Refines : Refines new (λ _. [])
unfolding new
new-Refines =
    inr (record { not_init = refl; empty = λ _. refl; no_list = λ _. refl; no_pages = refl })

pool_alloc-some :
    (b : Buddy) (x : ℕ)
    → b.pool_head ≡ x
    → 0 < x
    → pool_alloc b ≡ some (x, record b { pool_head = b.nexts x })
unfolding pool_alloc
pool_alloc-some b x e pos = rw (==_ne b.pool_head 0 (λ z. omega (arith, e, z)), e)

pool_alloc-none : (b : Buddy) → b.pool_head ≡ 0 → pool_alloc b ≡ none
unfolding pool_alloc
pool_alloc-none b e = ground arith

empty_of_length : (l : List ℕ) → length l ≡ 0 → l ≡ []
empty_of_length [] e = refl
empty_of_length (x ∷ l) e = absurd (omega (arith, e))

empty_head : (b : Buddy) (f : Free) (v : Holds b f) → v.slots order_count ≡ [] → b.pool_head ≡ 0
empty_head b f v e = subst (Chain b.nexts b.pool_head) e (v.lists.chain order_count (omega arith))

module _ (b : Buddy) (f : Free) (o a : ℕ) (r : Refines b f) (h : o < order_count) where
  -- A block that is pushed comes first in the list of its order, as long as the pool has room.
  pub push_block-Holds :
      blocks f < pool_size
      → (b' : Buddy) × (push_block b o a ≡ some b')
        × Holds b' (update f o (a ∷ f o))
        × (b'.total_pages ≡ b.total_pages)
  unfolding push_block
  push_block-Holds room = go (v.slots order_count) refl
    where
      v : Holds (init_pool b) f
      v = init_pool-Holds b f r

      go :
          (l : List ℕ)
          → v.slots order_count ≡ l
          → (b' : Buddy) × (push_block b o a ≡ some b')
            × Holds b' (update f o (a ∷ f o))
            × (b'.total_pages ≡ b.total_pages)
      go [] e = absurd (omega (arith, v.room, ap length e))
      go (x ∷ rest) e =
          let c : Chain (init_pool b).nexts (init_pool b).pool_head (x ∷ rest) =
            subst (Chain (init_pool b).nexts (init_pool b).pool_head) e
              (v.lists.chain order_count (omega arith)) in
          (
            insert_slot (record (init_pool b) { pool_head = (init_pool b).nexts x }) o a x,
            rw (pool_alloc-some (init_pool b) x c.0 c.1, push_block, lt→ltb o order_count h),
            insert_slot-Holds (init_pool b) f v o a x rest h e,
            insert_slot-total_pages (record (init_pool b) { pool_head = (init_pool b).nexts x }) o a
                  x
                ∙ init_pool-total_pages b,
          )

  -- On an exhausted pool the code spins for ever.
  pub push_block_exhausted : blocks f ≡ pool_size → push_block b o a ≡ none
  unfolding push_block
  push_block_exhausted full =
      let v = init_pool-Holds b f r in
      rw (
        pool_alloc-none (init_pool b) (
            empty_head (init_pool b) f v
              (empty_of_length (v.slots order_count) (omega (arith, v.room, full)))),
        push_block,
      )
