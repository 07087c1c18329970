-- ===== src/Mm/Buddy/Blocks.antt =====
-- The allocator seen as lists of free blocks, and what the operations on its lists do to them.
use native.Mathlib.Decide.{ℕ_discrete}
use seraph.Prelude.{
  ℕ, suc, ◌+◌, ◌*◌, ◌^◌, ◌<◌, ◌≤◌, ◌≡◌, ◌⊎◌, refl, ◌∙◌, ap, ap₂, subst, true, false, List, [], ◌∷◌,
  map, arith, ◌==◌, if◌then◌else◌, ==_refl, ==_ne, update, update_self, update_ne, length, NotIn,
  has, All, All-has,
}
use seraph.Prelude.Sum.{total, total_change}
use seraph.Prelude.Bits.{pow_mono}
use seraph.Mm.Buddy.{Buddy, order_count, pool_size, insert_slot}
use seraph.Mm.Buddy.Places.{Lists, Lists-heads, move_front, not_in}

-- The addresses of the free blocks of each order, the next to be given out first.
abbrev pub Free : Type 0
Free = ℕ → List ℕ

-- How many blocks, and how many pages in them.
abbrev pub blocks : Free → ℕ
blocks f = total (λ o. length (f o)) order_count

abbrev pub pages : Free → ℕ
pages f = total (λ o. length (f o) * 2 ^ o) order_count

-- The slots that are not in use stand at place 11, behind the orders.
abbrev pub heads : Buddy → ℕ → ℕ
heads b o = if o == order_count then b.pool_head else b.free_lists o

-- The allocator, its pool set up, holds the free blocks: each slot of the pool stands in one list,
-- and the counter is right.
pub record Holds (b : Buddy) (f : Free) : Type 0 where
  pub init : b.pool_init ≡ true
  pub slots : ℕ → List ℕ
  pub lists : Lists (order_count + 1) (heads b) b.nexts slots
  pub contents : (o : ℕ) → o < order_count → map b.addrs (slots o) ≡ f o
  pub in_pool : (o : ℕ) → o < order_count + 1 → All (λ s. s ≤ pool_size) (slots o)
  pub room : length (slots order_count) + blocks f ≡ pool_size
  pub counted : b.free_pages ≡ pages f

-- Before the first block comes in, the pool is not set up.
pub record IsNew (b : Buddy) (f : Free) : Type 0 where
  pub not_init : b.pool_init ≡ false
  pub empty : (o : ℕ) → f o ≡ []
  pub no_list : (o : ℕ) → b.free_lists o ≡ 0
  pub no_pages : b.free_pages ≡ 0

-- The allocator holds the free blocks, its pool set up or not.
abbrev pub Refines : Buddy → Free → Type 0
Refines b f = Holds b f ⊎ IsNew b f

-- The number of pages in free blocks is far below the size of a word.
pub pages-le : (f : Free) → pages f ≤ 1024 * blocks f
unfolding total
pages-le f = omega arith

pub blocks-le : {b : Buddy} {f : Free} → Holds b f → blocks f ≤ pool_size
blocks-le v = omega (arith, v.room)

pub length-map : (g : ℕ → ℕ) (xs : List ℕ) → length (map g xs) ≡ length xs
length-map g [] = refl
length-map g (x ∷ xs) = ap suc (length-map g xs)

pub map-update : (g : ℕ → ℕ) (x a : ℕ) (xs : List ℕ) → NotIn x xs → map (update g x a) xs ≡ map g xs
map-update g x a [] n = refl
map-update g x a (y ∷ xs) n = ap₂ ◌∷◌ (update_ne g x a y n.0) (map-update g x a xs n.1)

pub blocks-push :
    (f : Free) (o a : ℕ) → o < order_count → blocks (update f o (a ∷ f o)) ≡ blocks f + 1
blocks-push f o a h = omega (
  arith,
  total_change (λ o. length (f o)) (λ k. length (update f o (a ∷ f o) k)) o
      (λ k ne. ap length (update_ne f o (a ∷ f o) k ne)) order_count h,
  ap length (update_self f o (a ∷ f o)),
)

pub pages-push :
    (f : Free) (o a : ℕ) → o < order_count → pages (update f o (a ∷ f o)) ≡ pages f + 2 ^ o
pages-push f o a h = omega (
  arith,
  total_change (λ o. length (f o) * 2 ^ o) (λ k. length (update f o (a ∷ f o) k) * 2 ^ k) o
      (λ k ne. ap (λ l. length l * 2 ^ k) (update_ne f o (a ∷ f o) k ne)) order_count h,
  ap (λ l. length l * 2 ^ o) (update_self f o (a ∷ f o)),
)

-- A list replaced by one that is shorter by one.
pub blocks-drop :
    (f : Free) (o : ℕ) (xs : List ℕ)
    → o < order_count
    → length xs + 1 ≡ length (f o)
    → blocks (update f o xs) + 1 ≡ blocks f
blocks-drop f o xs h e = omega (
  arith,
  total_change (λ o. length (f o)) (λ k. length (update f o xs k)) o
      (λ k ne. ap length (update_ne f o xs k ne)) order_count h,
  ap length (update_self f o xs),
  e,
)

pub pages-drop :
    (f : Free) (o : ℕ) (xs : List ℕ)
    → o < order_count
    → length xs + 1 ≡ length (f o)
    → pages (update f o xs) + 2 ^ o ≡ pages f
pages-drop f o xs h e = omega (
  arith,
  total_change (λ o. length (f o) * 2 ^ o) (λ k. length (update f o xs k) * 2 ^ k) o
      (λ k ne. ap (λ l. length l * 2 ^ k) (update_ne f o xs k ne)) order_count h,
  ap (λ l. length l * 2 ^ o) (update_self f o xs),
  ap (λ (n : ℕ). n * 2 ^ o) e,
)

pub heads-order : (b : Buddy) (o : ℕ) → o < order_count → heads b o ≡ b.free_lists o
heads-order b o h = rw (==_ne o order_count (λ e. omega (arith, e)))

pub order-le : (o : ℕ) → o < order_count → 2 ^ o ≤ 1024
order-le o h = pow_mono o 10 (omega arith)

-- Lists at places, one of them replaced by a list of which the same holds.
module _ {κ} (P : ℕ → Type κ) (slots : ℕ → List ℕ) (i j x : ℕ) (rest : List ℕ) where
  pub All-move :
      ((o : ℕ) → o < order_count + 1 → All P (slots o))
      → i < order_count + 1
      → j < order_count + 1
      → has x (slots i) ≡ true
      → All P rest
      → (o : ℕ) → o < order_count + 1
      → All P (update (update slots i rest) j (x ∷ slots j) o)
  All-move all hi hj here hr o ho = elim (ℕ_discrete o j) [
    | yes e ↦ rw (e, ==_refl j) (All-has P x (slots i) (all i hi) here, all j hj)
    | no n ↦ rw (==_ne o j n) (elim (ℕ_discrete o i) [
      | yes e ↦ rw (e, ==_refl i) hr
      | no m ↦ rw (==_ne o i m) (all o ho)
    ])
  ]

module _ (b : Buddy) (f : Free) (v : Holds b f) (o a x : ℕ) (rest : List ℕ) (h : o < order_count)
    (e : v.slots order_count ≡ x ∷ rest) where
  heads-insert :
      (k : ℕ)
      → heads (insert_slot (record b { pool_head = b.nexts x }) o a x) k
        ≡ update (update (heads b) order_count (b.nexts x)) o x k
  unfolding insert_slot
  heads-insert k = elim (ℕ_discrete k order_count) [
    | yes q ↦ rw (q, ==_ne order_count o (λ z. omega (arith, z)))
    | no n ↦ rw (==_ne k order_count n)
  ]

  contents-insert :
      (k : ℕ)
      → k < order_count
      → map (update b.addrs x a) (update (update v.slots order_count rest) o (x ∷ v.slots o) k)
        ≡ update f o (a ∷ f o) k
  contents-insert k hk =
      let out = λ (k : ℕ) (hk : k < order_count).
        map-update b.addrs x a (v.slots k) (
          not_in 12 (heads b) b.nexts v.slots v.lists order_count o x (omega arith) (omega arith)
            (λ z. omega (arith, z)) (rw (e, ==_refl x)) k (omega arith) (λ z. omega (arith, z)))
        ∙ v.contents k hk in
      elim (ℕ_discrete k o) [
        | yes q ↦ rw (q, ==_refl o) (ap₂ ◌∷◌ (update_self b.addrs x a) (out o h))
        | no n ↦ rw (==_ne k o n, ==_ne k order_count (λ z. omega (arith, z))) (out k hk)
      ]

  -- A block goes into the first slot that is not in use.
  pub insert_slot-Holds :
      Holds (insert_slot (record b { pool_head = b.nexts x }) o a x) (update f o (a ∷ f o))
  unfolding insert_slot
  insert_slot-Holds = record {
    init = v.init;
    slots = update (update v.slots order_count rest) o (x ∷ v.slots o);
    lists =
        Lists-heads _ _ _ _ _ (λ k _. heads-insert k)
          (subst
            (λ l.
              Lists (order_count + 1) (update (update (heads b) order_count (b.nexts x)) o x)
                (update b.nexts x l) (update (update v.slots order_count rest) o (x ∷ v.slots o)))
            (heads-order b o h)
            (move_front (order_count + 1) (heads b) b.nexts v.slots order_count o x rest v.lists
              (omega arith) (omega arith) (λ z. omega (arith, z)) e));
    contents = contents-insert;
    in_pool =
        All-move (λ s. s ≤ pool_size) v.slots order_count o x rest v.in_pool (omega arith)
          (omega arith) (rw (e, ==_refl x))
          (subst (All (λ s. s ≤ pool_size)) e (v.in_pool order_count (omega arith))).1;
    room =
        rw (==_ne order_count o (λ z. omega (arith, z)))
          (omega (arith, v.room, ap length e, blocks-push f o a h));
    counted = omega (arith, v.counted, v.room, pages-push f o a h, pages-le f, order-le o h);
  }
