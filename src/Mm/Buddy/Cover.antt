-- ===== src/Mm/Buddy/Cover.antt =====
-- Which addresses the free blocks cover. The counts are of blocks, so that an address counted
-- twice would show.
use native.Mathlib.Decide.{ℕ_discrete}
use native.Mathlib.Nat.{two-pow-succ}
use seraph.Prelude.{
  ℕ, suc, ◌+◌, ◌*◌, ◌^◌, ◌<◌, ◌≤◌, ◌≡◌, inl, inr, ap, true, false≢true, ◌&&◌, List, [], ◌∷◌, arith,
  ◌==◌, ltb, leb, if◌then◌else◌, ==_iff, ==_refl, ==_ne, Bool-cases, update, update_self, update_ne,
  erase, has, All,
}
use seraph.Prelude.Sum.{total, total_change}
use seraph.Mm.Buddy.{order_count, block_size}
use seraph.Mm.Buddy.Blocks.{Free}

-- 1 if the address lies in the block, else 0.
abbrev pub inside : ℕ → ℕ → ℕ → ℕ
inside a o x = if leb a x && ltb x (a + block_size o) then 1 else 0

-- How many blocks of the list cover the address.
pub count_in : ℕ → ℕ → List ℕ → ℕ
count_in o x [] = 0
count_in o x (a ∷ rest) = inside a o x + count_in o x rest

-- How many free blocks cover the address.
abbrev pub cover : Free → ℕ → ℕ
cover f x = total (λ o. count_in o x (f o)) order_count

-- A block starts at a multiple of its size, and ends within the address space.
abbrev pub IsBlock : ℕ → ℕ → Type 0
IsBlock o a = ((q : ℕ) × (a ≡ q * block_size o)) × (a + block_size o ≤ 2 ^ 64)

abbrev pub AllBlocks : Free → Type 0
AllBlocks f = (o : ℕ) → o < order_count → All (IsBlock o) (f o)

cover-update :
    (f : Free) (o : ℕ) (l : List ℕ) (x : ℕ)
    → o < order_count
    → cover (update f o l) x + count_in o x (f o) ≡ cover f x + count_in o x l
cover-update f o l x h = omega (
  arith,
  total_change (λ k. count_in k x (f k)) (λ k. count_in k x (update f o l k)) o
      (λ k n. ap (count_in k x) (update_ne f o l k n)) order_count h,
  ap (count_in o x) (update_self f o l),
)

pub cover-push :
    (f : Free) (o a x : ℕ)
    → o < order_count
    → cover (update f o (a ∷ f o)) x ≡ cover f x + inside a o x
unfolding count_in
cover-push f o a x h = omega (arith, cover-update f o (a ∷ f o) x h)

pub cover-pop :
    (f : Free) (o a x : ℕ) (rest : List ℕ)
    → o < order_count
    → f o ≡ a ∷ rest
    → cover (update f o rest) x + inside a o x ≡ cover f x
unfolding count_in
cover-pop f o a x rest h e = omega (arith, cover-update f o rest x h, ap (count_in o x) e)

count_in-erase :
    (o x t : ℕ) (l : List ℕ)
    → has t l ≡ true
    → count_in o x (erase t l) + inside t o x ≡ count_in o x l
unfolding count_in
count_in-erase o x t [] e = elim (false≢true e) [ ]
count_in-erase o x t (a ∷ l) e = elim (Bool-cases (a == t)) [
  | inl q ↦ rw q (omega (arith, ap (λ k. inside k o x) ((==_iff a t).0 q)))
  | inr q ↦ rw q (omega (arith, count_in-erase o x t l (rw q at e)))
]

pub cover-erase :
    (f : Free) (o t x : ℕ)
    → o < order_count
    → has t (f o) ≡ true
    → cover (update f o (erase t (f o))) x + inside t o x ≡ cover f x
cover-erase f o t x h e =
    omega (arith, cover-update f o (erase t (f o)) x h, count_in-erase o x t (f o) e)

pub AllBlocks-update :
    (f : Free) (o : ℕ) (l : List ℕ) → AllBlocks f → All (IsBlock o) l → AllBlocks (update f o l)
AllBlocks-update f o l all here k h = elim (ℕ_discrete k o) [
  | yes e ↦ rw (e, ==_refl o) here
  | no n ↦ rw (==_ne k o n) (all k h)
]

-- Two halves make a block of the next order.
pub inside-halves : (a o x : ℕ) → inside a o x + inside (a + block_size o) o x ≡ inside a (suc o) x
inside-halves a o x = ground (arith, two-pow-succ o)

pub halves-IsBlock : (o a : ℕ) → IsBlock (suc o) a → IsBlock o a × IsBlock o (a + block_size o)
halves-IsBlock o a ((q, e), h) =
    let double = ap (λ (t : ℕ). q * (4096 * t)) (two-pow-succ o) in
    (
      ((q * 2, omega (arith, e, double)), omega (arith, h, two-pow-succ o)),
      ((q * 2 + 1, omega (arith, e, double)), omega (arith, h, two-pow-succ o)),
    )
