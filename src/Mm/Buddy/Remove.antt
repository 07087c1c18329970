-- ===== src/Mm/Buddy/Remove.antt =====
-- `remove_block`: the search for the slot that holds an address.
use seraph.Prelude.{
  ℕ, zero, suc, ◌+◌, ◌<◌, ◌≤◌, ◌≡◌, ◌≢◌, inl, inr, refl, sym, ◌∙◌, ap, subst, Bool, true, false,
  false≢true, ◌||◌, some, List, [], ◌∷◌, map, arith, ◌==◌, if◌then◌else◌, ==_refl, ==_ne,
  Bool-cases, update, length, NotIn, Distinct, erase, has, All-has, NotIn-not_has, erase-NotIn,
}
use seraph.Prelude.Chain.{Chain, before}
use seraph.Mm.Buddy.{Buddy, order_count, pool_size, unlink, remove_from, remove_block}
use seraph.Mm.Buddy.Blocks.{Free, Holds, heads-order, length-map}
use seraph.Mm.Buddy.Take.{length-le-blocks, Holds-same, fields-unlink, unlink-Holds}

-- The first slot of the list that holds the address.
slot_of : (ℕ → ℕ) → ℕ → List ℕ → ℕ
slot_of addrs t [] = 0
slot_of addrs t (x ∷ xs) = if addrs x == t then x else slot_of addrs t xs

slot_of_hit :
    (addrs : ℕ → ℕ) (t x : ℕ) (xs : List ℕ) → (addrs x == t) ≡ true → slot_of addrs t (x ∷ xs) ≡ x
unfolding slot_of
slot_of_hit addrs t x xs e = rw e

slot_of_miss :
    (addrs : ℕ → ℕ) (t x : ℕ) (xs : List ℕ)
    → (addrs x == t) ≡ false
    → slot_of addrs t (x ∷ xs) ≡ slot_of addrs t xs
unfolding slot_of
slot_of_miss addrs t x xs e = rw e

has-slot_of :
    (addrs : ℕ → ℕ) (t : ℕ) (xs : List ℕ)
    → has t (map addrs xs) ≡ true
    → has (slot_of addrs t xs) xs ≡ true
has-slot_of addrs t [] e = elim (false≢true e) [ ]
has-slot_of addrs t (x ∷ xs) e = elim (Bool-cases (addrs x == t)) [
  | inl q ↦ rw (slot_of_hit addrs t x xs q, ==_refl x)
  | inr q ↦
      subst (λ s. has s (x ∷ xs) ≡ true) (sym (slot_of_miss addrs t x xs q))
        (rw (has-slot_of addrs t xs (rw q at e)) (or_true (x == slot_of addrs t xs)))
]
  where
    or_true : (b : Bool) → (b || true) ≡ true
    or_true true = refl
    or_true false = refl

slot_of_ne :
    (addrs : ℕ → ℕ) (t x : ℕ) (xs : List ℕ)
    → NotIn x xs
    → has t (map addrs xs) ≡ true
    → (x == slot_of addrs t xs) ≡ false
slot_of_ne addrs t x xs n e =
    ==_ne x (slot_of addrs t xs)
      (λ z. All-has (λ y. y ≢ x) (slot_of addrs t xs) xs n (has-slot_of addrs t xs e) (sym z))

erase-slot_of :
    (addrs : ℕ → ℕ) (t : ℕ) (xs : List ℕ)
    → Distinct xs
    → has t (map addrs xs) ≡ true
    → map addrs (erase (slot_of addrs t xs) xs) ≡ erase t (map addrs xs)
erase-slot_of addrs t [] d e = refl
erase-slot_of addrs t (x ∷ xs) d e = elim (Bool-cases (addrs x == t)) [
  | inl q ↦ rw (slot_of_hit addrs t x xs q, q, ==_refl x)
  | inr q ↦
      subst (λ s. map addrs (erase s (x ∷ xs)) ≡ erase t (map addrs (x ∷ xs)))
        (sym (slot_of_miss addrs t x xs q))
        (rw (q, slot_of_ne addrs t x xs d.0 (rw q at e))
          (ap (λ l. addrs x ∷ l) (erase-slot_of addrs t xs d.1 (rw q at e))))
]

-- With fuel for the list, the loop stops at the first slot that holds the address.
remove_from_lem :
    (fuel : ℕ) (b : Buddy) (o t prev cur : ℕ) (xs : List ℕ)
    → length xs < fuel
    → Chain b.nexts cur xs
    → Distinct xs
    → let s = slot_of b.addrs t xs in
      remove_from fuel b o t prev cur ≡ (
        if has t (map b.addrs xs)
        then some (true, unlink b o (before prev xs s) s)
        else some (false, b))
unfolding remove_from
remove_from_lem zero b o t prev cur xs f c d = absurd (omega arith)
remove_from_lem (suc fuel) b o t prev cur [] f c d = rw c
remove_from_lem (suc fuel) b o t prev cur (x ∷ xs) f c d =
    rw (c.0, ==_ne x 0 (λ z. omega (arith, z, c.1)))
      (elim (Bool-cases (b.addrs x == t)) [
        | inl q ↦ rw (slot_of_hit b.addrs t x xs q, q, ==_refl x)
        | inr q ↦
            let ih = remove_from_lem fuel b o t x (b.nexts x) xs (omega arith) c.2 d.1 in
            rw (slot_of_miss b.addrs t x xs q, q)
              (elim (Bool-cases (has t (map b.addrs xs))) [
                | inl e ↦ rw (slot_of_ne b.addrs t x xs d.0 e) ih
                | inr e ↦ rw e (rw e at ih)
              ])
      ])

slots-lt :
    (b : Buddy) (f : Free) (v : Holds b f) (o : ℕ)
    → o < order_count
    → length (v.slots o) ≤ pool_size
slots-lt b f v o h = omega (
  arith,
  v.room,
  ap length (v.contents o h),
  length-map b.addrs (v.slots o),
  length-le-blocks f o h,
)

-- `remove_block` says whether the block is free, takes it out, and keeps the others in order.
pub remove_block-Holds :
    (b : Buddy) (f : Free) (o t : ℕ)
    → Holds b f
    → o < order_count
    → (b' : Buddy) × (remove_block b o t ≡ some (has t (f o), b'))
      × Holds b' (update f o (erase t (f o)))
      × (b'.total_pages ≡ b.total_pages)
unfolding remove_block
remove_block-Holds b f o t v h =
    let s = slot_of b.addrs t (v.slots o) in
    let run =
      remove_from_lem (pool_size + 1) b o t 0 (b.free_lists o) (v.slots o)
        (omega (arith, slots-lt b f v o h))
        (subst (λ k. Chain b.nexts k (v.slots o)) (heads-order b o h)
          (v.lists.chain o (omega arith)))
        (v.lists.distinct o (omega arith)) in
    elim (Bool-cases (has t (map b.addrs (v.slots o)))) [
      | inl e ↦
          let here = has-slot_of b.addrs t (v.slots o) e in
          (
            unlink b o (before 0 (v.slots o) s) s,
            run ∙ rw (e, ← v.contents o h, e),
            subst (λ l. Holds (unlink b o (before 0 (v.slots o) s) s) (update f o l))
                (erase-slot_of b.addrs t (v.slots o) (v.lists.distinct o (omega arith)) e
                  ∙ ap (erase t) (v.contents o h))
                (unlink-Holds b f v o s h here),
            (fields-unlink b f v o s h here).3,
          )
      | inr e ↦ (
        b,
        run ∙ rw (e, ← v.contents o h, e),
        Holds-same b f o v (erase-NotIn t (f o) (NotIn-not_has t (f o) (rw (v.contents o h) at e))),
        refl,
      )
    ]
