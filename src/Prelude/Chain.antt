-- ===== src/Prelude/Chain.antt =====
-- Singly linked lists in memory: `next` gives the link stored at each address, and 0 is the null
-- pointer. Run queues, IPC wait queues and the free lists of the buddy allocator are such lists.
use Prim.Native.Nat.{ℕ, ◌<◌}
use mathlib.Core.Path.{◌≡◌, refl, subst, sym, ap, ◌∙◌}
use mathlib.Core.Logic.{◌≢◌, inl, inr}
use mathlib.Core.Bool.{true, false≢true}
use mathlib.Core.List.{List, [], ◌∷◌, ◌++◌}
use native.Mathlib.Omega.{arith}
use seraph.Prelude.Tests.{◌==◌, if◌then◌else◌, Bool-cases, ==_iff, ==_ne}
use seraph.Prelude.Maps.{update, update_self, update_ne}
use seraph.Prelude.Lists.{All, NotIn, Distinct, erase, has, last, last-ne, has-NotIn}

abbrev pub Links : Type 0
Links = ℕ → ℕ

-- The list that starts at `h` runs through the addresses `xs` and ends in null.
abbrev pub Chain : Links → ℕ → List ℕ → Type 0
Chain next h [] = h ≡ 0
Chain next h (x ∷ xs) = (h ≡ x) × (0 < x) × Chain next (next x) xs

-- A write outside the list leaves it alone.
pub Chain-update :
    (next : Links) (k v h : ℕ) (xs : List ℕ)
    → NotIn k xs
    → Chain next h xs
    → Chain (update next k v) h xs
Chain-update next k v h [] n c = c
Chain-update next k v h (x ∷ xs) n c =
    (c.0, c.1, rw (update_ne next k v x n.0) (Chain-update next k v (next x) xs n.1 c.2))

-- A node linked behind the last one extends the list.
pub Chain-append_one :
    (next : Links) (b h : ℕ) (x : ℕ) (xs : List ℕ)
    → 0 < b
    → NotIn b (x ∷ xs)
    → Distinct (x ∷ xs)
    → next b ≡ 0
    → Chain next h (x ∷ xs)
    → Chain (update next (last (x ∷ xs)) b) h (x ∷ xs ++ b ∷ [])
Chain-append_one next b h x [] pos n d e c =
    (c.0, c.1, (update_self next x b, pos, update_ne next x b b (λ q. n.0 (sym q)) ∙ e))
Chain-append_one next b h x (y ∷ xs) pos n d e c = (
  c.0,
  c.1,
  rw (update_ne next (last (y ∷ xs)) b x (λ q. last-ne x y xs d.0 (sym q)))
      (Chain-append_one next b (next x) y xs pos n.1 d.1 e c.2),
)

-- The element in front of `t`, or `prev` if `t` comes first.
abbrev pub before : ℕ → List ℕ → ℕ → ℕ
before prev [] t = prev
before prev (x ∷ xs) t = if x == t then prev else before x xs t

pub before_ne : (prev y : ℕ) (xs : List ℕ) (t : ℕ) → y ≢ prev → NotIn y xs → y ≢ before prev xs t
before_ne prev y [] t p n = p
before_ne prev y (x ∷ xs) t p n = elim (Bool-cases (x == t)) [
  | inl e ↦ rw e p
  | inr e ↦ rw e (before_ne x y xs t (λ q. n.0 (sym q)) n.1)
]

pub before-pos :
    (next : Links) (prev h : ℕ) (xs : List ℕ) (t : ℕ)
    → 0 < prev
    → Chain next h xs
    → 0 < before prev xs t
before-pos next prev h [] t p c = p
before-pos next prev h (x ∷ xs) t p c = elim (Bool-cases (x == t)) [
  | inl e ↦ rw e p
  | inr e ↦ rw e (before-pos next x (next x) xs t c.1 c.2)
]

-- Linking the element in front of `t` to the one behind takes `t` out, at any place but the first.
pub Chain-bypass :
    (next : Links) (x : ℕ) (xs : List ℕ) (t : ℕ)
    → has t xs ≡ true
    → Distinct (x ∷ xs)
    → Chain next (next x) xs
    → let next' = update next (before x xs t) (next t) in Chain next' (next' x) (erase t xs)
Chain-bypass next x [] t e d c = cc
Chain-bypass next x (y ∷ ys) t e d c = elim (Bool-cases (y == t)) [
  | inl q ↦ rw (q, update_self next x (next t)) (front ((==_iff y t).0 q))
  | inr q ↦
      rw
        (
          q,
          update_ne next (before y ys t) (next t) x (before_ne y x ys t (λ r. d.0.0 (sym r)) d.0.1),
        )
        (c.0, c.1, Chain-bypass next y ys t (rw q at e) d.1 c.2)
]
  where
    front : y ≡ t → Chain (update next x (next t)) (next t) ys
    front q =
        Chain-update next x (next t) (next t) ys d.0.1 (subst (λ k. Chain next (next k) ys) q c.2)

pub All-before {κ} :
    (P : ℕ → Type κ) (prev : ℕ) (xs : List ℕ) (t : ℕ) → P prev → All P xs → P (before prev xs t)
All-before P prev [] t p h = p
All-before P prev (x ∷ xs) t p h = elim (Bool-cases (x == t)) [
  | inl e ↦ rw e p
  | inr e ↦ rw e (All-before P x xs t h.0 h.1)
]

-- Null is in no list.
pub Chain-NotIn_zero : (next : Links) (h : ℕ) (xs : List ℕ) → Chain next h xs → NotIn 0 xs
Chain-NotIn_zero next h [] c = tt
Chain-NotIn_zero next h (x ∷ xs) c =
    (λ e. omega (arith, e, c.1), Chain-NotIn_zero next (next x) xs c.2)

-- Lists whose elements live in different places share no element.
pub homes_apart :
    (home : ℕ → ℕ) (p q : ℕ) (xs ys : List ℕ)
    → p ≢ q
    → All (λ x. home x ≡ p) xs
    → All (λ x. home x ≡ q) ys
    → All (λ x. NotIn x ys) xs
homes_apart home p q [] ys n a b = tt
homes_apart home p q (x ∷ xs) ys n a b = (go ys b, homes_apart home p q xs ys n a.1 b)
  where
    go : (ys : List ℕ) → All (λ y. home y ≡ q) ys → NotIn x ys
    go [] b = tt
    go (y ∷ ys) b = (λ e. n (sym a.0 ∙ ap home (sym e) ∙ b.0), go ys b.1)

-- A new home for one thread leaves that of the others.
pub rehome :
    (home : ℕ → ℕ) (tcb p q : ℕ) (xs : List ℕ)
    → NotIn tcb xs
    → All (λ x. home x ≡ q) xs
    → All (λ x. update home tcb p x ≡ q) xs
rehome home tcb p q [] n a = tt
rehome home tcb p q (x ∷ xs) n a =
    (update_ne home tcb p x n.0 ∙ a.0, rehome home tcb p q xs n.1 a.1)

-- Taking an element out, at any place: the links, and the new head.
pub Chain-remove :
    (next : Links) (h : ℕ) (xs : List ℕ) (t : ℕ)
    → Chain next h xs
    → has t xs ≡ true
    → Distinct xs
    → let b = before 0 xs t in
      Chain
        (if b == 0 then next else update next b (next t))
        (if b == 0 then next t else h)
        (erase t xs)
Chain-remove next h [] t c e d = elim (false≢true e) [ ]
Chain-remove next h (x ∷ xs) t c e d = elim (Bool-cases (x == t)) [
  | inl q ↦ rw q (subst (λ k. Chain next (next k) xs) ((==_iff x t).0 q) c.2)
  | inr q ↦ rw q (later (rw q at e) (before x xs t) refl)
]
  where
    later :
        has t xs ≡ true
        → (b : ℕ) → b ≡ before x xs t
        → Chain
            (if b == 0 then next else update next b (next t))
            (if b == 0 then next t else h)
            (x ∷ erase t xs)
    later e b same =
        let bypassed = Chain-bypass next x xs t e d c.2 in
        let pos = before-pos next x (next x) xs t c.1 c.2 in
        subst
          (λ z.
            Chain (if z then next else update next b (next t)) (if z then next t else h)
              (x ∷ erase t xs))
          (sym (==_ne b 0 (λ z. omega (arith, z, same, pos))))
          (
            c.0,
            c.1,
            subst (λ b. let n = update next b (next t) in Chain n (n x) (erase t xs)) (sym same)
                bypassed,
          )

pub Chain-has-pos :
    (next : Links) (h x : ℕ) (xs : List ℕ) → Chain next h xs → has x xs ≡ true → 0 < x
Chain-has-pos next h x xs c e = pos_of_ne x (λ z.
    false≢true
      (sym (has-NotIn 0 xs (Chain-NotIn_zero next h xs c)) ∙ ap (λ k. has k xs) (sym z) ∙ e))
  where
    pos_of_ne : (x : ℕ) → x ≢ 0 → 0 < x
    pos_of_ne x n = omega arith
