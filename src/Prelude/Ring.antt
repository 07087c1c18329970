-- ===== src/Prelude/Ring.antt =====
-- A list kept in an array of `n` slots, from the index `head` round to the index `tail`, where one
-- slot at least stays free.
use native.Mathlib.Nat.{mod-lt, mod-eq_of_lt, mod-eq-sub-mod, mod-add-mod}
use native.Mathlib.Decide.{ℕ_discrete}
use Prim.Native.Nat.{ℕ, zero, suc, ◌+◌, ◌-◌, ◌%◌, ◌<◌, ◌≤◌}
use mathlib.Core.Path.{◌≡◌, refl, ◌∙◌, sym, ap, subst}
use mathlib.Core.Logic.{◌⊎◌, inl, inr}
use mathlib.Core.List.{List, [], ◌∷◌, ◌++◌}
use native.Mathlib.Omega.{arith}
use seraph.Prelude.Tests.{ltb, Bool-cases, ltb→lt}
use seraph.Prelude.Maps.{update, update_self, update_ne}
use seraph.Prelude.Lists.{length, get_or, length-append}

pub record IsRing (n : ℕ) (ring : ℕ → ℕ) (head tail : ℕ) (xs : List ℕ) : Type 0 where
  pub head_lt : head < n
  pub room : length xs < n
  pub tail_at : tail ≡ (head + length xs) % n
  pub slots : (i : ℕ) → i < length xs → ring ((head + i) % n) ≡ get_or xs i 0

-- An index below twice the length wraps once at most.
wrap : (n k : ℕ) → k < n + n → ((k < n) × (k % n ≡ k)) ⊎ ((n ≤ k) × (k % n ≡ k - n))
wrap n k h = elim (Bool-cases (ltb k n)) [
  | inl e ↦ inl (ltb→lt k n e, mod-eq_of_lt (ltb→lt k n e))
  | inr e ↦
      inr
        (ground arith, mod-eq-sub-mod {n = k} {m = n} (ground arith) ∙ mod-eq_of_lt (ground arith))
]

get_or-append_old :
    (xs : List ℕ) (v i : ℕ) → i < length xs → get_or (xs ++ v ∷ []) i 0 ≡ get_or xs i 0
get_or-append_old [] v i h = absurd (omega arith)
get_or-append_old (x ∷ xs) v zero h = refl
get_or-append_old (x ∷ xs) v (suc i) h = get_or-append_old xs v i (omega arith)

get_or-append_new : (xs : List ℕ) (v : ℕ) → get_or (xs ++ v ∷ []) (length xs) 0 ≡ v
get_or-append_new [] v = refl
get_or-append_new (x ∷ xs) v = get_or-append_new xs v

module _ (n : ℕ) (ring : ℕ → ℕ) (head tail : ℕ) where
  pub empty-IsRing : head < n → tail ≡ head → IsRing n ring head tail []
  empty-IsRing h e = record {
    head_lt = h;
    room = omega arith;
    tail_at = e ∙ sym (mod-eq_of_lt h) ∙ ap (λ k. k % n) {x = head} {y = head + 0} (omega arith);
    slots = λ i k. absurd (omega arith);
  }

  pub push-IsRing :
      (xs : List ℕ) (v : ℕ)
      → IsRing n ring head tail xs
      → length xs + 1 < n
      → IsRing n (update ring tail v) head ((tail + 1) % n) (xs ++ v ∷ [])
  push-IsRing xs v r h = record {
    head_lt = r.head_lt;
    room = omega (arith, length-append xs (v ∷ []));
    tail_at =
        ap (λ t. (t + 1) % n) r.tail_at
        ∙ mod-add-mod (head + length xs) n 1
        ∙ ap (λ k. k % n) (omega (arith, length-append xs (v ∷ [])));
    slots = λ i k. elim (ℕ_discrete i (length xs)) [
      | yes e ↦
          subst (λ i. update ring tail v ((head + i) % n) ≡ get_or (xs ++ v ∷ []) i 0) (sym e)
            (ap (update ring tail v) (sym r.tail_at)
              ∙ update_self ring tail v
              ∙ sym (get_or-append_new xs v))
      | no ne ↦
          let lt : i < length xs = omega (arith, length-append xs (v ∷ [])) in
          update_ne ring tail v ((head + i) % n) (apart i lt)
          ∙ r.slots i lt
          ∙ sym (get_or-append_old xs v i lt)
    ];
  }
    where
      apart : (i : ℕ) → i < length xs → (head + i) % n ≡ tail → ⊥
      apart i lt e = elim (wrap n (head + i) (omega (arith, r.head_lt))) [
        | inl (p, a) ↦ elim (wrap n (head + length xs) (omega (arith, r.head_lt))) [
          | inl (q, b) ↦ omega (arith, a, b, e, r.tail_at)
          | inr (q, b) ↦ omega (arith, a, b, e, r.tail_at, r.head_lt)
        ]
        | inr (p, a) ↦ elim (wrap n (head + length xs) (omega (arith, r.head_lt))) [
          | inl (q, b) ↦ omega (arith, a, b, e, r.tail_at)
          | inr (q, b) ↦ omega (arith, a, b, e, r.tail_at)
        ]
      ]

  pub pop-IsRing :
      (x : ℕ) (xs : List ℕ)
      → IsRing n ring head tail (x ∷ xs)
      → (ring head ≡ x) × IsRing n ring ((head + 1) % n) tail xs
  pop-IsRing x xs r = (
    ap ring (sym (mod-eq_of_lt r.head_lt) ∙ ap (λ k. k % n) {x = head} {y = head + 0} (omega arith))
        ∙ r.slots 0 (omega arith),
    record {
      head_lt = mod-lt (head + 1) (omega (arith, r.head_lt));
      room = omega (arith, r.room);
      tail_at =
          r.tail_at ∙ ap (λ k. k % n) (omega arith) ∙ sym (mod-add-mod (head + 1) n (length xs));
      slots = λ i k.
          ap ring (
            mod-add-mod (head + 1) n i
            ∙ ap (λ k. k % n) {x = head + 1 + i} {y = head + suc i} (omega arith))
          ∙ r.slots (suc i) (omega arith);
    },
  )
