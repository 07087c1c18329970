-- ===== src/Cap/CSpace/Free.antt =====
-- The free list of a capability space, and what makes a capability space well-formed.
use native.Mathlib.Decide.{ℕ_discrete}
use seraph.Prelude.{
  ℕ, zero, suc, ◌+◌, ◌-◌, ◌*◌, ◌≤◌, ◌<◌, ◌≡◌, ◌≢◌, ◌⊎◌, inl, inr, refl, sym, ◌∙◌, ap, subst, Bool,
  true, false, Option, none, some, List, [], ◌∷◌, arith, ◌==◌, if-false, ==_ne, update, update_self,
  update_ne, length, All, NotIn, Distinct, has, erase, All-erase, NotIn-erase_self, length-erase,
  Distinct-erase, NotIn-not_has, Bool-cases,
}
use seraph.Cap.Slot.{CapabilitySlot, null_slot, is_null, set_next_free, next_free}
use seraph.Cap.CSpace.{CSpace, position, thread}

abbrev pub Slots : Type 0
Slots = ℕ → CapabilitySlot

-- The list that starts at `h` runs through the null slots `xs`.
abbrev pub FreeList : Slots → Option ℕ → List ℕ → Type 0
FreeList slots h [] = h ≡ none
FreeList slots h (x ∷ xs) =
    (h ≡ some x) × (0 < x) × (is_null (slots x) ≡ true) × FreeList slots (next_free (slots x)) xs

-- The first `n` pages are there, and the slots `xs` are free, next one first.
pub record Valid (cs : CSpace) (n : ℕ) (xs : List ℕ) : Type 0 where
  pub mapped : (p : ℕ) → p < n → cs.directory p ≡ true
  pub unmapped : (p : ℕ) → n ≤ p → cs.directory p ≡ false
  pub pages : n ≤ 256
  pub in_pages : cs.allocated_slots ≤ n * 64 - 1
  pub in_quota : cs.allocated_slots ≤ cs.max_slots
  pub at_limit : (cs.allocated_slots ≡ n * 64 - 1) ⊎ (cs.allocated_slots ≡ cs.max_slots)
  pub zero_slot : 0 < n → is_null (cs.slots 0) ≡ true
  pub free : FreeList cs.slots cs.free_head xs
  pub counted : cs.free_count ≡ length xs
  pub places : All (λ x. x ≤ cs.allocated_slots) xs
  pub distinct : Distinct xs

-- Every null slot in use is on the free list.
abbrev pub Exact : CSpace → List ℕ → Type 0
Exact cs xs =
    (i : ℕ) → 0 < i → i ≤ cs.allocated_slots → is_null (cs.slots i) ≡ true → NotIn i xs → ⊥

pub FreeList-pos :
    (slots : Slots) (h : Option ℕ) (xs : List ℕ) → FreeList slots h xs → All (λ x. 0 < x) xs
FreeList-pos slots h [] v = tt
FreeList-pos slots h (x ∷ xs) v = (v.1, FreeList-pos slots (next_free (slots x)) xs v.3)

pub FreeList-agree :
    (slots slots' : Slots) (h : Option ℕ) (xs : List ℕ)
    → All (λ x. slots' x ≡ slots x) xs
    → FreeList slots h xs
    → FreeList slots' h xs
FreeList-agree slots slots' h [] a v = v
FreeList-agree slots slots' h (x ∷ xs) a v = (
  v.0,
  v.1,
  ap is_null a.0 ∙ v.2,
  FreeList-agree slots slots' (next_free (slots' x)) xs a.1
      (subst (λ s. FreeList slots (next_free s) xs) (sym a.0) v.3),
)

-- A slot that is not free can be written.
pub FreeList-update :
    (slots : Slots) (k : ℕ) (s : CapabilitySlot) (h : Option ℕ) (xs : List ℕ)
    → NotIn k xs
    → FreeList slots h xs
    → FreeList (update slots k s) h xs
FreeList-update slots k s h xs n v = FreeList-agree slots (update slots k s) h xs (same xs n) v
  where
    same : (xs : List ℕ) → NotIn k xs → All (λ x. update slots k s x ≡ slots x) xs
    same [] n = tt
    same (x ∷ xs) n = (update_ne slots k s x n.0, same xs n.1)

-- A head that can be stored: the free list never names slot 0.
pub set_next_free-some :
    (slots : Slots) (h : Option ℕ) (xs : List ℕ)
    → FreeList slots h xs
    → (s : CapabilitySlot) × (set_next_free h ≡ some s) × (is_null s ≡ true) × (next_free s ≡ h)
set_next_free-some slots none xs v = (null_slot, refl, refl, refl)
set_next_free-some slots (some i) [] v = cc
set_next_free-some slots (some i) (x ∷ xs) v = (
  record null_slot { deriv_parent = some (record { cspace_id = 0; index = i }) },
  if-false _ _ (i == 0) (==_ne i 0 (λ z. omega (arith, z, v.1, some-injective v.0))),
  refl,
  refl,
)
  where
    some-injective : {a b : ℕ} → some a ≡ some b → a ≡ b
    some-injective e = cc

-- The `n` slots from `first` on in front of the list.
abbrev pub run : ℕ → ℕ → List ℕ → List ℕ
run first zero xs = xs
run first (suc n) xs = run first n ((first + n) ∷ xs)

pub length-run : (first n : ℕ) (xs : List ℕ) → length (run first n xs) ≡ n + length xs
length-run first zero xs = omega arith
length-run first (suc n) xs = omega (arith, length-run first n ((first + n) ∷ xs))

pub All-run {κ} :
    (P : ℕ → Type κ) (first n : ℕ) (xs : List ℕ)
    → ((i : ℕ) → first ≤ i → i < first + n → P i)
    → All P xs
    → All P (run first n xs)
All-run P first zero xs h a = a
All-run P first (suc n) xs h a =
    All-run P first n ((first + n) ∷ xs) (λ i lo hi. h i lo (omega arith))
      (h (first + n) (omega arith) (omega arith), a)

-- Only the slots of the run and of the list are not outside.
pub NotIn-run :
    (i first n : ℕ) (xs : List ℕ)
    → NotIn i (run first n xs)
    → NotIn i xs × ((k : ℕ) → first ≤ k → k < first + n → k ≢ i)
NotIn-run i first zero xs h = (h, λ k lo hi. absurd (omega arith))
NotIn-run i first (suc n) xs h =
    let (rest, out) = NotIn-run i first n ((first + n) ∷ xs) h in
    (
      rest.1,
      λ k lo hi. elim (ℕ_discrete k (first + n)) [
        | yes e ↦ λ q. rest.0 (sym e ∙ q)
        | no e ↦ out k lo (omega arith)
      ],
    )

pub All-weaken {κ μ} :
    (P : ℕ → Type κ) (Q : ℕ → Type μ) (xs : List ℕ) → ((x : ℕ) → P x → Q x) → All P xs → All Q xs
All-weaken P Q [] f a = tt
All-weaken P Q (x ∷ xs) f a = (f x a.0, All-weaken P Q xs f a.1)

pub All-both {κ μ} :
    (P : ℕ → Type κ) (Q : ℕ → Type μ) (xs : List ℕ) → All P xs → All Q xs → All (λ x. P x × Q x) xs
All-both P Q [] a b = tt
All-both P Q (x ∷ xs) a b = ((a.0, b.0), All-both P Q xs a.1 b.1)

pub Distinct-run :
    (first n : ℕ) (xs : List ℕ) → All (λ x. x < first) xs → Distinct xs → Distinct (run first n xs)
Distinct-run first n xs a d = go n xs (All-weaken _ _ xs (λ x h. inl h) a) d
  where
    go :
        (n : ℕ) (xs : List ℕ)
        → All (λ x. (x < first) ⊎ (first + n ≤ x)) xs
        → Distinct xs
        → Distinct (run first n xs)
    go zero xs a d = d
    go (suc n) xs a d =
        go n ((first + n) ∷ xs) (inr (omega arith), All-weaken _ _ xs (λ x h. omega (arith, h)) a)
          (All-weaken _ _ xs (λ x h e. omega (arith, h, e)) a, d)

pub position_lem :
    (directory : ℕ → Bool) (n p m : ℕ)
    → ((q : ℕ) → q < n → directory q ≡ true)
    → directory n ≡ false
    → p ≤ n
    → n < p + m
    → position directory p m ≡ some n
unfolding position
position_lem directory n p zero t f lo hi = absurd (omega arith)
position_lem directory n p (suc m) t f lo hi = elim (ℕ_discrete p n) [
  | yes e ↦ rw (e, f) refl
  | no e ↦
      rw (t p (omega arith)) (position_lem directory n (p + 1) m t f (omega arith) (omega arith))
]

pub position-none :
    (directory : ℕ → Bool) (n p m : ℕ)
    → ((q : ℕ) → q < n → directory q ≡ true)
    → p + m ≤ n
    → position directory p m ≡ none
unfolding position
position-none directory n p zero t h = refl
position-none directory n p (suc m) t h =
    rw (t p (omega arith)) (position-none directory n (p + 1) m t (omega arith))

-- What threading `n` slots gives.
pub record Threads (slots : Slots) (first n : ℕ) (next : Option ℕ) (xs : List ℕ) (slots' : Slots)
    (head : Option ℕ) : Type 0 where
  pub returns : thread slots first n next ≡ some (slots', head)
  pub free : FreeList slots' head (run first n xs)
  pub others : (i : ℕ) → (i < first) ⊎ (first + n ≤ i) → slots' i ≡ slots i
  pub nulls : (i : ℕ) → first ≤ i → i < first + n → is_null (slots' i) ≡ true

thread-step :
    (slots : Slots) (first n : ℕ) (next : Option ℕ) (s : CapabilitySlot)
    → set_next_free next ≡ some s
    → thread slots first (suc n) next
      ≡ thread (update slots (first + n) s) first n (some (first + n))
unfolding thread
thread-step slots first n next s e = rw (e, thread) refl

pub thread-Threads :
    (slots : Slots) (first n : ℕ) (next : Option ℕ) (xs : List ℕ)
    → 0 < first
    → FreeList slots next xs
    → All (λ x. (x < first) ⊎ (first + n ≤ x)) xs
    → (slots' : Slots) × (head : Option ℕ) × Threads slots first n next xs slots' head
unfolding thread
thread-Threads slots first zero next xs pos v a = (
  slots,
  next,
  record {
    returns = refl;
    free = v;
    others = λ i h. refl;
    nulls = λ i lo hi. absurd (omega arith);
  },
)
thread-Threads slots first (suc n) next xs pos v a =
    let (s, e, s_null, s_next) = set_next_free-some slots next xs v in
    let slots1 : Slots = update slots (first + n) s in
    let self = update_self slots (first + n) s in
    let apart : NotIn (first + n) xs = All-weaken _ _ xs (λ x h q. omega (arith, h, q)) a in
    let (slots', head, t) =
      thread-Threads slots1 first n (some (first + n)) ((first + n) ∷ xs) pos
        (
          refl,
          omega arith,
          ap is_null self ∙ s_null,
          subst (λ o. FreeList slots1 o xs) (sym (ap next_free self ∙ s_next))
              (FreeList-update slots (first + n) s next xs apart v),
        )
        (inr (omega arith), All-weaken _ _ xs (λ x h. omega (arith, h)) a) in
    (
      slots',
      head,
      record {
        returns = thread-step slots first n next s e ∙ t.returns;
        free = t.free;
        others = λ i h.
            t.others i (omega (arith, h))
            ∙ update_ne slots (first + n) s i (λ q. omega (arith, q, h));
        nulls = λ i lo hi. elim (ℕ_discrete i (first + n)) [
          | yes q ↦
              ap (λ k. is_null (slots' k)) q
              ∙ ap is_null (t.others (first + n) (inr (omega arith)) ∙ self)
              ∙ s_null
          | no q ↦ t.nulls i lo (omega arith)
        ];
      },
    )

-- Different numbers from 1 to `a` are at most `a` many.
pub length-le :
    (a : ℕ) (xs : List ℕ) → Distinct xs → All (λ x. (0 < x) × (x ≤ a)) xs → length xs ≤ a
length-le zero [] d h = omega arith
length-le zero (x ∷ xs) d h = absurd (omega (arith, h.0.0, h.0.1))
length-le (suc a) xs d h = elim (Bool-cases (has (suc a) xs)) [
  | inl e ↦
      let rest =
        All-both _ _ (erase (suc a) xs) (NotIn-erase_self (suc a) xs d)
          (All-erase _ (suc a) xs h) in
      omega (
        arith,
        length-erase (suc a) xs e,
        length-le a (erase (suc a) xs) (Distinct-erase (suc a) xs d)
            (All-weaken _ _ (erase (suc a) xs) smaller rest),
      )
  | inr e ↦
      let rest = All-both _ _ xs (NotIn-not_has (suc a) xs e) h in
      omega (arith, length-le a xs d (All-weaken _ _ xs smaller rest))
]
  where
    smaller : (x : ℕ) → (x ≢ suc a) × ((0 < x) × (x ≤ suc a)) → (0 < x) × (x ≤ a)
    smaller x h = (h.1.0, omega (arith, h.0, h.1.1))

-- The counter of free slots does not wrap.
pub Valid-small :
    (cs : CSpace) (n : ℕ) (xs : List ℕ) → Valid cs n xs → length xs ≤ cs.allocated_slots
Valid-small cs n xs v =
    length-le cs.allocated_slots xs v.distinct
      (All-both _ _ xs (FreeList-pos cs.slots cs.free_head xs v.free) v.places)
