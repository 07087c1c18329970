-- ===== src/Prelude/Lists.antt =====
-- Lists with native lengths and indices, membership as a Boolean, and lists without repetition.
use Prim.Native.Nat.{ℕ, zero, suc, ◌+◌, ◌<◌}
use mathlib.Core.Path.{◌≡◌, refl, ap, subst, sym}
use mathlib.Core.Logic.{◌≢◌, inl, inr}
use mathlib.Core.Bool.{Bool, true, false, ◌||◌, false≢true}
use mathlib.Core.List.{List, [], ◌∷◌, ◌++◌}
use native.Mathlib.Omega.{arith}
use seraph.Prelude.Tests.{◌==◌, if◌then◌else◌, Bool-cases, ==_iff}

module _ {ℓ} {A : Type ℓ} where
  abbrev pub length : List A → ℕ
  length [] = 0
  length (x ∷ xs) = suc (length xs)

  abbrev pub get_or : List A → ℕ → A → A
  get_or [] i d = d
  get_or (x ∷ xs) zero d = x
  get_or (x ∷ xs) (suc i) d = get_or xs i d

  -- A write out of range changes nothing.
  abbrev pub set : List A → ℕ → A → List A
  set [] i v = []
  set (x ∷ xs) zero v = v ∷ xs
  set (x ∷ xs) (suc i) v = x ∷ set xs i v

  abbrev pub replicate : ℕ → A → List A
  replicate zero v = []
  replicate (suc n) v = v ∷ replicate n v

  abbrev pub take : ℕ → List A → List A
  take zero xs = []
  take (suc n) [] = []
  take (suc n) (x ∷ xs) = x ∷ take n xs

  abbrev pub drop : ℕ → List A → List A
  drop zero xs = xs
  drop (suc n) [] = []
  drop (suc n) (x ∷ xs) = drop n xs

  pub length-append : (xs ys : List A) → length (xs ++ ys) ≡ length xs + length ys
  length-append [] ys = omega arith
  length-append (x ∷ xs) ys = omega (arith, length-append xs ys)

  pub length-replicate : (n : ℕ) (v : A) → length (replicate n v) ≡ n
  length-replicate zero v = refl
  length-replicate (suc n) v = ap suc (length-replicate n v)

  pub length-set : (xs : List A) (i : ℕ) (v : A) → length (set xs i v) ≡ length xs
  length-set [] i v = refl
  length-set (x ∷ xs) zero v = refl
  length-set (x ∷ xs) (suc i) v = ap suc (length-set xs i v)

  pub get_or-set_self :
      (xs : List A) (i : ℕ) (v d : A) → i < length xs → get_or (set xs i v) i d ≡ v
  get_or-set_self [] i v d h = absurd (omega arith)
  get_or-set_self (x ∷ xs) zero v d h = refl
  get_or-set_self (x ∷ xs) (suc i) v d h = get_or-set_self xs i v d (omega arith)

  pub get_or-set_ne :
      (xs : List A) (i j : ℕ) (v d : A) → i ≢ j → get_or (set xs i v) j d ≡ get_or xs j d
  get_or-set_ne [] i j v d h = refl
  get_or-set_ne (x ∷ xs) zero zero v d h = absurd (h refl)
  get_or-set_ne (x ∷ xs) zero (suc j) v d h = refl
  get_or-set_ne (x ∷ xs) (suc i) zero v d h = refl
  get_or-set_ne (x ∷ xs) (suc i) (suc j) v d h = get_or-set_ne xs i j v d (λ e. h (ap suc e))

  abbrev pub All {κ} : (A → Type κ) → List A → Type κ
  All P [] = Unit
  All P (x ∷ xs) = P x × All P xs

  pub All-append {κ} : (P : A → Type κ) (xs ys : List A) → All P xs → All P ys → All P (xs ++ ys)
  All-append P [] ys hx hy = hy
  All-append P (x ∷ xs) ys hx hy = (hx.0, All-append P xs ys hx.1 hy)

-- The number stands in the list.
abbrev pub has : ℕ → List ℕ → Bool
has a [] = false
has a (x ∷ xs) = (x == a) || has a xs

abbrev pub NotIn : ℕ → List ℕ → Type 0
NotIn a = All (λ x. x ≢ a)

abbrev pub Distinct : List ℕ → Type 0
Distinct [] = Unit {0}
Distinct (x ∷ xs) = NotIn x xs × Distinct xs

-- Without the first occurrence of `a`.
abbrev pub erase : ℕ → List ℕ → List ℕ
erase a [] = []
erase a (x ∷ xs) = if x == a then xs else (x ∷ erase a xs)

-- The last element, 0 if there is none.
abbrev pub last : List ℕ → ℕ
last [] = 0
last (x ∷ []) = x
last (x ∷ y ∷ xs) = last (y ∷ xs)

pub NotIn-append_one : (a b : ℕ) (xs : List ℕ) → NotIn a xs → b ≢ a → NotIn a (xs ++ b ∷ [])
NotIn-append_one a b xs h n = All-append _ xs (b ∷ []) h (n, tt)

pub NotIn-erase : (a b : ℕ) (xs : List ℕ) → NotIn a xs → NotIn a (erase b xs)
NotIn-erase a b [] h = tt
NotIn-erase a b (x ∷ xs) h = ground (arith, NotIn-erase a b xs h.1)

pub All-erase {κ} : (P : ℕ → Type κ) (b : ℕ) (xs : List ℕ) → All P xs → All P (erase b xs)
All-erase P b [] h = tt
All-erase P b (x ∷ xs) h = elim (x == b) as (λ c. All P (if c then xs else (x ∷ erase b xs))) [
  | true ↦ h.1
  | false ↦ (h.0, All-erase P b xs h.1)
]

pub Distinct-erase : (b : ℕ) (xs : List ℕ) → Distinct xs → Distinct (erase b xs)
Distinct-erase b [] h = tt
Distinct-erase b (x ∷ xs) h = ground (arith, Distinct-erase b xs h.1, NotIn-erase x b xs h.0)

pub Distinct-append_one : (xs : List ℕ) (b : ℕ) → Distinct xs → NotIn b xs → Distinct (xs ++ b ∷ [])
Distinct-append_one [] b d n = (tt, tt)
Distinct-append_one (x ∷ xs) b d n =
    (NotIn-append_one x b xs d.0 (λ e. n.0 (sym e)), Distinct-append_one xs b d.1 n.1)

pub last-append_one : (xs : List ℕ) (b : ℕ) → last (xs ++ b ∷ []) ≡ b
last-append_one [] b = refl
last-append_one (x ∷ []) b = refl
last-append_one (x ∷ y ∷ xs) b = last-append_one (y ∷ xs) b

pub last-ne : (x y : ℕ) (xs : List ℕ) → NotIn x (y ∷ xs) → last (y ∷ xs) ≢ x
last-ne x y [] n = n.0
last-ne x y (z ∷ xs) n = last-ne x z xs n.1

pub last-zero : (xs : List ℕ) → last (0 ∷ xs) ≡ last xs
last-zero [] = refl
last-zero (x ∷ xs) = refl

pub All-last {κ} : (P : ℕ → Type κ) (xs : List ℕ) → P 0 → All P xs → P (last xs)
All-last P [] z h = z
All-last P (x ∷ []) z h = h.0
All-last P (x ∷ y ∷ xs) z h = All-last P (y ∷ xs) z h.1

pub has-NotIn : (a : ℕ) (xs : List ℕ) → NotIn a xs → has a xs ≡ false
has-NotIn a [] h = refl
has-NotIn a (x ∷ xs) h = ground (arith, has-NotIn a xs h.1)

pub NotIn-not_has : (a : ℕ) (xs : List ℕ) → has a xs ≡ false → NotIn a xs
NotIn-not_has a [] h = tt
NotIn-not_has a (x ∷ xs) h = ground (arith, NotIn-not_has a xs)

pub erase-NotIn : (a : ℕ) (xs : List ℕ) → NotIn a xs → erase a xs ≡ xs
erase-NotIn a [] h = refl
erase-NotIn a (x ∷ xs) h = ground (arith, erase-NotIn a xs h.1)

-- In a list without repetition, one `erase` takes the element away.
pub NotIn-erase_self : (a : ℕ) (xs : List ℕ) → Distinct xs → NotIn a (erase a xs)
NotIn-erase_self a [] d = tt
NotIn-erase_self a (x ∷ xs) d = ground (arith, NotIn-erase_self a xs d.1)

-- What all elements have, an element has.
pub All-has {κ} : (P : ℕ → Type κ) (a : ℕ) (xs : List ℕ) → All P xs → has a xs ≡ true → P a
All-has P a [] h e = elim (false≢true e) [ ]
All-has P a (x ∷ xs) h e = elim (Bool-cases (x == a)) [
  | inl q ↦ subst P ((==_iff x a).0 q) h.0
  | inr q ↦ All-has P a xs h.1 (rw q at e)
]

pub length-erase : (t : ℕ) (xs : List ℕ) → has t xs ≡ true → length (erase t xs) + 1 ≡ length xs
length-erase t [] e = elim (false≢true e) [ ]
length-erase t (x ∷ xs) e = ground (arith, length-erase t xs)
