-- ===== src/Prelude/Tests.antt =====
-- Boolean tests on the native numbers, the conditional, and case analysis on a computed value.
use Prim.Native.Nat.{ℕ, ◌≤◌, ◌<◌, compare, Ordering}
use mathlib.Core.Path.{◌≡◌, refl, sym, ◌∙◌, subst}
use mathlib.Core.Logic.{◌↔◌, ◌⊎◌, ◌≢◌, inl, inr}
use mathlib.Core.Bool.{Bool, true, false, false≢true}
use mathlib.Core.Option.{Option, none, some}
use native.Mathlib.Omega.{arith}

abbrev pub ltb : ℕ → ℕ → Bool
ltb a b = elim (compare a b) [ Ordering.lt ↦ true | _ ↦ false ]

abbrev pub leb : ℕ → ℕ → Bool
leb a b = elim (compare a b) [ Ordering.gt ↦ false | _ ↦ true ]

infix 50 ◌==◌
abbrev pub ◌==◌ : ℕ → ℕ → Bool
a == b = elim (compare a b) [ Ordering.eq ↦ true | _ ↦ false ]

infix 1 if◌then◌else◌
abbrev pub if◌then◌else◌ {ℓ} : {A : Type ℓ} → Bool → A → A → A
if true then x else y = x
if false then x else y = y

pub ltb→lt : (a b : ℕ) → ltb a b ≡ true → a < b
ltb→lt a b h = ground arith

pub lt→ltb : (a b : ℕ) → a < b → ltb a b ≡ true
lt→ltb a b h = ground arith

pub leb→le : (a b : ℕ) → leb a b ≡ true → a ≤ b
leb→le a b h = ground arith

pub ==_iff : (a b : ℕ) → ((a == b) ≡ true) ↔ (a ≡ b)
==_iff a b = ground arith

pub ==_refl : (a : ℕ) → (a == a) ≡ true
==_refl a = ground arith

pub ==_ne : (a b : ℕ) → a ≢ b → (a == b) ≡ false
==_ne a b h = ground arith

pub ruleset tests = (arith, ltb→lt, lt→ltb, leb→le)

pub Bool-cases : (b : Bool) → (b ≡ true) ⊎ (b ≡ false)
Bool-cases true = inl refl
Bool-cases false = inr refl

pub Option-cases {ℓ} : {A : Type ℓ} (o : Option A) → (o ≡ none) ⊎ ((a : A) × (o ≡ some a))
Option-cases none = inl refl
Option-cases (some a) = inr (a, refl)

-- A conditional whose test is known.
pub if-true {ℓ} : {A : Type ℓ} (x y : A) (b : Bool) → b ≡ true → (if b then x else y) ≡ x
if-true x y true e = refl
if-true x y false e = elim (false≢true e) [ ]

pub if-false {ℓ} : {A : Type ℓ} (x y : A) (b : Bool) → b ≡ false → (if b then x else y) ≡ y
if-false x y true e = elim (false≢true (sym e)) [ ]
if-false x y false e = refl

-- A call whose result is known has the properties that a theorem gives for some result.
pub take_result {ℓ κ} :
    {A : Type ℓ} (o : Option A) (c : A)
    → o ≡ some c
    → (P : A → Type κ) → ((a : A) × (o ≡ some a) × P a)
    → P c
take_result {A} o c run P (a, e, p) =
    subst (λ r. elim r [ none ↦ P a | some x ↦ P x ]) (sym e ∙ run) p
