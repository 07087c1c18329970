-- ===== src/Prelude/Sum.antt =====
-- Sums over the numbers below a bound, and runs of consecutive numbers.
use Prim.Native.Nat.{ℕ, zero, suc, ◌+◌, ◌≤◌, ◌<◌}
use native.Mathlib.Decide.{ℕ_discrete}
use mathlib.Core.Path.{◌≡◌, refl, ap}
use mathlib.Core.Logic.{◌≢◌}
use mathlib.Core.List.{List, [], ◌∷◌}
use native.Mathlib.Omega.{arith}
use seraph.Prelude.Lists.{All, Distinct, length}

unfoldable pub total : (ℕ → ℕ) → ℕ → ℕ
total g zero = 0
total g (suc n) = total g n + g n

total_above :
    (g g' : ℕ → ℕ) (p : ℕ)
    → ((o : ℕ) → o ≢ p → g' o ≡ g o)
    → (n : ℕ) → n ≤ p
    → total g' n ≡ total g n
unfolding total
total_above g g' p same zero h = refl
total_above g g' p same (suc n) h =
    omega (arith, total_above g g' p same n (omega arith), same n (λ e. omega (arith, e)))

-- A change of one term changes the sum by the difference.
pub total_change :
    (g g' : ℕ → ℕ) (p : ℕ)
    → ((o : ℕ) → o ≢ p → g' o ≡ g o)
    → (n : ℕ) → p < n
    → total g' n + g p ≡ total g n + g' p
unfolding total
total_change g g' p same zero h = absurd (omega arith)
total_change g g' p same (suc n) h = elim (ℕ_discrete n p) [
  | yes e ↦ omega (arith, total_above g g' p same n (omega (arith, e)), ap g e, ap g' e)
  | no ne ↦ omega (arith, total_change g g' p same n (omega arith), same n ne)
]

pub total_zero : (g : ℕ → ℕ) (n : ℕ) → ((o : ℕ) → g o ≡ 0) → total g n ≡ 0
unfolding total
total_zero g zero h = refl
total_zero g (suc n) h = omega (arith, total_zero g n h, h n)

pub total-ge : (g : ℕ → ℕ) (o n : ℕ) → o < n → g o ≤ total g n
unfolding total
total-ge g o zero h = absurd (omega arith)
total-ge g o (suc n) h = elim (ℕ_discrete n o) [
  | yes e ↦ omega (arith, ap g e)
  | no ne ↦ omega (arith, total-ge g o n (omega arith))
]

-- `c` numbers from `k` on.
unfoldable pub range_from : ℕ → ℕ → List ℕ
range_from k zero = []
range_from k (suc c) = k ∷ range_from (k + 1) c

pub length-range_from : (k c : ℕ) → length (range_from k c) ≡ c
unfolding range_from
length-range_from k zero = refl
length-range_from k (suc c) = ap suc (length-range_from (k + 1) c)

pub All-range_from {κ} :
    (P : ℕ → Type κ) (k c : ℕ) → ((i : ℕ) → k ≤ i → i < k + c → P i) → All P (range_from k c)
unfolding range_from
All-range_from P k zero h = tt
All-range_from P k (suc c) h = (
  h k (omega arith) (omega arith),
  All-range_from P (k + 1) c (λ i lo hi. h i (omega arith) (omega arith)),
)

pub Distinct-range_from : (k c : ℕ) → Distinct (range_from k c)
unfolding range_from
Distinct-range_from k zero = tt
Distinct-range_from k (suc c) = (
  All-range_from (λ i. i ≢ k) (k + 1) c (λ i lo hi e. omega (arith, e)),
  Distinct-range_from (k + 1) c,
)
