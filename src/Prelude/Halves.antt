-- ===== src/Prelude/Halves.antt =====
-- `|`, `&` and `^` by the last digit and the rest.
use Prim.Native.Nat.{
  ℕ, zero, suc, ◌+◌, ◌-◌, ◌*◌, ◌/◌, ◌%◌, ◌≤◌, min, max, bit_and, bit_or, bit_xor, digits, differ,
  bit_and-bitwise, bit_or-bitwise, bit_xor-bitwise,
}
use mathlib.Core.Path.{◌≡◌, refl, ◌∙◌, ap}
use native.Mathlib.Omega.{arith}

-- `digits z f fuel x y` combines the digits of `x` and `y` by `f`, and goes on with `z` of what is
-- left of `y` when `x` is used up. The law says that `z` agrees with that.
module _ (f : ℕ → ℕ → ℕ) (z : ℕ → ℕ) (law : (y : ℕ) → z y ≡ f 0 (y % 2) + 2 * z (y / 2)) where
  -- One more step of fuel than is needed makes no difference.
  spare : (x y fuel : ℕ) → x ≤ fuel → digits z f (suc fuel) x y ≡ digits z f fuel x y
  spare zero y zero h = refl
  spare zero y (suc fuel) h = refl
  spare (suc x) y zero h = absurd (omega arith)
  spare (suc x) y (suc fuel) h =
      ap (λ rest. rest * 2 + f (suc x % 2) (y % 2)) (spare (suc x / 2) (y / 2) fuel (omega arith))

  all_spare : (k x y : ℕ) → digits z f (k + x) x y ≡ digits z f x x y
  all_spare zero x y = ap (λ n. digits z f n x y) (omega arith)
  all_spare (suc k) x y =
      ap (λ n. digits z f n x y) {y = suc (k + x)} (omega arith)
      ∙ spare x y (k + x) (omega arith)
      ∙ all_spare k x y

  pub digits-halves :
      (x y : ℕ) → digits z f x x y ≡ f (x % 2) (y % 2) + 2 * digits z f (x / 2) (x / 2) (y / 2)
  digits-halves zero y = law y
  digits-halves (suc x) y = omega (
    arith,
    all_spare (x - suc x / 2) (suc x / 2) (y / 2),
    ap (λ n. digits z f n (suc x / 2) (y / 2)) (split_fuel x),
  )
    where
      split_fuel : (x : ℕ) → x - suc x / 2 + suc x / 2 ≡ x
      split_fuel x = omega arith

pub and_halves : (x y : ℕ) → bit_and x y ≡ min (x % 2) (y % 2) + 2 * bit_and (x / 2) (y / 2)
and_halves x y = omega (
  arith,
  digits-halves min (λ _. 0) (λ y. omega arith) x y,
  bit_and-bitwise x y,
  bit_and-bitwise (x / 2) (y / 2),
)

pub or_halves : (x y : ℕ) → bit_or x y ≡ max (x % 2) (y % 2) + 2 * bit_or (x / 2) (y / 2)
or_halves x y = omega (
  arith,
  digits-halves max (λ y. y) (λ y. omega arith) x y,
  bit_or-bitwise x y,
  bit_or-bitwise (x / 2) (y / 2),
)

pub xor_halves : (x y : ℕ) → bit_xor x y ≡ differ (x % 2) (y % 2) + 2 * bit_xor (x / 2) (y / 2)
xor_halves x y = omega (
  arith,
  digits-halves differ (λ y. y) (λ y. omega arith) x y,
  bit_xor-bitwise x y,
  bit_xor-bitwise (x / 2) (y / 2),
)
