-- ===== src/Prelude/Bits.antt =====
-- The binary digits of a number, and what the word operations of the source do to them: `|`, `&`,
-- `^`, `1 << p`, `!m` on words of `w` bits, and the standard library's `leading_zeros`.
use Prim.Native.Nat.{
  ℕ, zero, suc, ◌+◌, ◌-◌, ◌*◌, ◌/◌, ◌%◌, ◌^◌, ◌≤◌, ◌<◌, bit_and, bit_or, bit_xor, differ,
  bit_and-bitwise, bit_or-bitwise, bit_xor-bitwise,
}
use mathlib.Core.Path.{◌≡◌, refl, ◌∙◌, sym, ap, subst}
use mathlib.Core.Logic.{◌⊎◌, inl, inr}
use mathlib.Core.Bool.{Bool, true, false, not, ◌&&◌, ◌||◌}
use native.Mathlib.Nat.{two-pow-succ}
use native.Mathlib.Decide.{ℕ_discrete}
use native.Mathlib.Omega.{arith}
use seraph.Prelude.Halves.{and_halves, or_halves, xor_halves}
use seraph.Prelude.Tests.{◌==◌, if◌then◌else◌, Bool-cases}

-- Digit `i`, lowest first.
unfoldable pub bit : ℕ → ℕ → Bool
bit m zero = m % 2 == 1
bit m (suc i) = bit (m / 2) i

-- `1 << p`
abbrev pub shift_one : ℕ → ℕ
shift_one p = 2 ^ p

-- `!m` on a word of `w` bits
abbrev pub complement : ℕ → ℕ → ℕ
complement w m = 2 ^ w - 1 - m

-- `leading_zeros` of a word of `w` bits
unfoldable pub leading_zeros : ℕ → ℕ → ℕ
leading_zeros zero m = 0
leading_zeros (suc w) m = let rest = leading_zeros w m in if bit m w then 0 else suc rest

-- Digit by digit.
pub bit-bit_or : (a b i : ℕ) → bit (bit_or a b) i ≡ (bit a i || bit b i)
unfolding bit
bit-bit_or a b zero = ground (arith, or_halves a b)
bit-bit_or a b (suc i) = ap (λ m. bit m i) (half a b) ∙ bit-bit_or (a / 2) (b / 2) i
  where
    half : (a b : ℕ) → bit_or a b / 2 ≡ bit_or (a / 2) (b / 2)
    half a b = omega (arith, or_halves a b)

pub bit-bit_and : (a b i : ℕ) → bit (bit_and a b) i ≡ (bit a i && bit b i)
unfolding bit
bit-bit_and a b zero = ground (arith, and_halves a b)
bit-bit_and a b (suc i) = ap (λ m. bit m i) (half a b) ∙ bit-bit_and (a / 2) (b / 2) i
  where
    half : (a b : ℕ) → bit_and a b / 2 ≡ bit_and (a / 2) (b / 2)
    half a b = omega (arith, and_halves a b)

pub bit-zero : (i : ℕ) → bit 0 i ≡ false
unfolding bit
bit-zero zero = refl
bit-zero (suc i) = bit-zero i

pub bit-shift_one : (p i : ℕ) → bit (shift_one p) i ≡ (p == i)
unfolding bit
bit-shift_one zero zero = refl
bit-shift_one zero (suc i) = bit-zero i ∙ ground arith
bit-shift_one (suc p) zero = ground (arith, two-pow-succ p)
bit-shift_one (suc p) (suc i) =
    ap (λ m. bit m i) (omega (arith, two-pow-succ p)) ∙ bit-shift_one p i ∙ ground arith

pub bit-complement : (w m i : ℕ) → m < 2 ^ w → i < w → bit (complement w m) i ≡ not (bit m i)
unfolding bit
bit-complement zero m i h k = absurd (omega arith)
bit-complement (suc w) m zero h k = ground (arith, two-pow-succ w)
bit-complement (suc w) m (suc i) h k =
    ap (λ m. bit m i) (omega (arith, two-pow-succ w))
    ∙ bit-complement w (m / 2) i (omega (arith, two-pow-succ w)) (omega arith)

-- A word stays within its width.
pub bit_or-lt : (w a b : ℕ) → a < 2 ^ w → b < 2 ^ w → bit_or a b < 2 ^ w
bit_or-lt zero zero b p q = omega (arith, bit_or-bitwise 0 b)
bit_or-lt zero (suc a) b p q = absurd (omega arith)
bit_or-lt (suc w) a b p q = omega (
  arith,
  two-pow-succ w,
  or_halves a b,
  bit_or-lt w (a / 2) (b / 2) (omega (arith, two-pow-succ w)) (omega (arith, two-pow-succ w)),
)

pub bit_and-le_fuel : (n a b : ℕ) → a ≤ n → bit_and a b ≤ a
bit_and-le_fuel zero zero b h = omega (arith, bit_and-bitwise 0 b)
bit_and-le_fuel zero (suc a) b h = absurd (omega arith)
bit_and-le_fuel (suc n) zero b h = omega (arith, bit_and-bitwise 0 b)
bit_and-le_fuel (suc n) (suc a) b h =
    omega (arith, and_halves (suc a) b, bit_and-le_fuel n (suc a / 2) (b / 2) (omega arith))

pub bit_and-le : (a b : ℕ) → bit_and a b ≤ a
bit_and-le a b = bit_and-le_fuel a a b (omega arith)

-- A word with no digit set is zero.
pub eq-zero_of_bits : (w m : ℕ) → m < 2 ^ w → ((i : ℕ) → i < w → bit m i ≡ false) → m ≡ 0
unfolding bit
eq-zero_of_bits zero m h all = omega arith
eq-zero_of_bits (suc w) m h all = ground (
  arith,
  all 0 (omega arith),
  eq-zero_of_bits w (m / 2) (omega (arith, two-pow-succ w)) (λ i k. all (suc i) (omega arith)),
)

pub pow_pos : (w : ℕ) → 0 < 2 ^ w
pow_pos zero = omega arith
pow_pos (suc w) = omega (arith, two-pow-succ w, pow_pos w)

pub pow_mono : (o n : ℕ) → o ≤ n → 2 ^ o ≤ 2 ^ n
pow_mono zero n h = pow_pos n
pow_mono (suc o) zero h = absurd (omega arith)
pow_mono (suc o) (suc n) h =
    omega (arith, two-pow-succ o, two-pow-succ n, pow_mono o n (omega arith))

pub shift_one-lt : (p w : ℕ) → p < w → shift_one p < 2 ^ w
shift_one-lt p zero h = absurd (omega arith)
shift_one-lt zero (suc w) h = omega (arith, two-pow-succ w, pow_pos w)
shift_one-lt (suc p) (suc w) h =
    omega (arith, shift_one-lt p w (omega arith), two-pow-succ p, two-pow-succ w)

-- `m | 1 << p`
pub bit-set : (m p q : ℕ) → bit (bit_or m (shift_one p)) q ≡ (bit m q || (p == q))
bit-set m p q = bit-bit_or m (shift_one p) q ∙ ap (λ b. bit m q || b) (bit-shift_one p q)

-- `m & !(1 << p)`
pub bit-clear :
    (w m p q : ℕ)
    → p < w
    → q < w
    → bit (bit_and m (complement w (shift_one p))) q ≡ (bit m q && not (p == q))
bit-clear w m p q hp hq =
    bit-bit_and m (complement w (shift_one p)) q
    ∙ ap (λ b. bit m q && b)
        (bit-complement w (shift_one p) q (shift_one-lt p w hp) hq ∙ ap not (bit-shift_one p q))

differ-minus : (x y : ℕ) → differ x y ≡ x - y + (y - x)
differ-minus zero y = omega arith
differ-minus (suc x) zero = omega arith
differ-minus (suc x) (suc y) = omega (arith, differ-minus x y)

bit_xor-zero_fuel : (n a : ℕ) → a ≤ n → bit_xor a 0 ≡ a
bit_xor-zero_fuel zero zero h = omega (arith, bit_xor-bitwise 0 0)
bit_xor-zero_fuel zero (suc a) h = absurd (omega arith)
bit_xor-zero_fuel (suc n) zero h = omega (arith, bit_xor-bitwise 0 0)
bit_xor-zero_fuel (suc n) (suc a) h = ground (
  arith,
  xor_halves (suc a) 0,
  bit_xor-zero_fuel n (suc a / 2) (omega arith),
  differ-minus (suc a % 2) 0,
)

-- The neighbour of `q` in its pair of an even and an odd number.
abbrev pub neighbour : ℕ → ℕ
neighbour q = if q % 2 == 0 then q + 1 else (q - 1)

pub bit_xor-neighbour : (k q : ℕ) → bit_xor (q * 2 ^ k) (2 ^ k) ≡ neighbour q * 2 ^ k
bit_xor-neighbour zero q =
    subst (λ t. bit_xor t 1 ≡ neighbour q * 1) (one q)
      (ground (
        arith,
        xor_halves q 1,
        bit_xor-zero_fuel (q / 2) (q / 2) (omega arith),
        differ-minus (q % 2) 1,
      ))
  where
    one : (q : ℕ) → q ≡ q * 1
    one q = omega arith
bit_xor-neighbour (suc k) q = omega (
  arith,
  xor_halves (q * 2 ^ suc k) (2 ^ suc k),
  ap (λ t. bit_xor t (2 ^ suc k / 2)) (half q),
  ap (λ t. bit_xor (q * 2 ^ k) t) (half_pow k),
  bit_xor-neighbour k q,
  ap (λ (t : ℕ). neighbour q * t) (two-pow-succ k),
  ap (λ (t : ℕ). q * t) (two-pow-succ k),
  two-pow-succ k,
  differ-minus (q * 2 ^ suc k % 2) (2 ^ suc k % 2),
)
  where
    half : (q : ℕ) → q * 2 ^ suc k / 2 ≡ q * 2 ^ k
    half q = omega (arith, ap (λ (t : ℕ). q * t) (two-pow-succ k))

    half_pow : (k : ℕ) → 2 ^ suc k / 2 ≡ 2 ^ k
    half_pow k = omega (arith, two-pow-succ k)

below :
    (w m i : ℕ)
    → bit m w ≡ false
    → ((i : ℕ) → i < w → bit m i ≡ false)
    → i < suc w
    → bit m i ≡ false
below w m i e clear h = elim (ℕ_discrete i w) [
  | yes q ↦ subst (λ i. bit m i ≡ false) (sym q) e
  | no q ↦ clear i (omega arith)
]

leading_zeros_set : (w m : ℕ) → bit m w ≡ true → leading_zeros (suc w) m ≡ 0
unfolding leading_zeros
leading_zeros_set w m e = rw e

leading_zeros_unset :
    (w m : ℕ) → bit m w ≡ false → leading_zeros (suc w) m ≡ suc (leading_zeros w m)
unfolding leading_zeros
leading_zeros_unset w m e = rw e

-- `w - 1 - leading_zeros` is the highest digit set, if there is one.
pub leading_zeros_highest :
    (w m : ℕ)
    → ((i : ℕ) → i < w → bit m i ≡ false)
      ⊎ ((leading_zeros w m < w)
          × (bit m (w - 1 - leading_zeros w m) ≡ true)
          × ((i : ℕ) → w - 1 - leading_zeros w m < i → i < w → bit m i ≡ false))
leading_zeros_highest zero m = inl (λ i h. absurd (omega arith))
leading_zeros_highest (suc w) m = elim (Bool-cases (bit m w)) [
  | inl e ↦ inr (
    omega (arith, leading_zeros_set w m e),
    subst (λ i. bit m i ≡ true) (omega (arith, leading_zeros_set w m e)) e,
    λ i lo hi. absurd (omega (arith, leading_zeros_set w m e)),
  )
  | inr e ↦ elim (leading_zeros_highest w m) [
    | inl clear ↦ inl (λ i h. below w m i e clear h)
    | inr (k, s, clear) ↦ inr (
      omega (arith, leading_zeros_unset w m e),
      subst (λ i. bit m i ≡ true) (omega (arith, leading_zeros_unset w m e)) s,
      λ i lo hi. elim (ℕ_discrete i w) [
        | yes q ↦ subst (λ i. bit m i ≡ false) (sym q) e
        | no q ↦ clear i (omega (arith, leading_zeros_unset w m e)) (omega arith)
      ],
    )
  ]
]
