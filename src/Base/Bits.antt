-- ===== src/Base/Bits.antt =====
-- The native `bit_and` and `bit_or` at variables: one binary digit at a time, then the masks that
-- the allocator uses.
use Prim.Native.Nat.{
  ℕ, zero, suc, ◌+◌, ◌-◌, ◌*◌, ◌/◌, ◌%◌, ◌^◌, ◌≤◌, ◌<◌, min, max, bit_and, bit_or, digits,
  bit_and-bitwise, bit_or-bitwise,
}
use mathlib.Core.Path.{◌≡◌, refl, ap}
use native.Mathlib.Omega.{arith}
use native.Mathlib.Nat.{pow-suc, one-le-pow}
use m_alloc.Base.Order.{strong_induct}

module _ (z : ℕ → ℕ) (f : ℕ → ℕ → ℕ) where
  -- Any fuel that is at least the first number gives the same digits.
  enough_fuel : (a n m b : ℕ) → a ≤ n → a ≤ m → digits z f n a b ≡ digits z f m a b
  enough_fuel =
      strong_induct (λ a. (n m b : ℕ) → a ≤ n → a ≤ m → digits z f n a b ≡ digits z f m a b) step
    where
      step :
          (a : ℕ)
          → ((a' : ℕ)
              → a' < a
              → (n m b : ℕ) → a' ≤ n
              → a' ≤ m
              → digits z f n a' b ≡ digits z f m a' b)
          → (n m b : ℕ) → a ≤ n
          → a ≤ m
          → digits z f n a b ≡ digits z f m a b
      step zero ih zero zero b p q = refl
      step zero ih zero (suc m) b p q = refl
      step zero ih (suc n) zero b p q = refl
      step zero ih (suc n) (suc m) b p q = refl
      step (suc a) ih zero m b p q = absurd (omega arith)
      step (suc a) ih (suc n) zero b p q = absurd (omega arith)
      step (suc a) ih (suc n) (suc m) b p q =
          omega (arith, ih (suc a / 2) (omega arith) n m (b / 2) (omega arith) (omega arith))

pub bit_and_half : (m n : ℕ) → bit_and m n ≡ 2 * bit_and (m / 2) (n / 2) + min (m % 2) (n % 2)
bit_and_half zero n = omega (arith, bit_and-bitwise 0 n, bit_and-bitwise 0 (n / 2))
bit_and_half (suc m) n = omega (
  arith,
  bit_and-bitwise (suc m) n,
  bit_and-bitwise (suc m / 2) (n / 2),
  enough_fuel (λ _. 0) min (suc m / 2) m (suc m / 2) (n / 2) (omega arith) (omega arith),
)

pub bit_or_half : (m n : ℕ) → bit_or m n ≡ 2 * bit_or (m / 2) (n / 2) + max (m % 2) (n % 2)
bit_or_half zero n = omega (arith, bit_or-bitwise 0 n, bit_or-bitwise 0 (n / 2))
bit_or_half (suc m) n = omega (
  arith,
  bit_or-bitwise (suc m) n,
  bit_or-bitwise (suc m / 2) (n / 2),
  enough_fuel (λ y. y) max (suc m / 2) m (suc m / 2) (n / 2) (omega arith) (omega arith),
)

pub bit_and-zero : (a : ℕ) → bit_and a 0 ≡ 0
bit_and-zero = strong_induct (λ a. bit_and a 0 ≡ 0) step
  where
    step : (a : ℕ) → ((b : ℕ) → b < a → bit_and b 0 ≡ 0) → bit_and a 0 ≡ 0
    step zero ih = refl
    step (suc a) ih = omega (arith, bit_and_half (suc a) 0, ih (suc a / 2) (omega arith))

pub bit_or-zero : (a : ℕ) → bit_or a 0 ≡ a
bit_or-zero = strong_induct (λ a. bit_or a 0 ≡ a) step
  where
    step : (a : ℕ) → ((b : ℕ) → b < a → bit_or b 0 ≡ b) → bit_or a 0 ≡ a
    step zero ih = refl
    step (suc a) ih = omega (arith, bit_or_half (suc a) 0, ih (suc a / 2) (omega arith))

pub zero-bit_or : (a : ℕ) → bit_or 0 a ≡ a
zero-bit_or a = omega (arith, bit_or-bitwise 0 a)

pub bit_and_self : (a : ℕ) → bit_and a a ≡ a
bit_and_self = strong_induct (λ a. bit_and a a ≡ a) step
  where
    step : (a : ℕ) → ((b : ℕ) → b < a → bit_and b b ≡ b) → bit_and a a ≡ a
    step zero ih = refl
    step (suc a) ih = omega (arith, bit_and_half (suc a) (suc a), ih (suc a / 2) (omega arith))

mul-pow-suc : (m e : ℕ) → m * 2 ^ suc e ≡ 2 * (m * 2 ^ e)
mul-pow-suc m e = let doubled = ap (λ (x : ℕ). m * x) (pow-suc 2 e) in omega (arith, doubled)

-- All the ones of a width leave a number of that width alone.
pub bit_and_ones : (w a : ℕ) → a < 2 ^ w → bit_and a (2 ^ w - 1) ≡ a
bit_and_ones zero a h = omega (arith, bit_and-zero a)
bit_and_ones (suc w) a h = ground (
  arith,
  pow-suc 2 w,
  one-le-pow w 2,
  bit_and_half a (2 ^ suc w - 1),
  bit_and_ones w (a / 2) (omega (arith, pow-suc 2 w)),
)

-- `x & ~(2 ^ k - 1)` in a word of `w` bits clears the low `k` bits.
pub bit_and_high :
    (k w q r : ℕ)
    → k ≤ w
    → r < 2 ^ k
    → q * 2 ^ k + r < 2 ^ w
    → bit_and (q * 2 ^ k + r) (2 ^ w - 2 ^ k) ≡ q * 2 ^ k
bit_and_high zero w q r kw fits word = ground (arith, bit_and_ones w q)
bit_and_high (suc k) zero q r kw fits word = absurd (omega arith)
bit_and_high (suc k) (suc w) q r kw fits word = ground (
  arith,
  bit_and_half (q * 2 ^ suc k + r) (2 ^ suc w - 2 ^ suc k),
  mul-pow-suc q k,
  pow-suc 2 k,
  pow-suc 2 w,
  bit_and_high k w q (r / 2),
)

pub pow-le : (k w : ℕ) → k ≤ w → 2 ^ k ≤ 2 ^ w
pow-le zero w h = one-le-pow w 2 (omega arith)
pow-le (suc k) zero h = absurd (omega arith)
pow-le (suc k) (suc w) h = omega (arith, pow-suc 2 k, pow-suc 2 w, pow-le k w (omega arith))
