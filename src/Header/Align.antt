-- ===== src/Header/Align.antt =====
-- `alignUp` and `isPowerOfTwo` against arithmetic.
use native.Mathlib.Nat.{pow-suc, one-le-pow}
use native.Mathlib.Decide.{ℕ_discrete}
use m_alloc.Base.{
  ℕ, zero, suc, ◌+◌, ◌-◌, ◌*◌, ◌/◌, ◌%◌, ◌^◌, ◌≤◌, ◌<◌, ◌≡◌, refl, ◌↔◌, bit_and, true, arith,
}
use m_alloc.Base.Bits.{bit_and_half, bit_and_high, bit_and_self, pow-le}
use m_alloc.Base.Order.{strong_induct}
use m_alloc.Header.{align_up, is_power_of_two, word}

-- For a power of two the mask rounds down to a multiple.
pub align_up-quotient :
    (v k : ℕ) → k ≤ 64 → v + 2 ^ k - 1 < word → align_up v (2 ^ k) ≡ (v + 2 ^ k - 1) / 2 ^ k * 2 ^ k
unfolding align_up
align_up-quotient v k h fits = ground (
  arith,
  one-le-pow k 2,
  pow-le k 64,
  bit_and_high k 64 ((v + 2 ^ k - 1) / 2 ^ k) ((v + 2 ^ k - 1) % 2 ^ k),
)

-- `alignUp` to a power of two gives the least multiple that is not below the value, where the value
-- plus the power less one is below 2 ^ 64, so that the sum in the source does not wrap.
pub align_up_least :
    (v k : ℕ)
    → k ≤ 64
    → v + 2 ^ k - 1 < word
    → (v ≤ align_up v (2 ^ k)) × (align_up v (2 ^ k) < v + 2 ^ k) × (align_up v (2 ^ k) % 2 ^ k ≡ 0)
align_up_least v k h fits =
    rw (align_up-quotient v k h fits)
      (grind (arith, one-le-pow k 2), grind (arith, one-le-pow k 2), grind (arith, one-le-pow k 2))

pub align_up_16 : (v : ℕ) → v + 15 < word → align_up v 16 ≡ (v + 15) / 16 * 16
align_up_16 v h = omega (arith, align_up-quotient v 4 (omega arith) (omega arith))

even_half : (n : ℕ) → 0 < n → n % 2 ≡ 0 → bit_and n (n - 1) ≡ 2 * bit_and (n / 2) (n / 2 - 1)
even_half n pos even = ground (arith, bit_and_half n (n - 1))

odd_half : (n : ℕ) → n % 2 ≡ 1 → bit_and n (n - 1) ≡ 2 * (n / 2)
odd_half n odd = ground (arith, bit_and_half n (n - 1), bit_and_self (n / 2))

abbrev IsPower : ℕ → Type 0
IsPower n = 0 < n → bit_and n (n - 1) ≡ 0 → (k : ℕ) × (n ≡ 2 ^ k)

pow_of_bits : (n : ℕ) → IsPower n
pow_of_bits = strong_induct IsPower step
  where
    step : (n : ℕ) → ((m : ℕ) → m < n → IsPower m) → IsPower n
    step n ih pos e = elim (ℕ_discrete (n % 2) 0) [
      | yes even ↦
          let (k, p) =
            ih (n / 2) (omega arith) (omega arith) (omega (arith, even_half n pos even)) in
          (suc k, omega (arith, p, pow-suc 2 k))
      | no odd ↦ (0, omega (arith, odd_half n (omega arith)))
    ]

bits_of_pow : (k : ℕ) → bit_and (2 ^ k) (2 ^ k - 1) ≡ 0
bits_of_pow zero = refl
bits_of_pow (suc k) =
    ground
      (arith, pow-suc 2 k, one-le-pow k 2, bits_of_pow k, bit_and_half (2 ^ suc k) (2 ^ suc k - 1))

-- `isPowerOfTwo` answers true exactly at the powers of two.
pub is_power_of_two_iff : (v : ℕ) → (is_power_of_two v ≡ true) ↔ ((k : ℕ) × (v ≡ 2 ^ k))
unfolding is_power_of_two
is_power_of_two_iff v = (
  λ h. pow_of_bits v (ground arith) (ground arith),
  λ (k, e). rw e (ground (arith, one-le-pow k 2, bits_of_pow k)),
)
