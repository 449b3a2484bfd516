-- ===== src/Segment/Tag/Laws.antt =====
-- The tag word of a block: its size and its flags do not disturb each other.
use m_alloc.Base.{
  ℕ, ◌+◌, ◌-◌, ◌*◌, ◌/◌, ◌%◌, ◌^◌, ◌<◌, ◌≡◌, ◌≢◌, refl, arith, Bool, true, false, ◌==◌,
  if◌then◌else◌, bit_and, bit_or, ◌∙◌, sym, ap,
}
use m_alloc.Base.Bits.{
  bit_and_half, bit_or_half, bit_and_high, bit_and_ones, bit_and-zero, bit_or-zero, zero-bit_or,
}
use m_alloc.Header.{word}
use m_alloc.Segment.Tag.{tag_size, with_size, has_flag, with_flag, free_flag, first_flag, last_flag}

tag_size-eq : (t : ℕ) → t < word → tag_size t ≡ 16 * (t / 16)
unfolding tag_size
tag_size-eq t h = ground (arith, bit_and_high 4 64 (t / 16) (t % 16))

low_4 : (t : ℕ) → bit_and t 15 ≡ t % 16
low_4 t = ground (
  arith,
  bit_and_half t 15,
  bit_and_half (t / 2) 7,
  bit_and_half (t / 2 / 2) 3,
  bit_and_half (t / 2 / 2 / 2) 1,
  bit_and-zero (t / 2 / 2 / 2 / 2),
)

and_1 : (t : ℕ) → bit_and t 1 ≡ t % 2
and_1 t = ground (arith, bit_and_half t 1, bit_and-zero (t / 2))

and_2 : (t : ℕ) → bit_and t 2 ≡ 2 * (t / 2 % 2)
and_2 t = ground (arith, bit_and_half t 2, and_1 (t / 2))

and_4 : (t : ℕ) → bit_and t 4 ≡ 4 * (t / 4 % 2)
and_4 t = ground (arith, bit_and_half t 4, and_2 (t / 2))

or_1 : (t : ℕ) → bit_or t 1 ≡ t + 1 - t % 2
or_1 t = ground (arith, bit_or_half t 1, bit_or-zero (t / 2))

or_2 : (t : ℕ) → bit_or t 2 ≡ t + 2 - 2 * (t / 2 % 2)
or_2 t = ground (arith, bit_or_half t 2, or_1 (t / 2))

or_4 : (t : ℕ) → bit_or t 4 ≡ t + 4 - 4 * (t / 4 % 2)
or_4 t = ground (arith, bit_or_half t 4, or_2 (t / 2))

-- The masks that clear one flag.
clear_1 : (t : ℕ) → t < word → bit_and t (word - 1 - 1) ≡ t - t % 2
clear_1 t h = ground (arith, bit_and_half t (word - 1 - 1), bit_and_ones 63 (t / 2))

clear_2 : (t : ℕ) → t < word → bit_and t (word - 1 - 2) ≡ t - 2 * (t / 2 % 2)
clear_2 t h = ground (
  arith,
  bit_and_half t (word - 1 - 2),
  bit_and_half (t / 2) (2 ^ 63 - 2),
  bit_and_ones 62 (t / 2 / 2),
)

clear_4 : (t : ℕ) → t < word → bit_and t (word - 1 - 4) ≡ t - 4 * (t / 4 % 2)
clear_4 t h = ground (
  arith,
  bit_and_half t (word - 1 - 4),
  bit_and_half (t / 2) (2 ^ 63 - 3),
  bit_and_half (t / 2 / 2) (2 ^ 62 - 2),
  bit_and_ones 61 (t / 2 / 2 / 2),
)

join_16 : (f s : ℕ) → f < 16 → s % 16 ≡ 0 → bit_or f s ≡ f + s
join_16 f s low whole = ground (
  arith,
  bit_or_half f s,
  bit_or_half (f / 2) (s / 2),
  bit_or_half (f / 2 / 2) (s / 2 / 2),
  bit_or_half (f / 2 / 2 / 2) (s / 2 / 2 / 2),
  zero-bit_or (s / 2 / 2 / 2 / 2),
)

-- The three flags of a block.
pub data IsFlag : ℕ → Type 0 where
  free : IsFlag free_flag
  first : IsFlag first_flag
  last : IsFlag last_flag

flag_digit : (f t : ℕ) → IsFlag f → has_flag f t ≡ (t / f % 2 == 1)
unfolding has_flag
flag_digit f t free = ground (arith, and_1 t)
flag_digit f t first = ground (arith, and_2 t)
flag_digit f t last = ground (arith, and_4 t)

with_flag-eq :
    (f t : ℕ) (v : Bool)
    → IsFlag f
    → t < word
    → with_flag f v t ≡ t - f * (t / f % 2) + (if v then f else 0)
unfolding with_flag
with_flag-eq f t true free h = omega (arith, or_1 t)
with_flag-eq f t false free h = omega (arith, clear_1 t h)
with_flag-eq f t true first h = omega (arith, or_2 t)
with_flag-eq f t false first h = omega (arith, clear_2 t h)
with_flag-eq f t true last h = omega (arith, or_4 t)
with_flag-eq f t false last h = omega (arith, clear_4 t h)

with_size-eq : (t s : ℕ) → s % 16 ≡ 0 → with_size t s ≡ t % 16 + s
unfolding with_size
with_size-eq t s whole = ground (arith, low_4 t, join_16 (t % 16) s (omega arith) whole)

-- `setSize` with a multiple of 16 sets the size and no flag.
pub with_size_lem :
    (t s : ℕ)
    → s % 16 ≡ 0
    → s < word
    → (tag_size (with_size t s) ≡ s)
      × ((f : ℕ) → IsFlag f → has_flag f (with_size t s) ≡ has_flag f t)
      × (with_size t s < word)
with_size_lem t s whole fits = (
  ground (arith, with_size-eq t s whole, tag_size-eq (t % 16 + s) (omega arith)),
  λ f is. kept f is,
  ground (arith, with_size-eq t s whole),
)
  where
    kept : (f : ℕ) → IsFlag f → has_flag f (with_size t s) ≡ has_flag f t
    kept f free =
        ground (arith, with_size-eq t s whole, flag_digit 1 t free, flag_digit 1 (t % 16 + s) free)
    kept f first =
        ground
          (arith, with_size-eq t s whole, flag_digit 2 t first, flag_digit 2 (t % 16 + s) first)
    kept f last =
        ground (arith, with_size-eq t s whole, flag_digit 4 t last, flag_digit 4 (t % 16 + s) last)

-- The word after a flag was set.
abbrev flagged : ℕ → ℕ → Bool → ℕ
flagged f t v = t - f * (t / f % 2) + (if v then f else 0)

flagged-digit :
    (f g t : ℕ) (v : Bool) → IsFlag f → IsFlag g → g ≢ f → (flagged f t v / g % 2 ≡ t / g % 2)
flagged-digit f g t true free free ne = absurd (ne refl)
flagged-digit f g t true free first ne = omega arith
flagged-digit f g t true free last ne = omega arith
flagged-digit f g t true first free ne = omega arith
flagged-digit f g t true first first ne = absurd (ne refl)
flagged-digit f g t true first last ne = omega arith
flagged-digit f g t true last free ne = omega arith
flagged-digit f g t true last first ne = omega arith
flagged-digit f g t true last last ne = absurd (ne refl)
flagged-digit f g t false free free ne = absurd (ne refl)
flagged-digit f g t false free first ne = omega arith
flagged-digit f g t false free last ne = omega arith
flagged-digit f g t false first free ne = omega arith
flagged-digit f g t false first first ne = absurd (ne refl)
flagged-digit f g t false first last ne = omega arith
flagged-digit f g t false last free ne = omega arith
flagged-digit f g t false last first ne = omega arith
flagged-digit f g t false last last ne = absurd (ne refl)

flagged-own : (f t : ℕ) (v : Bool) → IsFlag f → (flagged f t v / f % 2 == 1) ≡ v
flagged-own f t true free = ground arith
flagged-own f t true first = ground arith
flagged-own f t true last = ground arith
flagged-own f t false free = ground arith
flagged-own f t false first = ground arith
flagged-own f t false last = ground arith

flagged-size :
    (f t : ℕ) (v : Bool)
    → IsFlag f
    → t < word
    → (flagged f t v / 16 ≡ t / 16) × (flagged f t v < word)
flagged-size f t true free h = (omega arith, omega arith)
flagged-size f t true first h = (omega arith, omega arith)
flagged-size f t true last h = (omega arith, omega arith)
flagged-size f t false free h = (omega arith, omega arith)
flagged-size f t false first h = (omega arith, omega arith)
flagged-size f t false last h = (omega arith, omega arith)

-- Setting a flag sets that flag, and neither the size nor another flag.
pub with_flag_lem :
    (f t : ℕ) (v : Bool)
    → IsFlag f
    → t < word
    → (has_flag f (with_flag f v t) ≡ v)
      × (tag_size (with_flag f v t) ≡ tag_size t)
      × ((g : ℕ) → IsFlag g → g ≢ f → has_flag g (with_flag f v t) ≡ has_flag g t)
      × (with_flag f v t < word)
with_flag_lem f t v is fits =
    let (same, small) = flagged-size f t v is fits in
    rw (with_flag-eq f t v is fits) (
      flag_digit f (flagged f t v) is ∙ flagged-own f t v is,
      omega (arith, tag_size-eq t fits, tag_size-eq (flagged f t v) small),
      (λ g g_is ne.
          flag_digit g (flagged f t v) g_is
          ∙ ap (λ (d : ℕ). d == 1) (flagged-digit f g t v is g_is ne)
          ∙ sym (flag_digit g t g_is)),
      small,
    )
