-- ===== src/SizeClass/Bounds.antt =====
-- The lookup table against the list of class sizes.
use m_alloc.Base.{
  ℕ, suc, ◌+◌, ◌-◌, ◌*◌, ◌/◌, ◌%◌, ◌≤◌, ◌<◌, ◌≡◌, refl, ◌⊎◌, Bool, true, ◌&&◌, ◌||◌, ltb, leb, ◌==◌,
  arith, get_or, all_below, all_below_sound, ltb→lt, leb→le, le-or-lt, ap, inl, inr,
}
use native.Mathlib.Decide.{ℕ_discrete}
use m_alloc.Header.{small_max, word}
use m_alloc.SizeClass.{class_count, class_size, class_index, lookup, granularity}

-- A slot's entry is a class that holds the slot's largest size, and the class below does not hold
-- its smallest.
fits : ℕ → ℕ → Bool
unfolding class_size
fits slot i =
    ltb i class_count
    && (leb (slot * 8) (class_size i) && ((i == 0) || leb (class_size (i - 1) + 8) (slot * 8)))

entry : ℕ → ℕ
unfolding lookup
entry slot = get_or lookup slot 0

fits_table : all_below 513 (λ slot. fits slot (entry slot)) ≡ true
unfolding fits entry all_below
fits_table = refl

sizes_table : all_below 30 (λ i. all_below i (λ j. ltb (class_size j) (class_size i))) ≡ true
unfolding class_size all_below
sizes_table = refl

-- Smaller classes have smaller blocks.
pub class_size_mono : (j i : ℕ) → j < i → i < class_count → class_size j < class_size i
class_size_mono j i h top =
    let row = all_below_sound 30 _ i sizes_table top in
    ltb→lt _ _ (all_below_sound i (λ j. ltb (class_size j) (class_size i)) j row h)

abbrev pub slot_of : ℕ → ℕ
slot_of size = (size + 7) / 8

entry-slot_of : (size : ℕ) → size ≤ small_max → class_index size ≡ entry (slot_of size)
unfolding class_index entry
entry-slot_of size h =
    let e : (size + granularity - 1) % word / granularity ≡ slot_of size = omega arith in
    ap (λ s. get_or lookup s 0) e

record Fits (size i : ℕ) : Type 0 where
  in_table : i < class_count
  holds : size ≤ class_size i
  below : (i ≡ 0) ⊎ (class_size (i - 1) < size)

fits-Fits : (size i : ℕ) → 0 < size → fits (slot_of size) i ≡ true → Fits size i
unfolding fits
fits-Fits size i pos h = ground arith

class_index-Fits : (size : ℕ) → 0 < size → size ≤ small_max → Fits size (class_index size)
class_index-Fits size pos h = rw (entry-slot_of size h) (
    fits-Fits size (entry (slot_of size)) pos (
      all_below_sound 513 (λ slot. fits slot (entry slot)) (slot_of size) fits_table (omega arith)))

-- For every size that the small tier takes, `classIndex` is the first class that holds it: it is in
-- the table, its blocks are large enough, and those of every class before it are too small.
pub class_index_least :
    (size : ℕ)
    → 0 < size
    → size ≤ small_max
    → (class_index size < class_count)
      × (size ≤ class_size (class_index size))
      × ((j : ℕ) → j < class_index size → class_size j < size)
class_index_least size pos h = (fit.in_table, fit.holds, smaller)
  where
    fit : Fits size (class_index size)
    fit = class_index-Fits size pos h

    smaller : (j : ℕ) → j < class_index size → class_size j < size
    smaller j lt = elim (ℕ_discrete (suc j) (class_index size)) [
      | yes last ↦ let e : class_index size - 1 ≡ j = omega arith in ground (arith, fit.below)
      | no other ↦ omega (
        arith,
        fit.below,
        class_size_mono j (class_index size - 1) (omega arith) (omega (arith, fit.in_table)),
      )
    ]

spacing_table : all_below 20 (λ i. leb (4 * class_size (i + 10)) (5 * class_size (i + 9))) ≡ true
unfolding class_size all_below
spacing_table = refl

small_table : all_below 10 (λ i. leb (class_size i) (class_size (i - 1) + 16)) ≡ true
unfolding class_size all_below
small_table = refl

class_size-spacing :
    (i : ℕ)
    → 0 < i
    → i < class_count
    → (class_size i ≤ class_size (i - 1) + 16) ⊎ (4 * class_size i ≤ 5 * class_size (i - 1))
class_size-spacing i pos top = elim (le-or-lt 10 i) [
  | inl big ↦ inr (rise big (all_below_sound 20 _ (i - 10) spacing_table (omega arith)))
  | inr low ↦ inl (leb→le _ _ (all_below_sound 10 _ i small_table low))
]
  where
    rise :
        10 ≤ i
        → leb (4 * class_size (i - 10 + 10)) (5 * class_size (i - 10 + 9)) ≡ true
        → 4 * class_size i ≤ 5 * class_size (i - 1)
    rise big h =
        let same : i - 10 + 10 ≡ i = omega arith in
        let before : i - 10 + 9 ≡ i - 1 = omega arith in leb→le _ _ (rw (same, before) at h)

class_size-zero : class_size 0 ≡ 8
unfolding class_size
class_size-zero = refl

-- What a size class wastes on a request is less than 16 bytes or less than a fifth of the block.
pub class_waste :
    (size : ℕ)
    → 0 < size
    → size ≤ small_max
    → (class_size (class_index size) < size + 16)
      ⊎ (5 * (class_size (class_index size) - size) < class_size (class_index size))
class_waste size pos h = elim (le-or-lt (class_index size) 0) [
  | inl z ↦ inl (ground (arith, class_size-zero))
  | inr up ↦ grind (arith, class_index-Fits size pos h, class_size-spacing (class_index size) up)
]
