-- ===== src/SizeClass.antt =====
-- src/SizeClassTable.hpp: the 30 size classes and the lookup table that the constant initialiser
-- builds by a loop over its 513 slots.
pub mod Bounds
use m_alloc.Base.{
  ℕ, zero, suc, ◌+◌, ◌-◌, ◌*◌, ◌/◌, ◌%◌, ◌^◌, List, [], ◌∷◌, true, false, ltb, get_or,
}
use m_alloc.Header.{small_max, word}

abbrev pub class_count : ℕ
class_count = 30

abbrev pub class_sizes : List ℕ
class_sizes =
    8 ∷ 16 ∷ 24 ∷ 32 ∷ 48 ∷ 64 ∷ 80 ∷ 96 ∷ 112 ∷ 128 ∷ 160 ∷ 192 ∷ 224 ∷ 256 ∷ 320 ∷ 384 ∷ 448 ∷ 512
    ∷ 640 ∷ 768 ∷ 896 ∷ 1024 ∷ 1280 ∷ 1536 ∷ 1792 ∷ 2048 ∷ 2560 ∷ 3072 ∷ 3584 ∷ 4096 ∷ []

abbrev pub granularity : ℕ
granularity = 8

abbrev pub lookup_size : ℕ
lookup_size = small_max / granularity + 1

-- `std::array`'s read has no meaning out of range; the callers stay in range.
unfoldable pub class_size : ℕ → ℕ
class_size index = get_or class_sizes index 0

-- while (kClassSizes[classIdx] < size) ++classIdx
advance : ℕ → ℕ → ℕ → ℕ
unfolding class_size
advance zero class_idx size = class_idx
advance (suc fuel) class_idx size = elim (ltb (class_size class_idx) size) [
  | true ↦ advance fuel (class_idx + 1) size
  | false ↦ class_idx
]

-- for (slot ...) { ...; table[slot] = static_cast<std::uint8_t>(classIdx); }
build : ℕ → ℕ → ℕ → List ℕ
unfolding advance
build zero slot class_idx = []
build (suc rounds) slot class_idx =
    let reached = advance class_count class_idx (slot * granularity) in
    (reached % 2 ^ 8) ∷ build rounds (slot + 1) reached

lookup : List ℕ
unfolding build
lookup = build lookup_size 0 0

-- A read behind the table, for a size above 4096, has no defined result in the source; here it gives
-- class 0. `rawAllocate` stays in range, and so does `rawDeallocate` of a header that it wrote; only a
-- header that the program has overwritten leads out of it.
unfoldable pub class_index : ℕ → ℕ
unfolding lookup
class_index size = get_or lookup ((size + granularity - 1) % word / granularity) 0
