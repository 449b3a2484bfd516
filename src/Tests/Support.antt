-- ===== src/Tests/Support.antt =====
-- The helpers of the headers and the size classes.
use m_alloc.Base.{true, ℕ, ◌+◌, ◌-◌, ◌*◌, ◌%◌, ◌≤◌, ◌<◌, ◌≡◌, refl, ◌⊎◌, arith}
use m_alloc.Header.{align_up, is_power_of_two}
use m_alloc.Header.Align.{align_up_least, is_power_of_two_iff}
use m_alloc.SizeClass.{class_count, class_size, class_index}
use m_alloc.SizeClass.Bounds.{class_index_least, class_waste}

align_up_least_example :
    (100 ≤ align_up 100 64) × (align_up 100 64 < 100 + 64) × (align_up 100 64 % 64 ≡ 0)
align_up_least_example = align_up_least 100 6 (omega arith) (omega arith)

is_power_of_two_iff_example : is_power_of_two 4096 ≡ true
is_power_of_two_iff_example = (is_power_of_two_iff 4096).1 (12, refl)

class_index_least_example :
    (class_index 129 < class_count)
    × (129 ≤ class_size (class_index 129))
    × ((j : ℕ) → j < class_index 129 → class_size j < 129)
class_index_least_example = class_index_least 129 (omega arith) (omega arith)

class_waste_example :
    (class_size (class_index 1025) < 1025 + 16)
    ⊎ (5 * (class_size (class_index 1025) - 1025) < class_size (class_index 1025))
class_waste_example = class_waste 1025 (omega arith) (omega arith)

-- The static assertions of SizeClassTable.hpp.
class_index_one : class_index 1 ≡ 0
unfolding class_index
class_index_one = refl

class_index_eight : class_index 8 ≡ 0
unfolding class_index
class_index_eight = refl

class_index_nine : class_index 9 ≡ 1
unfolding class_index
class_index_nine = refl

class_index_last : class_index 4096 ≡ class_count - 1
unfolding class_index
class_index_last = refl

-- The worst request of the table wastes almost a fifth of its block.
waste_of_1025 : class_size (class_index 1025) ≡ 1280
unfolding class_index class_size
waste_of_1025 = refl
