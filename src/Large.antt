-- ===== src/Large.antt =====
-- src/LargeAllocator.{hpp,cpp}: one mapping for each large allocation, in a registry by payload.
-- The hash map is an association list with each key once; its lock makes each operation one step.
pub mod Registry
pub mod Ownership
pub mod Release
use m_alloc.Base.{
  ℕ, ◌+◌, ◌-◌, ◌%◌, Bool, true, false, not, ◌==◌, if◌then◌else◌, List, [], ◌∷◌, Option, none, some,
}
use m_alloc.Memory.{Ptr}
use m_alloc.Header.{word}
use m_alloc.SystemMemory.{Region, World, Os, sys_map, sys_unmap, is_valid}

-- regions_
abbrev pub Registry : Type 0
Registry = List (Ptr × Region)

abbrev pub payload_offset : ℕ
payload_offset = 16

unfoldable pub find : Ptr → Registry → Option Region
find p [] = none
find p ((k, r) ∷ rs) = if k == p then some r else find p rs

-- The registry without the key; a `MappedRegion` that leaves it is unmapped by its destructor.
unfoldable pub erase : Ptr → Registry → Registry
erase p [] = []
erase p ((k, r) ∷ rs) = if k == p then rs else (k, r) ∷ erase p rs

-- Of an existing key nothing is replaced, and the new region is destroyed.
unfoldable pub emplace : Ptr → Region → Registry → World → Registry × World
emplace p r rs w = elim (find p rs) [ none ↦ ((p, r) ∷ rs, w) | some _ ↦ (rs, sys_unmap r w) ]

-- `LargeAllocator::allocate` behind the construction of the region.
unfoldable pub register : Registry → Region × World → Option Ptr × Registry × World
register rs (r, w) =
    if is_valid r
    then (let (rs', w') = emplace (r.base + payload_offset) r rs w in
        (some (r.base + payload_offset), rs', w'))
    else (none, rs, w)

unfoldable pub large_allocate : Os → ℕ → Registry → World → Option Ptr × Registry × World
large_allocate os bytes rs w = register rs (sys_map os ((bytes + payload_offset) % word) w)

unfoldable pub large_deallocate : Ptr → Registry → World → Bool × Registry × World
large_deallocate p rs w = elim (find p rs) [
  | none ↦ (false, rs, w)
  | some r ↦ (true, erase p rs, sys_unmap r w)
]

unfoldable pub contains : Ptr → Registry → Bool
contains p rs = elim (find p rs) [ none ↦ false | some _ ↦ true ]

unfoldable pub large_capacity : Ptr → Registry → ℕ
large_capacity p rs = elim (find p rs) [ none ↦ 0 | some r ↦ r.size - payload_offset ]
