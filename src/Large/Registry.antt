-- ===== src/Large/Registry.antt =====
-- The registry's operations, and the allocation against them.
use m_alloc.Base.{
  ◌+◌, ◌-◌, ◌≤◌, ◌<◌, ◌≡◌, ◌≢◌, refl, List, [], ◌∷◌, none, some, arith, inl, inr, Option-cases, All,
}
use m_alloc.Memory.{Ptr}
use m_alloc.SystemMemory.{Region, within, covered}
use m_alloc.Large.{Registry, payload_offset, find, erase}

pub find-erase : (p q : Ptr) (rs : Registry) → p ≢ q → find q (erase p rs) ≡ find q rs
unfolding find erase
find-erase p q [] ne = refl
find-erase p q ((k, r) ∷ rs) ne = ground (arith, find-erase p q rs ne)

-- The regions of the registry.
unfoldable pub regions : Registry → List Region
regions [] = []
regions ((k, r) ∷ rs) = r ∷ regions rs

-- Each payload lies `payload_offset` bytes into its region.
abbrev pub Keyed : Registry → Type 0
Keyed rs = All (λ e. (e.0 ≡ e.1.base + payload_offset) × (0 < e.1.size)) rs

pub find-Keyed :
    (p : Ptr) (rs : Registry) (r : Region)
    → Keyed rs
    → find p rs ≡ some r
    → (p ≡ r.base + payload_offset) × (0 < r.size) × (1 ≤ covered (regions rs) r.base)
unfolding find regions covered within
find-Keyed p [] r keyed e = cc
find-Keyed p ((k, s) ∷ rs) r keyed e = ground (arith, find-Keyed p rs r keyed.1, keyed.0)

-- A payload whose region's start no region covers is not registered.
pub find-fresh :
    (p : Ptr) (rs : Registry)
    → Keyed rs
    → covered (regions rs) (p - payload_offset) ≡ 0
    → find p rs ≡ none
find-fresh p rs keyed h = elim (Option-cases (find p rs)) [
  | inl e ↦ e
  | inr (r, e) ↦ absurd (ground (arith, find-Keyed p rs r keyed e))
]

pub covered-erase :
    (p : Ptr) (rs : Registry) (r : Region) (a : Ptr)
    → find p rs ≡ some r
    → covered (regions (erase p rs)) a + within r.base r.size a ≡ covered (regions rs) a
unfolding find erase regions covered
covered-erase p [] r a e = cc
covered-erase p ((k, s) ∷ rs) r a e = ground (arith, covered-erase p rs r a)
