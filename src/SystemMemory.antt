-- ===== src/SystemMemory.antt =====
-- src/SystemMemory.{hpp,cpp}: mappings from the operating system (the POSIX branch) and their owner.
-- The kernel is the parameter `Os`: what `sysconf` and `mmap` return, the latter for each call.
pub mod Fresh
use m_alloc.Base.{
  ℕ, ◌+◌, ◌-◌, ◌*◌, ◌/◌, ◌%◌, ◌≤◌, ◌<◌, ◌≡◌, ◌≢◌, Bool, true, false, not, ◌&&◌, ◌==◌, ltb, leb,
  if◌then◌else◌, List, [], ◌∷◌, Option, none, some,
}
use m_alloc.Memory.{Ptr, Bytes, null, fill}
use m_alloc.Header.{word}

-- std::span<std::byte>
pub record Region : Type 0 where
  pub base : Ptr
  pub size : ℕ

abbrev pub no_region : Region
no_region = record { base = null; size = 0 }

-- Memory, the live mappings, and the number of calls of `mmap` so far.
pub record World : Type 0 where
  pub bytes : Bytes
  pub mapped : List Region
  pub calls : ℕ

-- `mmap n live len` is what call `n` returns while `live` is mapped: `none` is MAP_FAILED.
pub record Os : Type 0 where
  pub page_size : ℕ
  pub mmap : ℕ → List Region → ℕ → Option Ptr

-- 1 if the address lies in the range of `n` bytes at `p`, and 0 if not.
unfoldable pub within : Ptr → ℕ → Ptr → ℕ
within p n a = if leb p a && ltb a (p + n) then 1 else 0

-- How many of the regions hold the address.
unfoldable pub covered : List Region → Ptr → ℕ
covered [] a = 0
covered (r ∷ rs) a = within r.base r.size a + covered rs a

-- What POSIX promises of the page size and of a mapping at an address of the kernel's choice: it
-- starts at a page, is not at 0, ends below 2 ^ 64, and meets no live mapping.
pub record Documented (os : Os) : Type 0 where
  pub page_small : os.page_size ≤ 65536
  pub page_16 : os.page_size % 16 ≡ 0
  pub page_pos : 0 < os.page_size
  pub at_page :
      (n : ℕ) (live : List Region) (len : ℕ) (p : Ptr)
      → os.mmap n live len ≡ some p
      → p % os.page_size ≡ 0
  pub non_null :
      (n : ℕ) (live : List Region) (len : ℕ) (p : Ptr) → os.mmap n live len ≡ some p → 0 < p
  pub in_space :
      (n : ℕ) (live : List Region) (len : ℕ) (p : Ptr)
      → os.mmap n live len ≡ some p
      → p + len < word
  pub apart :
      (n : ℕ) (live : List Region) (len : ℕ) (p : Ptr)
      → os.mmap n live len ≡ some p
      → (a : Ptr) → within p len a ≡ 1
      → covered live a ≡ 0

module _ (os : Os) where
  unfoldable pub round_to_pages : ℕ → ℕ
  round_to_pages size = (size + os.page_size - 1) % word / os.page_size * os.page_size

  -- The new mapping is filled with zeros.
  add_mapping : Ptr → ℕ → World → World
  add_mapping p rounded w = record {
    bytes = fill p 0 rounded w.bytes;
    mapped = record { base = p; size = rounded } ∷ w.mapped;
    calls = w.calls + 1;
  }

  unfoldable pub sys_map : ℕ → World → Region × World
  unfolding add_mapping
  sys_map size w =
      if size == 0 then (no_region, w) else elim (os.mmap w.calls w.mapped (round_to_pages size)) [
        | none ↦ (no_region, record w { calls = w.calls + 1 })
        | some p ↦
            (record { base = p; size = round_to_pages size }, add_mapping p (round_to_pages size) w)
      ]

-- munmap of a whole mapping; of an address where none starts it changes nothing.
unfoldable pub drop_mapping : Ptr → List Region → List Region
drop_mapping p [] = []
drop_mapping p (r ∷ rs) = if r.base == p then rs else r ∷ drop_mapping p rs

unfoldable pub sys_unmap : Region → World → World
unfolding drop_mapping
sys_unmap r w = if r.size == 0 then w else record w { mapped = drop_mapping r.base w.mapped }

-- MappedRegion::valid and MappedRegion::reset, which the destructor calls.
unfoldable pub is_valid : Region → Bool
is_valid r = not (r.size == 0)

-- MappedRegion::release, and the move constructor, which takes what it gives: the span for the new
-- owner, and what the old one keeps.
unfoldable pub release : Region → Region × Region
release r = (r, no_region)

unfoldable pub reset : Region → World → Region × World
unfolding sys_unmap
reset r w = if r.size == 0 then (r, w) else (no_region, sys_unmap r w)

-- MappedRegion::operator= from another region: the two of them afterwards.
unfoldable pub move_region : Region → Region → World → Region × Region × World
unfolding reset release
move_region this other w = let (r, left) = release other in (r, left, (reset this w).1)
