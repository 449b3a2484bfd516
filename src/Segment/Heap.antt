-- ===== src/Segment/Heap.antt =====
-- The medium tier's blocks as a map from addresses to cells, and the invariant that ties it to the
-- tags and bins of src/SegmentHeap.cpp in memory.
pub mod Tags
pub mod Members
pub mod Flip
pub mod Coalesced
pub mod Marks
pub mod Keeps
pub mod Beyond
pub mod Tell
pub mod Join
pub mod Cut
pub mod Split
pub mod Merge
pub mod Release
pub mod Owned
pub mod Freed
pub mod Deallocate
pub mod Search
pub mod Carve
pub mod Grow
pub mod Fuel
pub mod Allocate
pub mod Client
use m_alloc.Base.{
  ℕ, zero, suc, ◌+◌, ◌-◌, ◌%◌, ◌≤◌, ◌<◌, ◌≡◌, ◌≢◌, ◌⊎◌, Bool, true, false, ◌==◌, ◌&&◌,
  if◌then◌else◌, List, [], ◌∷◌, Option, none, some, get_or, length,
}
use m_alloc.Memory.{Ptr, Bytes, null, load64}
use m_alloc.Header.{word}
use m_alloc.SystemMemory.{Region}
use m_alloc.Large.Ownership.{Listed}
use m_alloc.Segment.Tag.{size_at, is_free, is_first, is_last, prev_size_at, bin_index, bin_count}
use m_alloc.Segment.Bins.{SegmentHeap}
use m_alloc.Segment.Bins.Front.{Linked}

-- What a block's tag says, and where the block belongs.
pub record Cell : Type 0 where
  pub size : ℕ
  pub free : Bool
  pub first : Bool
  pub last : Bool
  pub prev : ℕ
  -- The segment it lies in.
  pub home : Region

-- The block that starts at an address, if one does.
abbrev pub View : Type 0
View = Ptr → Option Cell

abbrev pub put : View → Ptr → Option Cell → View
put v b c x = if x == b then c else v x

-- The tag in memory is that of the cell.
pub record Tagged (m : Bytes) (b : Ptr) (c : Cell) : Type 0 where
  pub size : size_at b m ≡ c.size
  pub free : is_free b m ≡ c.free
  pub first : is_first b m ≡ c.first
  pub last : is_last b m ≡ c.last
  pub prev : prev_size_at b m ≡ c.prev
  pub fits : load64 b m < word

abbrev pub Held : View → Bytes → Type 0
Held v m = (b : Ptr) (c : Cell) → v b ≡ some c → Tagged m b c

-- Blocks have room for their links, are aligned, and lie in the address space.
pub record Shape (b : Ptr) (c : Cell) : Type 0 where
  pub big : 48 ≤ c.size
  pub whole : c.size % 16 ≡ 0
  pub aligned : b % 16 ≡ 0
  pub non_null : 0 < b
  pub in_space : b + c.size < word

-- The block's place in a segment: the first block starts it and the last one ends it.
pub record Home (segments : List Region) (b : Ptr) (c : Cell) : Type 0 where
  pub among : Listed c.home segments
  pub from : c.home.base ≤ b
  pub to : b + c.size ≤ c.home.base + c.home.size
  pub starts : c.first ≡ true → b ≡ c.home.base
  pub ends : c.last ≡ true → b + c.size ≡ c.home.base + c.home.size

-- The block behind a block that is not last.
pub record Next (v : View) (loose : Ptr) (b : Ptr) (c : Cell) : Type 0 where
  pub cell : Cell
  pub there : v (b + c.size) ≡ some cell
  pub not_first : cell.first ≡ false
  pub home : cell.home ≡ c.home
  pub back : b + c.size ≢ loose → cell.prev ≡ c.size

-- The block before a block that is not first.
pub record Prev (v : View) (b : Ptr) (c : Cell) : Type 0 where
  pub cell : Cell
  pub below : c.prev ≤ b
  pub there : v (b - c.prev) ≡ some cell
  pub size : cell.size ≡ c.prev
  pub not_last : cell.last ≡ false

-- A block of a segment starts it.
pub record Root (v : View) (s : Region) : Type 0 where
  pub cell : Cell
  pub there : v s.base ≡ some cell
  pub home : cell.home ≡ s

-- The blocks lie behind one another in the segments. The block at `loose` may not know yet the size
-- of the one before it.
pub record Laid (v : View) (loose : Ptr) (segments : List Region) : Type 0 where
  pub shape : (b : Ptr) (c : Cell) → v b ≡ some c → Shape b c
  pub apart : (b d : Ptr) (c e : Cell) → v b ≡ some c → v d ≡ some e → b < d → b + c.size ≤ d
  pub next : (b : Ptr) (c : Cell) → v b ≡ some c → c.last ≡ false → Next v loose b c
  pub prev : (b : Ptr) (c : Cell) → v b ≡ some c → c.first ≡ false → b ≢ loose → Prev v b c
  pub home : (b : Ptr) (c : Cell) → v b ≡ some c → Home segments b c
  pub rooted : (s : Region) → Listed s segments → Root v s

abbrev pub count : Ptr → List Ptr → ℕ
count x [] = 0
count x (b ∷ bs) = if x == b then suc (count x bs) else count x bs

-- Whether a block is in a bin: once when it is free and has that size, and never otherwise.
abbrev pub in_bin : ℕ → Option Cell → ℕ
in_bin i none = 0
in_bin i (some c) = if c.free && (bin_index c.size == i) then 1 else 0

-- Each bin links the free blocks of its sizes.
pub record Binned (v : View) (lists : ℕ → List Ptr) (bins : List Ptr) (m : Bytes) : Type 0 where
  pub all : length bins ≡ bin_count
  pub linked : (i : ℕ) → Linked m null (get_or bins i null) (lists i)
  pub once : (i : ℕ) (x : Ptr) → count x (lists i) ≡ in_bin i (v x)

-- The invariant of the tier.
pub record HeapInv (v : View) (lists : ℕ → List Ptr) (loose : Ptr) (h : SegmentHeap) (m : Bytes)
    : Type 0 where
  pub laid : Laid v loose h.segments
  pub held : Held v m
  pub binned : Binned v lists h.bins m
