-- ===== src/Segment/Heap/Owned.antt =====
-- The medium tier in the world: its segments are live mappings that it alone holds.
use m_alloc.Base.{ℕ, ◌+◌, ◌≤◌, arith, List}
use m_alloc.Memory.{Ptr, null}
use m_alloc.SystemMemory.{Region, World, covered}
use m_alloc.Large.Ownership.{Listed, NonEmpty}
use m_alloc.Pool.Invariant.{Share}
use m_alloc.Segment.Bins.{SegmentHeap}
use m_alloc.Segment.Heap.Coalesced.{Coalesced}
use m_alloc.Segment.Heap.{View, Laid, HeapInv}

-- `others` is what other parts of the allocator hold of the live mappings.
pub record SegmentInv (v : View) (lists : ℕ → List Ptr) (others : Share) (h : SegmentHeap)
    (w : World) : Type 0 where
  pub heap : HeapInv v lists null h w.bytes
  pub coalesced : Coalesced v
  pub listed : (s : Region) → Listed s h.segments → Listed s w.mapped
  pub non_empty : NonEmpty w.mapped
  pub live : (a : Ptr) → covered h.segments a + others a ≤ covered w.mapped a
  pub single : (a : Ptr) → covered w.mapped a ≤ 1

-- A layout in which every block knows the one before it is also one in which some block need not.
pub Laid-loosen :
    (v : View) (loose : Ptr) (segments : List Region) → Laid v null segments → Laid v loose segments
Laid-loosen v loose segments laid = record {
  shape = laid.shape;
  apart = laid.apart;
  next = λ x k at more.
      let n = laid.next x k at more in
      record {
        cell = n.cell;
        there = n.there;
        not_first = n.not_first;
        home = n.home;
        back = λ _. n.back (omega (arith, (laid.shape x k at).big));
      };
  prev = λ x k at later _. laid.prev x k at later (omega (arith, (laid.shape x k at).non_null));
  home = laid.home;
  rooted = laid.rooted;
}
