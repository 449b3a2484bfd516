-- ===== src/Segment/Heap/Grow/Adopt.antt =====
-- `addSegment`: the mapping is adopted, with its one block in a bin.
use m_alloc.Base.{
  ℕ, ◌+◌, ◌≤◌, ◌≡◌, refl, arith, Bool, true, false, sym, inl, inr, subst, some, List, [], ◌∷◌, ◌++◌,
  ◌==◌,
}
use m_alloc.Memory.{Ptr, Bytes, null}
use m_alloc.SystemMemory.{Region, World, Os, Documented, within, covered, is_valid}
use m_alloc.SystemMemory.Fresh.{Mapped, MapResult, within-once}
use m_alloc.Pool.Invariant.{Share}
use m_alloc.Segment.Tag.{segment_size}
use m_alloc.Segment.Bins.{SegmentHeap, insert_free}
use m_alloc.Segment.Ops.{adopt_segment}
use m_alloc.Segment.Heap.{Cell, View, HeapInv, put}
use m_alloc.Segment.Heap.Flip.{flip, put-here}
use m_alloc.Segment.Heap.Marks.{Marked}
use m_alloc.Segment.Heap.Marks.Ops.{insert_free-Marked}
use m_alloc.Segment.Heap.Coalesced.{Coalesced-fewer, freed-Coalesced}
use m_alloc.Segment.Heap.Keeps.{Kept, Kept-trans, Kept-self, marked-Keeps}
use m_alloc.Segment.Heap.Owned.{SegmentInv}
use m_alloc.Segment.Heap.Grow.{
  grown-NoMoreFree, grown-Before, grown, cell, new_at, grown-HeapInv, grown_heap, grown-Kept,
  grown-Beyond, m0, m1, Listed-cases, elsewhere_ne,
}
use m_alloc.Segment.Heap.Beyond.{Beyond, Beyond-trans, marked-Beyond}

-- The invariant, every block in use, and all memory outside the segments.
pub record Unharmed (v : View) (others : Share) (m : Bytes) (h' : SegmentHeap) (w' : World)
    : Type 0 where
  pub view : View
  pub lists : ℕ → List Ptr
  pub inv : SegmentInv view lists others h' w'
  pub keeps : (x : Ptr) (e : Cell) → v x ≡ some e → e.free ≡ false → Kept view m w'.bytes x e
  pub beyond : Beyond h'.segments m w'.bytes

-- A free block of a whole segment's size.
abbrev pub Room : View → Type 0
Room v = (b : Ptr) × (c : Cell) × (v b ≡ some c) × (c.free ≡ true) × (segment_size ≤ c.size)

covered-last :
    (segments : List Region) (r : Region) (a : Ptr)
    → covered (segments ++ r ∷ []) a ≡ covered segments a + within r.base r.size a
unfolding covered
covered-last [] r a = omega arith
covered-last (s ∷ ss) r a = omega (arith, covered-last ss r a)

module _ (os : Os) (doc : Documented os) (v : View) (lists : ℕ → List Ptr) (others : Share)
    (h : SegmentHeap) (w : World) (inv : SegmentInv v lists others h w) where
  abbrev pub GrowResult : Bool × SegmentHeap × World → Type 0
  GrowResult (grew, h', w') = (u : Unharmed v others w.bytes h' w') × (grew ≡ true → Room u.view)

  module _ (r : Region) (w' : World) (new : Mapped os doc segment_size w r w') where
    v1 : View
    v1 = grown os doc v lists others h w inv r w' new

    h1 : SegmentHeap
    h1 = grown_heap os doc v lists others h w inv r w' new

    bytes1 : Bytes
    bytes1 = m1 os doc v lists others h w inv r w' new

    cell1 : Cell
    cell1 = cell os doc v lists others h w inv r w' new

    marked :
        Marked true v1 null h1 bytes1 r.base cell1
          (insert_free r.base h1 bytes1).0
          (insert_free r.base h1 bytes1).1
    unfolding v1 h1 bytes1 cell1 cell
    marked =
        insert_free-Marked v1 lists null h1 bytes1
          (grown-HeapInv os doc v lists others h w inv r w' new) r.base cell1
          (new_at os doc v lists others h w inv r w' new) refl

    adopted :
        Unharmed v others w.bytes
          (insert_free r.base h1 bytes1).0
          (record w' { bytes = (insert_free r.base h1 bytes1).1 })
    unfolding insert_free h1 grown_heap v1 bytes1 cell1 cell covered
    adopted = record {
      view = put v1 r.base (some (flip true cell1));
      lists = marked.lists;
      inv = record {
        heap = marked.inv;
        coalesced =
            freed-Coalesced v1 r.base cell1
              (Coalesced-fewer v v1 (grown-NoMoreFree os doc v lists others h w inv r w' new)
                inv.coalesced)
              (λ e bad _ _. absurd (ground (arith, bad)))
              (grown-Before os doc v lists others h w inv r w' new) (omega (arith, new.big));
        listed = λ s l. elim (Listed-cases s r h.segments l) [
          | inl old ↦ rw new.listed (inr (inv.listed s old))
          | inr is ↦ rw new.listed (inl is)
        ];
        non_empty = rw new.listed (omega (arith, new.big), inv.non_empty);
        live = λ a. rw new.listed (omega (arith, inv.live a, covered-last h.segments r a));
        single = λ a. rw new.listed (within-once r.base r.size a _ (new.alone a) (inv.single a));
      };
      beyond =
          subst (λ s. Beyond s w.bytes (insert_free r.base h1 bytes1).1) (sym marked.segments)
            (Beyond-trans h1.segments w.bytes bytes1 _
              (λ a out.
                grown-Beyond os doc v lists others h w inv r w' new a
                  (omega (arith, out, covered-last h.segments r a)))
              (marked-Beyond v1 null h1.segments bytes1 _ r.base cell1
                (grown-HeapInv os doc v lists others h w inv r w' new).laid
                (new_at os doc v lists others h w inv r w' new) marked.frame));
      keeps = λ x e x_at x_used.
          let k = grown-Kept os doc v lists others h w inv r w' new x e x_at x_used in
          Kept-trans v1 _ w.bytes bytes1 _ x e k (
            marked-Keeps true v1 null h1.segments bytes1 _ r.base cell1
              (grown-HeapInv os doc v lists others h w inv r w' new).laid
              (new_at os doc v lists others h w inv r w' new) marked.frame x k.cell k.there k.in_use
              (elsewhere_ne os doc v lists others h w inv r w' new x e x_at));
    }

    room : Room adopted.view
    unfolding adopted cell1 cell flip
    room = (r.base, flip true cell1, put-here v1 r.base (some (flip true cell1)), refl, new.big)

  same : (w' : World) → w'.bytes ≡ w.bytes → w'.mapped ≡ w.mapped → Unharmed v others w.bytes h w'
  same w' bytes mapped = record {
    view = v;
    lists = lists;
    inv = record {
      coalesced = inv.coalesced;
      heap = subst (HeapInv v lists null h) (sym bytes) inv.heap;
      listed = λ s l. rw mapped (inv.listed s l);
      non_empty = rw mapped inv.non_empty;
      live = λ a. rw mapped (inv.live a);
      single = λ a. rw mapped (inv.single a);
    };
    keeps = λ x e x_at x_used. rw bytes (Kept-self x e x_at x_used);
    beyond = λ a _. rw bytes refl;
  }

  pub adopt-Unharmed :
      (r : Region) (w' : World)
      → MapResult os doc segment_size w (r, w')
      → GrowResult (adopt_segment h (r, w'))
  unfolding adopt_segment is_valid insert_free h1 grown_heap bytes1 m1 m0
  adopt-Unharmed r w' (inl (e, bytes, mapped)) =
      rw e (same w' bytes mapped, λ bad. absurd (ground (arith, bad)))
  adopt-Unharmed r w' (inr new) =
      let valid : (r.size == 0) ≡ false = ground (arith, new.big) in
      rw (valid, new.filled) (adopted r w' new, λ _. room r w' new)
