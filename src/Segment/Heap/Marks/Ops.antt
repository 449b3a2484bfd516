-- ===== src/Segment/Heap/Marks/Ops.antt =====
-- `insertFree` and `removeFree` keep the invariant: a block is marked free and enters its bin, or
-- it is marked in use and leaves it.
use m_alloc.Base.{
  ℕ, ◌<◌, ◌≡◌, arith, true, false, ap, ◌∙◌, inl, inr, subst, some, List, ◌∷◌, ◌++◌, get_or,
}
use m_alloc.Memory.{Ptr, Bytes, null}
use m_alloc.Memory.Laws.{Apart}
use m_alloc.Segment.Tag.{node_of, size_at, bin_index}
use m_alloc.Segment.Bins.{SegmentHeap, insert_free, remove_free}
use m_alloc.Segment.Bins.Front.{Linked, Separate}
use m_alloc.Segment.Bins.Unlink.Remove.{Relinked, unlinked-Relinked, remove_free-Relinked}
use m_alloc.Segment.Bins.Insert.{insert_free-Relinked, link_front-off}
use m_alloc.Segment.Heap.{Cell, View, Tagged, HeapInv, put, count, in_bin}
use m_alloc.Segment.Heap.Tags.{Tagged-same, set_free-Tagged}
use m_alloc.Segment.Heap.Members.{count-append, count-split, All-counted, bin-Separate}
use m_alloc.Segment.Heap.Flip.{flip}
use m_alloc.Segment.Heap.Marks.{
  Marked, index, after, relinked-Marked, same_bin, list_once, own_count, near, far, room, low,
  bin_links,
}

-- `insertFree` of a block in use keeps the invariant of layout, tags and bins: the block is marked
-- free and in the bin of its size, all else is laid out as before, and memory is the same but for
-- the block's own first 48 bytes and the links of free blocks.
pub insert_free-Marked :
    (v : View) (lists : ℕ → List Ptr) (loose : Ptr) (h : SegmentHeap) (m : Bytes)
    → HeapInv v lists loose h m
    → (b : Ptr) (c : Cell) → v b ≡ some c
    → c.free ≡ false
    → Marked true v loose h m b c (insert_free b h m).0 (insert_free b h m).1
unfolding index after flip insert_free
insert_free-Marked v lists loose h m inv b c at in_use =
    relinked-Marked true v lists loose h m inv b c at (b ∷ bs) (insert_free b h m).0
      (insert_free b h m).1
      (subst (λ i. Relinked b 8 i (b ∷ bs) h (insert_free b h m).0 m (insert_free b h m).1)
        (same_bin true v lists loose h m inv b c at)
        (insert_free-Relinked b h m bs (low true v lists loose h m inv b c at)
          (room true v lists loose h m inv b c at)
          (
            All-counted (λ x. Apart (node_of x) 16 (node_of b) 16) bs
                (far true v lists loose h m inv b c at in_use),
            bin-Separate v loose h.segments inv.laid (bin_index c.size) bs
                (inv.binned.once (bin_index c.size)),
          )
          (All-counted (λ x. Apart b 8 (node_of x) 16) bs
            (λ x more. ground (arith, near true v lists loose h m inv b c at x more)))
          (bin_links true v lists loose h m inv b c at)))
      tagged once
  where
    bs : List Ptr
    bs = lists (bin_index c.size)

    tagged : Tagged (insert_free b h m).1 b (flip true c)
    tagged = set_free-Tagged true _ b c (
        Tagged-same m _ b c
          (link_front-off (node_of b) (get_or h.bins (bin_index (size_at b m)) null) b 16 m bs
            (bin_links true v lists loose h m inv b c at) (inl (omega arith))
            (All-counted (λ x. Apart b 16 (node_of x) 16) bs
              (near true v lists loose h m inv b c at)))
          (inv.held b c at))

    once : (x : Ptr) → count x (b ∷ bs) ≡ in_bin (bin_index c.size) (put v b (some (flip true c)) x)
    once =
        list_once true v lists loose h m inv b c at (b ∷ bs)
          (ground (arith, in_use, own_count true v lists loose h m inv b c at))
          (λ x ne. ground (arith, ne))

-- `removeFree` of a free block keeps the invariant of layout, tags and bins: the block is marked in
-- use and in no bin, all else is laid out as before, and memory is the same but for the block's own
-- tag and the links of free blocks.
pub remove_free-Marked :
    (v : View) (lists : ℕ → List Ptr) (loose : Ptr) (h : SegmentHeap) (m : Bytes)
    → HeapInv v lists loose h m
    → (b : Ptr) (c : Cell) → v b ≡ some c
    → c.free ≡ true
    → Marked false v loose h m b c (remove_free b h m).0 (remove_free b h m).1
unfolding index after flip remove_free
remove_free-Marked v lists loose h m inv b c at is_free =
    let count_b : count b bs ≡ 1 =
      ground (arith, is_free, own_count false v lists loose h m inv b c at) in
    let (xs, ys, split) = count-split b bs (omega (arith, count_b)) in
    let whole = count-append b xs (b ∷ ys) in
    let apart = subst Separate split (
      bin-Separate v loose h.segments inv.laid (bin_index c.size) bs
        (inv.binned.once (bin_index c.size))) in
    let links =
      subst (Linked m null (get_or h.bins (bin_index (size_at b m)) null)) split
        (bin_links false v lists loose h m inv b c at) in
    let counted = λ (x : Ptr). ap (count x) split ∙ count-append x xs (b ∷ ys) in
    let fewer : (x : Ptr) → 0 < count x (xs ++ ys) → 0 < count x bs =
      λ x more. ground (arith, counted x, count-append x xs ys, more) in
    let first =
      unlinked-Relinked b h m xs ys (low false v lists loose h m inv b c at) apart links in
    relinked-Marked false v lists loose h m inv b c at (xs ++ ys) (remove_free b h m).0
      (remove_free b h m).1
      (subst (λ i. Relinked b 8 i (xs ++ ys) h (remove_free b h m).0 m (remove_free b h m).1)
        (same_bin false v lists loose h m inv b c at)
        (remove_free-Relinked b h m xs ys (low false v lists loose h m inv b c at) apart
          (All-counted (λ x. Apart b 8 (node_of x) 16) (xs ++ ys)
            (λ x more. ground (arith, near false v lists loose h m inv b c at x (fewer x more))))
          links))
      (set_free-Tagged false _ b c (
        Tagged-same m _ b c
          (first.spared b 16 (inr (omega arith)) (
            All-counted (λ x. Apart b 16 (node_of x) 16) (xs ++ ys)
              (λ x more. near false v lists loose h m inv b c at x (fewer x more))))
          (inv.held b c at)))
      (list_once false v lists loose h m inv b c at (xs ++ ys)
        (ground (arith, counted b, count-append b xs ys, count_b))
        (λ x ne. ground (arith, counted x, count-append x xs ys, ne)))
  where
    bs : List Ptr
    bs = lists (bin_index c.size)
