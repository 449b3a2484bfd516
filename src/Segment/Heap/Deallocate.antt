-- ===== src/Segment/Heap/Deallocate.antt =====
-- `SegmentHeap::deallocate` of a block in use.
use m_alloc.Base.{
  ℕ, ◌+◌, ◌≡◌, ◌≢◌, refl, arith, true, false, ap, ◌∙◌, inl, inr, subst, some, List, Bool-cases,
}
use m_alloc.Memory.{Ptr, Bytes}
use m_alloc.SystemMemory.{Region, World, covered}
use m_alloc.Large.Ownership.{Listed}
use m_alloc.Pool.Invariant.{Share}
use m_alloc.Segment.Tag.{block_of, is_first, is_last}
use m_alloc.Segment.Bins.{SegmentHeap}
use m_alloc.Segment.Ops.{
  release_segment, insert_in, join_next, join_prev, tell_next, segment_deallocate,
}
use m_alloc.Segment.Heap.{Cell, View, Laid, HeapInv}
use m_alloc.Segment.Heap.Keeps.{Keeps, Kept-trans}
use m_alloc.Segment.Heap.Coalesced.{Coalesced, After, Before, Coalesced-fewer}
use m_alloc.Segment.Heap.Tell.{behind, Settled, tell_next-Settled}
use m_alloc.Segment.Heap.Merge.Joined.{Joined, join_next-Joined}
use m_alloc.Segment.Heap.Merge.Left.{join_prev-Joined}
use m_alloc.Segment.Heap.Owned.{SegmentInv, Laid-loosen}
use m_alloc.Segment.Heap.Freed.{Freed, binned, released}
use m_alloc.Segment.Heap.Beyond.{Beyond, Beyond-trans}

module _ (v : View) (lists : ℕ → List Ptr) (others : Share) (h : SegmentHeap) (w : World)
    (inv : SegmentInv v lists others h w) (payload : Ptr) (c : Cell)
    (at : v (block_of payload) ≡ some c) (in_use : c.free ≡ false) where
  given : Ptr
  given = block_of payload

  right : SegmentHeap × Bytes
  right = join_next given h w.bytes

  right-Joined : Joined v h w.bytes given given right.0 right.1
  unfolding right given join_next
  right-Joined = join_next-Joined v lists h w.bytes inv.heap given c at in_use inv.coalesced

  left : Ptr × SegmentHeap × Bytes
  left = join_prev given right.0 right.1

  left-Joined :
      (j : Joined right-Joined.view right.0 right.1 given left.0 left.1 left.2) × Before j.view
        left.0
  unfolding left join_prev
  left-Joined =
      let j = right-Joined in
      join_prev-Joined j.view j.lists j.loose right.0 right.1 j.inv given j.cell j.there j.in_use
        j.meets (Coalesced-fewer v j.view j.fewer inv.coalesced) j.after_used

  left-Coalesced : Coalesced left-Joined.0.view
  left-Coalesced =
      Coalesced-fewer right-Joined.view left-Joined.0.view left-Joined.0.fewer
        (Coalesced-fewer v right-Joined.view right-Joined.fewer inv.coalesced)

  -- Whatever the joins left to be told is told.
  settled :
      Settled left-Joined.0.view left-Joined.0.lists left.1 left.2 left.0 left-Joined.0.cell
        (tell_next left.0 left.2)
  settled =
      let j = left-Joined.0 in
      tell_next-Settled j.view j.lists left.1 left.2 left.0 j.cell
        (elim j.meets [
          | inl e ↦ record {
            laid =
                Laid-loosen j.view (behind left.0 j.cell) left.1.segments
                  (subst (λ l. Laid j.view l left.1.segments) e j.inv.laid);
            held = j.inv.held;
            binned = j.inv.binned;
          }
          | inr e ↦ subst (λ l. HeapInv j.view j.lists l left.1 left.2) e j.inv
        ])
        j.there

  w3 : World
  w3 = record w { bytes = tell_next left.0 left.2 }

  same_segments : left.1.segments ≡ h.segments
  same_segments = left-Joined.0.segments ∙ right-Joined.segments

  settled-After : After settled.view left.0 left-Joined.0.cell
  settled-After e more e_at free =
      let k = settled.fewer (left.0 + left-Joined.0.cell.size) e e_at free in
      left-Joined.0.after_used k.cell more k.there k.is_free

  settled-Before : Before settled.view left.0
  settled-Before x k x_at more meets free =
      let g = settled.fewer x k x_at free in
      left-Joined.1 x g.cell g.there (g.last ∙ more) (ap (λ (n : ℕ). x + n) g.size ∙ meets)
        g.is_free

  settled-SegmentInv : SegmentInv settled.view left-Joined.0.lists others left.1 w3
  unfolding w3
  settled-SegmentInv = record {
    heap = settled.inv;
    coalesced = Coalesced-fewer left-Joined.0.view settled.view settled.fewer left-Coalesced;
    listed = λ s l. inv.listed s (subst (Listed s) same_segments l);
    non_empty = inv.non_empty;
    live = λ a. omega (arith, inv.live a, ap (λ (l : List Region). covered l a) same_segments);
    single = inv.single;
  }

  settled-Keeps : Keeps v w.bytes settled.view w3.bytes given
  unfolding w3
  settled-Keeps x e x_at x_used ne =
      let k = right-Joined.keeps x e x_at x_used ne in
      let k' = left-Joined.0.keeps x k.cell k.there k.in_use ne in
      let kk = Kept-trans right-Joined.view left-Joined.0.view w.bytes right.1 left.2 x e k k' in
      Kept-trans left-Joined.0.view settled.view w.bytes left.2 w3.bytes x e kk
        (settled.keeps x kk.cell kk.there kk.in_use)

  settled_differs : (x : Ptr) (e : Cell) → v x ≡ some e → e.free ≡ false → x ≢ given → x ≢ left.0
  settled_differs x e x_at x_used ne =
      let k = right-Joined.keeps x e x_at x_used ne in
      left-Joined.0.differs x k.cell k.there k.in_use ne

  settled_only : (e : Cell) → settled.view given ≡ some e → left.0 ≡ given
  settled_only e there = let (k, was) = settled.was given e there in left-Joined.0.only k was

  settled-Beyond : Beyond h.segments w.bytes w3.bytes
  unfolding w3
  settled-Beyond = Beyond-trans h.segments w.bytes right.1 w3.bytes right-Joined.beyond (
      Beyond-trans h.segments right.1 left.2 w3.bytes
        (subst (λ s. Beyond s right.1 left.2) right-Joined.segments left-Joined.0.beyond)
        (subst (λ s. Beyond s left.2 w3.bytes) same_segments settled.beyond))

  to_bin : Freed v others h w given (insert_in left.0 left.1 w3).0 (insert_in left.0 left.1 w3).1
  unfolding insert_in w3
  to_bin =
      binned v others h w given settled.view left-Joined.0.lists left.1 w3 settled-SegmentInv left.0
        left-Joined.0.cell settled.same left-Joined.0.in_use settled-After settled-Before
        same_segments refl settled-Keeps settled_differs settled_only settled-Beyond

  to_system :
      left-Joined.0.cell.first ≡ true
      → left-Joined.0.cell.last ≡ true
      → Freed v others h w given
          (release_segment left.0 left.1 w3).0
          (release_segment left.0 left.1 w3).1
  unfolding release_segment w3
  to_system starts ends =
      released v others h w given settled.view left-Joined.0.lists left.1 w3 settled-SegmentInv
        left.0 left-Joined.0.cell settled.same left-Joined.0.in_use settled-After settled-Before
        same_segments refl settled-Keeps settled_differs settled_only settled-Beyond starts ends

  -- `deallocate` of the payload of a block in use: the tier's invariant holds again, by which no
  -- two free blocks are neighbours, whichever of the neighbours were free and whether or not a
  -- segment goes back to the system, no block in use is left where the block was, every other block
  -- in use has its size and its payload still, and no byte outside the segments is written. The
  -- segments and mappings are as before, or exactly one segment is gone from both.
  pub segment_deallocate-Freed :
      Freed v others h w
        (block_of payload)
        (segment_deallocate payload h w).0
        (segment_deallocate payload h w).1
  unfolding segment_deallocate left right given w3 insert_in release_segment
  segment_deallocate-Freed =
      let tag = settled.inv.held left.0 left-Joined.0.cell settled.same in
      elim (Bool-cases left-Joined.0.cell.first) [
        | inl starts ↦ elim (Bool-cases left-Joined.0.cell.last) [
          | inl ends ↦
              let first : is_first left.0 w3.bytes ≡ true = tag.first ∙ starts in
              let last : is_last left.0 w3.bytes ≡ true = tag.last ∙ ends in
              rw (first, last) (to_system starts ends)
          | inr more ↦
              let last : is_last left.0 w3.bytes ≡ false = tag.last ∙ more in
              let first : is_first left.0 w3.bytes ≡ true = tag.first ∙ starts in
              rw (first, last) to_bin
        ]
        | inr later ↦
            let first : is_first left.0 w3.bytes ≡ false = tag.first ∙ later in rw first to_bin
      ]
