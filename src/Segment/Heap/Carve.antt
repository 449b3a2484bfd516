-- ===== src/Segment/Heap/Carve.antt =====
-- `removeFree` and `splitBlock` as `SegmentHeap::allocate` joins them.
use m_alloc.Base.{
  ℕ, ◌+◌, ◌%◌, ◌≤◌, ◌<◌, ◌≡◌, refl, arith, true, false, sym, ap, ◌∙◌, subst, Option, some, none,
  List,
}
use m_alloc.Memory.{Ptr, Bytes, null}
use m_alloc.SystemMemory.{World, covered, Region}
use m_alloc.Large.Ownership.{Listed}
use m_alloc.Pool.Invariant.{Share}
use m_alloc.Segment.Tag.{payload_of}
use m_alloc.Segment.Bins.{SegmentHeap, remove_free}
use m_alloc.Segment.Ops.{split_block, carve}
use m_alloc.Segment.Heap.{Cell, View, put}
use m_alloc.Segment.Heap.Flip.{flip, put-here, some-injective}
use m_alloc.Segment.Heap.Marks.{Marked}
use m_alloc.Segment.Heap.Marks.Ops.{remove_free-Marked}
use m_alloc.Segment.Heap.Keeps.{Kept, Kept-trans, marked-Keeps, used_differs}
use m_alloc.Segment.Heap.Coalesced.{Coalesced-fewer, used-NoMoreFree}
use m_alloc.Segment.Heap.Split.Divided.{Divided, split_block-Divided}
use m_alloc.Segment.Heap.Owned.{SegmentInv}
use m_alloc.Segment.Heap.Beyond.{Beyond, Beyond-trans, marked-Beyond}

-- What an allocation gives: the invariant, with a block in use that was not in use before, of the
-- wanted size or less than 48 bytes more, every block that was in use,
-- and all memory outside the segments.
pub record Carved (v : View) (others : Share) (m : Bytes) (total : ℕ) (p : Ptr) (h' : SegmentHeap)
    (w' : World) : Type 0 where
  pub view : View
  pub lists : ℕ → List Ptr
  pub inv : SegmentInv view lists others h' w'
  pub block : Ptr
  pub payload : p ≡ payload_of block
  pub cell : Cell
  pub there : view block ≡ some cell
  pub in_use : cell.free ≡ false
  pub enough : total ≤ cell.size
  pub tight : cell.size < total + 48
  pub aligned : block % 16 ≡ 0
  pub non_null : 0 < block
  pub fresh : (e : Cell) → v block ≡ some e → e.free ≡ true
  pub keeps : (x : Ptr) (e : Cell) → v x ≡ some e → e.free ≡ false → Kept view m w'.bytes x e
  pub beyond : Beyond h'.segments m w'.bytes

abbrev pub CarveResult : View → Share → Bytes → ℕ → Option Ptr × SegmentHeap × World → Type 0
CarveResult v others m total (some p, h', w') = Carved v others m total p h' w'
CarveResult v others m total (none, h', w') = ⊥

module _ (v : View) (lists : ℕ → List Ptr) (others : Share) (h : SegmentHeap) (w : World)
    (inv : SegmentInv v lists others h w) (b : Ptr) (c : Cell) (at : v b ≡ some c)
    (is_free : c.free ≡ true) (total : ℕ) (t16 : total % 16 ≡ 0) (t_big : 48 ≤ total)
    (enough : total ≤ c.size) where
  taken : Marked false v null h w.bytes b c (remove_free b h w.bytes).0 (remove_free b h w.bytes).1
  taken = remove_free-Marked v lists null h w.bytes inv.heap b c at is_free

  view1 : View
  view1 = put v b (some (flip false c))

  divided :
      Divided view1
        (remove_free b h w.bytes).0
        (remove_free b h w.bytes).1
        b
        total
        (split_block b total (remove_free b h w.bytes).0 (remove_free b h w.bytes).1).0
        (split_block b total (remove_free b h w.bytes).0 (remove_free b h w.bytes).1).1
  unfolding view1 flip
  divided =
      split_block-Divided view1 taken.lists (remove_free b h w.bytes).0 (remove_free b h w.bytes).1
        taken.inv b (flip false c) (put-here v b (some (flip false c))) refl total t16 t_big enough
        (Coalesced-fewer v (put v b (some (flip false c))) (used-NoMoreFree v b c) inv.coalesced)
        (λ e more e_at free.
          let k = used-NoMoreFree v b c (b + c.size) e e_at free in
          inv.coalesced b (b + c.size) c k.cell at k.there more refl is_free k.is_free)

  -- It leaves the segments alone.
  pub segments : (carve total b h w).1.segments ≡ h.segments
  unfolding carve
  segments = divided.segments ∙ taken.segments

  -- Taking a free block out of its bin and cutting off what is not wanted gives a block in use of the
  -- wanted size, and keeps the invariant and every block in use.
  pub carve-Carved : CarveResult v others w.bytes total (carve total b h w)
  unfolding carve view1
  carve-Carved =
      let shape = divided.inv.laid.shape b divided.cell divided.there in
      record {
        view = divided.view;
        lists = divided.lists;
        inv = record {
          heap = divided.inv;
          coalesced = divided.coalesced;
          listed = λ s l. inv.listed s (subst (Listed s) segments l);
          non_empty = inv.non_empty;
          live = λ a. omega (arith, inv.live a, ap (λ (l : List Region). covered l a) segments);
          single = inv.single;
        };
        block = b;
        payload = refl;
        cell = divided.cell;
        there = divided.there;
        in_use = divided.in_use;
        enough = divided.enough;
        tight = divided.tight;
        aligned = shape.aligned;
        non_null = shape.non_null;
        fresh =
            λ e there. ap (λ (k : Cell). k.free) (some-injective e c (sym there ∙ at)) ∙ is_free;
        beyond =
            subst (λ s. Beyond s w.bytes (carve total b h w).2.bytes) (sym segments)
              (Beyond-trans h.segments w.bytes (remove_free b h w.bytes).1 _
                (marked-Beyond v null h.segments w.bytes (remove_free b h w.bytes).1 b c
                  inv.heap.laid at taken.frame)
                (subst (λ s. Beyond s (remove_free b h w.bytes).1 (carve total b h w).2.bytes)
                  taken.segments divided.beyond));
        keeps = λ x e x_at x_used.
            let ne = used_differs v x b e c x_at x_used at is_free in
            let k =
              marked-Keeps false v null h.segments w.bytes (remove_free b h w.bytes).1 b c
                inv.heap.laid at taken.frame x e x_at x_used ne in
            Kept-trans view1 divided.view w.bytes (remove_free b h w.bytes).1 _ x e k
              (divided.keeps x k.cell k.there k.in_use ne);
      }
