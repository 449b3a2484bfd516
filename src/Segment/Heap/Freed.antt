-- ===== src/Segment/Heap/Freed.antt =====
-- The end of `SegmentHeap::deallocate`: the block goes to a bin, or its segment to the system.
use m_alloc.Base.{
  ℕ, ◌+◌, ◌<◌, ◌≡◌, ◌≢◌, refl, arith, true, false, sym, ap, ◌∙◌, inl, inr, subst, some, none, List,
  ◌==◌, Bool-cases, ◌⊎◌, leb, length,
}
use m_alloc.Memory.{Ptr, null}
use m_alloc.SystemMemory.{Region, World, within, covered, sys_unmap}
use m_alloc.Large.Ownership.{Listed, drop_mapping-covered}
use m_alloc.Large.Release.{drop_mapping-Listed, drop_mapping-All}
use m_alloc.Pool.Invariant.{Share}
use m_alloc.Segment.Bins.{SegmentHeap, insert_free}
use m_alloc.Segment.Ops.{take_segment, release_segment, insert_in}
use m_alloc.Segment.Heap.{Cell, View, put}
use m_alloc.Segment.Heap.Flip.{flip, put-cases, put-away, some-injective}
use m_alloc.Segment.Heap.Marks.Ops.{insert_free-Marked}
use m_alloc.Segment.Heap.Keeps.{Keeps, Kept-trans, marked-Keeps}
use m_alloc.Segment.Heap.Coalesced.{After, Before, Coalesced-fewer, freed-Coalesced}
use m_alloc.Segment.Heap.Release.{
  Taken, take_segment-Taken, unique, dropped, dropped-NoMoreFree, dropped-HeapInv,
}
use m_alloc.Segment.Heap.Owned.{SegmentInv}
use m_alloc.Segment.Heap.Beyond.{Beyond, Beyond-trans, marked-Beyond}

-- What freeing a block leaves: the invariant, every other block in use, all memory outside the
-- segments, and no block in use where it was. Either the mappings and segments are as before, or one segment and its mapping are gone.
pub record Freed (v : View) (others : Share) (h : SegmentHeap) (w : World) (b : Ptr)
    (h' : SegmentHeap) (w' : World) : Type 0 where
  pub view : View
  pub lists : ℕ → List Ptr
  pub inv : SegmentInv view lists others h' w'
  pub keeps : Keeps v w.bytes view w'.bytes b
  pub gone : (e : Cell) → view b ≡ some e → e.free ≡ true
  pub beyond : Beyond h.segments w.bytes w'.bytes
  pub outcome :
      ((w'.mapped ≡ w.mapped) × (h'.segments ≡ h.segments))
      ⊎ ((r : Region) × Listed r h.segments
          × ((a : Ptr) → covered w'.mapped a + within r.base r.size a ≡ covered w.mapped a)
          × ((a : Ptr) → covered h'.segments a + within r.base r.size a ≡ covered h.segments a))

-- A block in use whose tag and neighbours are settled, on its way to a bin or out of the tier. `v`,
-- `h` and `w` are from before the call, and `freed` is the block that the caller gave.
module _ (v : View) (others : Share) (h : SegmentHeap) (w : World) (freed : Ptr) (v1 : View)
    (lists : ℕ → List Ptr) (h1 : SegmentHeap) (w1 : World) (inv : SegmentInv v1 lists others h1 w1)
    (b : Ptr) (c : Cell) (at : v1 b ≡ some c) (in_use : c.free ≡ false) (after : After v1 b c)
    (before : Before v1 b) (segments : h1.segments ≡ h.segments) (mapped : w1.mapped ≡ w.mapped)
    (keeps : Keeps v w.bytes v1 w1.bytes freed)
    (differs : (x : Ptr) (e : Cell) → v x ≡ some e → e.free ≡ false → x ≢ freed → x ≢ b)
    (only : (e : Cell) → v1 freed ≡ some e → b ≡ freed)
    (beyond : Beyond h.segments w.bytes w1.bytes) where
  abbrev Result : SegmentHeap × World → Type 0
  Result (h', w') = Freed v others h w freed h' w'

  pub binned : Result (insert_in b h1 w1)
  unfolding insert_in insert_free flip
  binned =
      let marked = insert_free-Marked v1 lists null h1 w1.bytes inv.heap b c at in_use in
      record {
        view = put v1 b (some (flip true c));
        lists = marked.lists;
        inv = record {
          heap = marked.inv;
          coalesced =
              freed-Coalesced v1 b c inv.coalesced after before
                (let s = inv.heap.laid.shape b c at in omega (arith, s.big));
          listed = inv.listed;
          non_empty = inv.non_empty;
          live = inv.live;
          single = inv.single;
        };
        keeps = λ x e x_at x_used ne.
            let k = keeps x e x_at x_used ne in
            Kept-trans v1 _ w.bytes w1.bytes _ x e k (
              marked-Keeps true v1 null h1.segments w1.bytes _ b c inv.heap.laid at marked.frame x
                k.cell k.there k.in_use (differs x e x_at x_used ne));
        gone = λ e there. elim (put-cases v1 b freed (some (flip true c)) e there) [
          | inl (_, same) ↦ ap (λ (k : Cell). k.free) (sym (some-injective (flip true c) e same))
          | inr (ne, was) ↦ absurd (ne (sym (only e was)))
        ];
        beyond = Beyond-trans h.segments w.bytes w1.bytes _ beyond (
            subst (λ s. Beyond s w1.bytes (insert_free b h1 w1.bytes).1) segments
              (marked-Beyond v1 null h1.segments w1.bytes _ b c inv.heap.laid at marked.frame));
        outcome = inl (mapped, segments);
      }

  module _ (starts : c.first ≡ true) (ends : c.last ≡ true) where
    r : Region
    r = c.home

    base : b ≡ r.base
    unfolding r
    base = (inv.heap.laid.home b c at).starts starts

    size_pos : 0 < r.size
    unfolding r
    size_pos =
        let g = inv.heap.laid.home b c at in
        omega (arith, g.starts starts, g.ends ends, (inv.heap.laid.shape b c at).big)

    listed : Listed r h1.segments
    unfolding r
    listed = (inv.heap.laid.home b c at).among

    taken : (left : List Region) × Taken r h1.segments left
    unfolding r
    taken =
        take_segment-Taken r h1.segments listed
          (unique v1 h1.segments inv.heap.laid b c at starts ends) size_pos
          (omega (arith, inv.live r.base, inv.single r.base))

    unmapped : Result (record h1 { segments = taken.0 }, sys_unmap r w1)
    unfolding sys_unmap r dropped
    unmapped =
        let pos : (r.size == 0) ≡ false = ground (arith, size_pos) in
        let back = λ (a : Ptr).
          drop_mapping-covered r w1.mapped a (inv.listed r listed) inv.non_empty size_pos
            (inv.single r.base) in
        rw pos (record {
          view = dropped v1 h1.segments inv.heap.laid b c at starts ends;
          lists = lists;
          inv = record {
            coalesced =
                Coalesced-fewer v1 (dropped v1 h1.segments inv.heap.laid b c at starts ends)
                  (dropped-NoMoreFree v1 h1.segments inv.heap.laid b c at starts ends taken.0
                    taken.1)
                  inv.coalesced;
            heap =
                dropped-HeapInv v1 h1.segments inv.heap.laid b c at starts ends taken.0 taken.1
                  lists h1 w1.bytes refl in_use inv.heap.held inv.heap.binned;
            listed = λ s l.
                drop_mapping-Listed s r w1.mapped (inv.listed s (taken.1.from s l)) (λ e.
                  taken.1.other s l (
                    unique v1 h1.segments inv.heap.laid b c at starts ends s (taken.1.from s l) e));
            non_empty = drop_mapping-All _ r.base w1.mapped inv.non_empty;
            live = λ a. omega (arith, inv.live a, back a, taken.1.shares a);
            single = λ a. omega (arith, inv.single a, back a);
          };
          keeps = λ x e x_at x_used ne.
              let k = keeps x e x_at x_used ne in
              record {
                cell = k.cell;
                there = put-away v1 b x none (differs x e x_at x_used ne) ∙ k.there;
                in_use = k.in_use;
                size = k.size;
                payload = k.payload;
              };
          gone = λ e there. elim (put-cases v1 b freed none e there) [
            | inl (_, bad) ↦ absurd (ground (arith, bad))
            | inr (ne, was) ↦ absurd (ne (sym (only e was)))
          ];
          beyond = beyond;
          outcome = inr (
            r,
            subst (Listed r) segments listed,
            (λ a. back a ∙ ap (λ (l : List Region). covered l a) mapped),
            (λ a. taken.1.shares a ∙ ap (λ (l : List Region). covered l a) segments),
          );
        })

    pub released : Result (release_segment b h1 w1)
    unfolding release_segment
    released = elim (Bool-cases (leb (length h1.segments) 1)) [
      | inl few ↦ rw few binned
      | inr many ↦
          let found : take_segment b h1.segments ≡ some (r, taken.0) =
            subst (λ y. take_segment y h1.segments ≡ some (r, taken.0)) (sym base) taken.1.found in
          rw (many, found) unmapped
    ]
