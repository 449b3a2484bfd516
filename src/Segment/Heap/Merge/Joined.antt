-- ===== src/Segment/Heap/Merge/Joined.antt =====
-- The join of `deallocate` with the right neighbour, on each of its branches.
use m_alloc.Base.{
  ap, ℕ, ◌+◌, ◌≡◌, ◌≢◌, refl, arith, true, false, sym, ◌∙◌, inl, inr, some, List, Bool-cases, ◌⊎◌,
  subst,
}
use m_alloc.Memory.{Ptr, Bytes, null}
use m_alloc.Segment.Tag.{is_last, is_free, next_block}
use m_alloc.Segment.Bins.{SegmentHeap, remove_free}
use m_alloc.Segment.Ops.{join_next}
use m_alloc.Segment.Heap.{Cell, View, HeapInv, Tagged, put}
use m_alloc.Segment.Heap.Flip.{flip, put-away, put-here, some-injective}
use m_alloc.Segment.Heap.Marks.{Marked}
use m_alloc.Segment.Heap.Marks.Ops.{remove_free-Marked}
use m_alloc.Segment.Heap.Keeps.{Keeps, Kept-trans, Kept-self, used_differs, marked-Keeps}
use m_alloc.Segment.Heap.Coalesced.{
  Coalesced, After, NoMoreFree, NoMoreFree-trans, same_free, used-NoMoreFree,
}
use m_alloc.Segment.Heap.Tell.{behind}
use m_alloc.Segment.Heap.Join.{joined-NoMoreFree, joined-here, both}
use m_alloc.Segment.Heap.Merge.{whole-Beyond, whole, whole_cell, whole-HeapInv, whole-Kept, merged}
use m_alloc.Segment.Heap.Beyond.{Beyond, Beyond-trans, marked-Beyond}

-- The invariant with a block in use, after whose end alone a size may be stale.
pub record Joined (v : View) (h : SegmentHeap) (m : Bytes) (freed : Ptr) (b : Ptr)
    (h' : SegmentHeap) (m' : Bytes) : Type 0 where
  pub view : View
  pub lists : ℕ → List Ptr
  pub loose : Ptr
  pub inv : HeapInv view lists loose h' m'
  pub cell : Cell
  pub there : view b ≡ some cell
  pub in_use : cell.free ≡ false
  pub meets : (loose ≡ null) ⊎ (loose ≡ behind b cell)
  pub segments : h'.segments ≡ h.segments
  pub fewer : NoMoreFree v view
  pub after_used : After view b cell
  pub keeps : Keeps v m view m' freed
  pub differs : (x : Ptr) (e : Cell) → v x ≡ some e → e.free ≡ false → x ≢ freed → x ≢ b
  pub beyond : Beyond h.segments m m'
  -- Where the freed block was, no other block starts.
  pub only : (e : Cell) → view freed ≡ some e → b ≡ freed

module _ (v : View) (lists : ℕ → List Ptr) (h : SegmentHeap) (m : Bytes)
    (inv : HeapInv v lists null h m) (b : Ptr) (c : Cell) (at : v b ≡ some c)
    (in_use : c.free ≡ false) (lone : Coalesced v) where
  abbrev NextResult : SegmentHeap × Bytes → Type 0
  NextResult (h', m') = Joined v h m b b h' m'

  unchanged : After v b c → NextResult (h, m)
  unchanged after = record {
    view = v;
    lists = lists;
    loose = null;
    inv = inv;
    cell = c;
    there = at;
    in_use = in_use;
    meets = inl refl;
    segments = refl;
    fewer = same_free v;
    after_used = after;
    keeps = λ x e x_at x_used ne. Kept-self x e x_at x_used;
    beyond = λ _ _. refl;
    differs = λ x e x_at x_used ne. ne;
    only = λ _ _. refl;
  }

  module _ (d : Cell) (next_at : v (b + c.size) ≡ some d) (is_free : d.free ≡ true)
      (more : c.last ≡ false) where
    h1 : SegmentHeap
    h1 = (remove_free (b + c.size) h m).0

    m1 : Bytes
    m1 = (remove_free (b + c.size) h m).1

    taken : Marked false v null h m (b + c.size) d h1 m1
    unfolding h1 m1 remove_free
    taken = remove_free-Marked v lists null h m inv (b + c.size) d next_at is_free

    view1 : View
    view1 = put v (b + c.size) (some (flip false d))

    far : b ≢ b + c.size
    far = let s = inv.laid.shape b c at in omega (arith, s.big)

    b_at : view1 b ≡ some c
    unfolding view1
    b_at = put-away v (b + c.size) b (some (flip false d)) far ∙ at

    n_at : view1 (b + c.size) ≡ some (flip false d)
    unfolding view1
    n_at = put-here v (b + c.size) (some (flip false d))

    inv1 : HeapInv view1 taken.lists null h1 m1
    unfolding view1
    inv1 = taken.inv

    next_used : (flip false d).free ≡ false
    unfolding flip
    next_used = refl

    next_fewer : NoMoreFree v (
        whole view1 taken.lists null h1 m1 inv1 b c
          (flip false d)
          b_at
          n_at
          in_use
          next_used
          more
          (inl refl))
    unfolding whole view1
    next_fewer =
        NoMoreFree-trans v view1 _ (used-NoMoreFree v (b + c.size) d)
          (joined-NoMoreFree view1 null h1.segments inv1.laid b c (flip false d) b_at n_at in_use)

    next-Joined : NextResult (h1, merged b (b + c.size) m1)
    unfolding whole h1 whole_cell both view1 m1 flip
    next-Joined = record {
      view =
          whole view1 taken.lists null h1 m1 inv1 b c (flip false d) b_at n_at in_use next_used more
            (inl refl);
      lists = taken.lists;
      loose = behind b (
          whole_cell view1 taken.lists null h1 m1 inv1 b c (flip false d) b_at n_at in_use next_used
            more (inl refl));
      inv =
          whole-HeapInv view1 taken.lists null h1 m1 inv1 b c (flip false d) b_at n_at in_use
            next_used more (inl refl);
      cell =
          whole_cell view1 taken.lists null h1 m1 inv1 b c (flip false d) b_at n_at in_use next_used
            more (inl refl);
      there = joined-here view1 null h1.segments inv1.laid b c (flip false d) b_at n_at;
      in_use = in_use;
      meets = inr refl;
      segments = taken.segments;
      fewer = next_fewer;
      after_used = λ e ends e_at free.
          let k = next_fewer (b + (c.size + d.size)) e e_at free in
          lone (b + c.size) (b + (c.size + d.size)) d k.cell next_at k.there ends (omega arith)
            is_free k.is_free;
      keeps = λ x e x_at x_used ne.
          let off_n : x ≢ b + c.size =
            used_differs v x (b + c.size) e d x_at x_used next_at is_free in
          let k =
            marked-Keeps false v null h.segments m m1 (b + c.size) d inv.laid next_at taken.frame x
              e x_at x_used off_n in
          Kept-trans view1 _ m m1 _ x e k (
            whole-Kept view1 taken.lists null h1 m1 inv1 b c (flip false d) b_at n_at in_use
              next_used more (inl refl) x k.cell k.there k.in_use ne off_n);
      beyond =
          Beyond-trans h.segments m m1 _
            (marked-Beyond v null h.segments m m1 (b + c.size) d inv.laid next_at taken.frame)
            (subst (λ s. Beyond s m1 (merged b (b + c.size) m1)) taken.segments
              (whole-Beyond view1 taken.lists null h1 m1 inv1 b c (flip false d) b_at n_at in_use
                next_used more (inl refl)));
      differs = λ x e x_at x_used ne. ne;
      only = λ _ _. refl;
    }

  -- Joining with a free right neighbour, if there is one, keeps the invariant and every other block in
  -- use, and the block stays in use.
  pub join_next-Joined : NextResult (join_next b h m)
  unfolding join_next next_block remove_free h1 m1
  join_next-Joined = elim (Bool-cases c.last) [
    | inl ends ↦
        let stop : is_last b m ≡ true = tag.last ∙ ends in
        rw stop (unchanged (λ e more. absurd (ground (arith, ends, more))))
    | inr more ↦
        let go : is_last b m ≡ false = tag.last ∙ more in
        let next = inv.laid.next b c at more in
        let next_tag = inv.held (b + c.size) next.cell next.there in
        elim (Bool-cases next.cell.free) [
          | inl is_f ↦
              let joins : is_free (b + c.size) m ≡ true = next_tag.free ∙ is_f in
              rw (go, tag.size, joins) (next-Joined next.cell next.there is_f more)
          | inr used ↦
              let skips : is_free (b + c.size) m ≡ false = next_tag.free ∙ used in
              rw (go, tag.size, skips)
                (unchanged (λ e _ e_at free. ground (
                  arith,
                  used,
                  free,
                  ap (λ (g : Cell). g.free) (some-injective e next.cell (sym e_at ∙ next.there)),
                )))
        ]
  ]
    where
      tag : Tagged m b c
      tag = inv.held b c at
