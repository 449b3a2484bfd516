-- ===== src/Segment/Heap/Merge/Left.antt =====
-- The join of `deallocate` with the left neighbour, on each of its branches.
use m_alloc.Base.{
  ap, ℕ, ◌+◌, ◌-◌, ◌≡◌, ◌≢◌, refl, arith, true, false, sym, ◌∙◌, inl, inr, subst, some, List,
  Bool-cases, ◌⊎◌,
}
use m_alloc.Memory.{Ptr, Bytes, null}
use m_alloc.Segment.Tag.{is_first, is_free, prev_block}
use m_alloc.Segment.Bins.{SegmentHeap, remove_free}
use m_alloc.Segment.Ops.{join_prev}
use m_alloc.Segment.Heap.{Cell, View, HeapInv, Tagged, put}
use m_alloc.Segment.Heap.Flip.{flip, put-away, put-here, some-injective}
use m_alloc.Segment.Heap.Marks.{Marked}
use m_alloc.Segment.Heap.Marks.Ops.{remove_free-Marked}
use m_alloc.Segment.Heap.Keeps.{Kept-trans, Kept-self, used_differs, marked-Keeps}
use m_alloc.Segment.Heap.Coalesced.{
  Coalesced, After, Before, NoMoreFree, NoMoreFree-trans, same_free, used-NoMoreFree,
}
use m_alloc.Segment.Heap.Tell.{behind}
use m_alloc.Segment.Heap.Join.{joined-NoMoreFree, joined-here, both}
use m_alloc.Segment.Heap.Merge.{
  whole-Beyond, whole, whole_cell, whole-HeapInv, whole-Kept, merged, gone,
}
use m_alloc.Segment.Heap.Merge.Joined.{Joined}
use m_alloc.Segment.Heap.Beyond.{Beyond, Beyond-trans, marked-Beyond}

module _ (v : View) (lists : ℕ → List Ptr) (loose : Ptr) (h : SegmentHeap) (m : Bytes)
    (inv : HeapInv v lists loose h m) (b : Ptr) (c : Cell) (at : v b ≡ some c)
    (in_use : c.free ≡ false) (meets : (loose ≡ null) ⊎ (loose ≡ behind b c)) (lone : Coalesced v)
    (after : After v b c) where
  abbrev PrevResult : Ptr × SegmentHeap × Bytes → Type 0
  PrevResult (b', h', m') = (j : Joined v h m b b' h' m') × Before j.view b'

  alone : Before v b → PrevResult (b, h, m)
  alone before = (
    record {
      view = v;
      lists = lists;
      loose = loose;
      inv = inv;
      cell = c;
      there = at;
      in_use = in_use;
      meets = meets;
      segments = refl;
      fewer = same_free v;
      after_used = after;
      keeps = λ x e x_at x_used ne. Kept-self x e x_at x_used;
      beyond = λ _ _. refl;
      differs = λ x e x_at x_used ne. ne;
      only = λ _ _. refl;
    },
    before,
  )

  module _ (p : Ptr) (d : Cell) (prev_at : v p ≡ some d) (ends : p + d.size ≡ b)
      (is_free : d.free ≡ true) (more : d.last ≡ false) where
    h2 : SegmentHeap
    h2 = (remove_free p h m).0

    m2 : Bytes
    m2 = (remove_free p h m).1

    left : Marked false v loose h m p d h2 m2
    unfolding h2 m2 remove_free
    left = remove_free-Marked v lists loose h m inv p d prev_at is_free

    view2 : View
    view2 = put v p (some (flip false d))

    other : b ≢ p
    other = used_differs v b p c d at in_use prev_at is_free

    at_end : view2 (p + (flip false d).size) ≡ some c
    unfolding view2 flip
    at_end =
        subst (λ y. view2 y ≡ some c) (sym ends) (put-away v p b (some (flip false d)) other ∙ at)

    p_at : view2 p ≡ some (flip false d)
    unfolding view2
    p_at = put-here v p (some (flip false d))

    inv2 : HeapInv view2 left.lists loose h2 m2
    unfolding view2
    inv2 = left.inv

    prev_used : (flip false d).free ≡ false
    unfolding flip
    prev_used = refl

    prev_more : (flip false d).last ≡ false
    unfolding flip
    prev_more = more

    meets_at : (loose ≡ null) ⊎ (loose ≡ behind (p + (flip false d).size) c)
    unfolding flip
    meets_at = subst (λ y. (loose ≡ null) ⊎ (loose ≡ behind y c)) (sym ends) meets

    prev_fewer : NoMoreFree v (
        whole view2 left.lists loose h2 m2 inv2 p
          (flip false d)
          c
          p_at
          at_end
          prev_used
          in_use
          prev_more
          meets_at)
    unfolding whole view2
    prev_fewer = NoMoreFree-trans v view2 _ (used-NoMoreFree v p d) (
        joined-NoMoreFree view2 loose h2.segments inv2.laid p (flip false d) c p_at at_end
          prev_used)

    prev-Before :
        Before
          (whole view2 left.lists loose h2 m2 inv2 p
            (flip false d)
            c
            p_at
            at_end
            prev_used
            in_use
            prev_more
            meets_at)
          p
    prev-Before x k x_at ends_not to_p free =
        let g = prev_fewer x k x_at free in
        lone x p g.cell d g.there prev_at (g.last ∙ ends_not) (ap (λ (n : ℕ). x + n) g.size ∙ to_p)
          g.is_free is_free

    prev-Joined : PrevResult (p, h2, merged p b m2)
    unfolding whole h2 whole_cell both view2 m2 flip
    prev-Joined =
        subst (λ y. PrevResult (p, h2, merged p y m2)) ends
          (
            (record {
              view =
                  whole view2 left.lists loose h2 m2 inv2 p (flip false d) c p_at at_end prev_used
                    in_use prev_more meets_at;
              lists = left.lists;
              loose = behind p (
                  whole_cell view2 left.lists loose h2 m2 inv2 p (flip false d) c p_at at_end
                    prev_used in_use prev_more meets_at);
              inv =
                  whole-HeapInv view2 left.lists loose h2 m2 inv2 p (flip false d) c p_at at_end
                    prev_used in_use prev_more meets_at;
              cell =
                  whole_cell view2 left.lists loose h2 m2 inv2 p (flip false d) c p_at at_end
                    prev_used in_use prev_more meets_at;
              there = joined-here view2 loose h2.segments inv2.laid p (flip false d) c p_at at_end;
              in_use = refl;
              meets = inr refl;
              segments = left.segments;
              fewer = prev_fewer;
              after_used = λ e ends_not e_at free.
                  let k = prev_fewer (p + (d.size + c.size)) e e_at free in
                  let at_next : p + (d.size + c.size) ≡ b + c.size = omega (arith, ends) in
                  after k.cell ends_not (subst (λ y. v y ≡ some k.cell) at_next k.there) k.is_free;
              keeps = λ x e x_at x_used ne.
                  let off_p = used_differs v x p e d x_at x_used prev_at is_free in
                  let k =
                    marked-Keeps false v loose h.segments m m2 p d inv.laid prev_at left.frame x e
                      x_at x_used off_p in
                  Kept-trans view2 _ m m2 _ x e k (
                    whole-Kept view2 left.lists loose h2 m2 inv2 p (flip false d) c p_at at_end
                      prev_used in_use prev_more meets_at x k.cell k.there k.in_use off_p
                      (λ q. ne (q ∙ ends)));
              beyond =
                  Beyond-trans h.segments m m2 _
                    (marked-Beyond v loose h.segments m m2 p d inv.laid prev_at left.frame)
                    (subst (λ s. Beyond s m2 (merged p (p + d.size) m2)) left.segments
                      (whole-Beyond view2 left.lists loose h2 m2 inv2 p (flip false d) c p_at at_end
                        prev_used in_use prev_more meets_at));
              differs = λ x e x_at x_used ne. used_differs v x p e d x_at x_used prev_at is_free;
              only = λ e there.
                  let none_here =
                    gone view2 left.lists loose h2 m2 inv2 p (flip false d) c p_at at_end prev_used
                      in_use prev_more meets_at in
                  absurd (
                    ground (
                      arith,
                      sym none_here
                          ∙ subst
                              (λ y.
                                whole view2 left.lists loose h2 m2 inv2 p (flip false d) c p_at
                                  at_end prev_used in_use prev_more meets_at y
                                ≡ some e)
                              (sym ends) there,
                    ));
            }),
            prev-Before,
          )

  -- Joining with a free left neighbour, if there is one, keeps the invariant and every other block in
  -- use, and what is then the block is in use.
  pub join_prev-Joined : PrevResult (join_prev b h m)
  unfolding join_prev prev_block remove_free h2 m2
  join_prev-Joined = elim (Bool-cases c.first) [
    | inl starts ↦
        let stop : is_first b m ≡ true = tag.first ∙ starts in
        rw stop (
          alone (λ x k x_at ends_not to_b free.
            let n = inv.laid.next x k x_at ends_not in
            let same =
              some-injective n.cell c (sym n.there ∙ subst (λ y. v y ≡ some c) (sym to_b) at) in
            ground (arith, starts, n.not_first, ap (λ (g : Cell). g.first) same)))
    | inr later ↦
        let go : is_first b m ≡ false = tag.first ∙ later in
        let shape = inv.laid.shape b c at in
        let prev = inv.laid.prev b c at later (ground (arith, shape.non_null, shape.big, meets)) in
        let prev_tag = inv.held (b - c.prev) prev.cell prev.there in
        elim (Bool-cases prev.cell.free) [
          | inl is_f ↦
              let joins : is_free (b - c.prev) m ≡ true = prev_tag.free ∙ is_f in
              rw (go, tag.prev, joins)
                (prev-Joined (b - c.prev) prev.cell prev.there
                  (omega (arith, prev.below, prev.size)) is_f prev.not_last)
          | inr used ↦
              let skips : is_free (b - c.prev) m ≡ false = prev_tag.free ∙ used in
              rw (go, tag.prev, skips)
                (alone (λ x k x_at ends_not to_b free.
                  let p : Ptr = b - c.prev in
                  let xp = inv.laid.apart x p k prev.cell x_at prev.there in
                  let px = inv.laid.apart p x prev.cell k prev.there x_at in
                  let x_shape = inv.laid.shape x k x_at in
                  let p_shape = inv.laid.shape p prev.cell prev.there in
                  let x_is : x ≡ p =
                    grind (arith, xp, px, x_shape.big, p_shape.big, to_b, prev.below, prev.size) in
                  let same =
                    some-injective k prev.cell
                      (sym x_at ∙ subst (λ y. v y ≡ some prev.cell) (sym x_is) prev.there) in
                  ground (arith, used, free, ap (λ (g : Cell). g.free) same)))
        ]
  ]
    where
      tag : Tagged m b c
      tag = inv.held b c at
