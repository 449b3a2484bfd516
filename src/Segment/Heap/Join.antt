-- ===== src/Segment/Heap/Join.antt =====
-- The layout after `deallocate` joined two blocks behind one another.
use m_alloc.Base.{
  ◌+◌, ◌-◌, ◌≤◌, ◌<◌, ◌≡◌, ◌≢◌, arith, false, sym, ap, ◌∙◌, inl, inr, subst, some, none, List, ◌==◌,
  Bool-cases, ◌⊎◌,
}
use m_alloc.Memory.{Ptr, null}
use m_alloc.SystemMemory.{Region}
use m_alloc.Segment.Heap.{Cell, View, Laid, Shape, Home, Next, Prev, Root, put}
use m_alloc.Segment.Heap.Flip.{put-away, put-here, put-cases, some-injective}
use m_alloc.Segment.Heap.Coalesced.{NoMoreFree, same_free}
use m_alloc.Segment.Heap.Tell.{behind}

module _ (v : View) (loose : Ptr) (segments : List Region) (laid : Laid v loose segments) (b : Ptr)
    (c d : Cell) (at : v b ≡ some c) (next_at : v (b + c.size) ≡ some d) where
  -- The cell of both blocks.
  unfoldable pub both : Cell
  both = record c { size = c.size + d.size; last = d.last }

  unfoldable pub joined : View
  unfolding both
  joined = put (put v (b + c.size) none) b (some both)

  pub joined-here : joined b ≡ some both
  unfolding joined
  joined-here = put-here (put v (b + c.size) none) b (some both)

  pub joined-away : (x : Ptr) → x ≢ b → x ≢ b + c.size → joined x ≡ v x
  unfolding joined
  joined-away x nb nn =
      put-away (put v (b + c.size) none) b x (some both) nb ∙ put-away v (b + c.size) x none nn

  pub joined-cases :
      (x : Ptr) (k : Cell)
      → joined x ≡ some k
      → ((x ≡ b) × (both ≡ k)) ⊎ ((x ≢ b) × (x ≢ b + c.size) × (v x ≡ some k))
  unfolding joined
  joined-cases x k there = elim (put-cases (put v (b + c.size) none) b x (some both) k there) [
    | inl (e, same) ↦ inl (e, some-injective both k same)
    | inr (nb, was) ↦ elim (put-cases v (b + c.size) x none k was) [
      | inl (e, bad) ↦ absurd (ground (arith, bad))
      | inr (nn, x_at) ↦ inr (nb, nn, x_at)
    ]
  ]

  pub joined-NoMoreFree : c.free ≡ false → NoMoreFree v joined
  unfolding both
  joined-NoMoreFree in_use x k there free = elim (joined-cases x k there) [
    | inl (_, same) ↦ absurd (ground (arith, in_use, free, ap (λ (g : Cell). g.free) same))
    | inr (_, _, was) ↦ same_free v x k was free
  ]

  block-Shape : Shape b c
  block-Shape = laid.shape b c at

  behind-Shape : Shape (b + c.size) d
  behind-Shape = laid.shape (b + c.size) d next_at

  -- Other blocks lie before the two or behind them.
  pub outside :
      (x : Ptr) (k : Cell)
      → v x ≡ some k
      → x ≢ b
      → x ≢ b + c.size
      → (x + k.size ≤ b) ⊎ (b + c.size + d.size ≤ x)
  outside x k x_at nb nn =
      let xb = laid.apart x b k c x_at at in
      let bx = laid.apart b x c k at x_at in
      let nx = laid.apart (b + c.size) x d k next_at x_at in grind (arith, xb, bx, nx, nb, nn)

  joined-Shape : Shape b both
  unfolding both
  joined-Shape = record {
    big = omega (arith, block-Shape.big);
    whole = omega (arith, block-Shape.whole, behind-Shape.whole);
    aligned = block-Shape.aligned;
    non_null = block-Shape.non_null;
    in_space = omega (arith, behind-Shape.in_space);
  }

  joined-apart :
      (x y : Ptr) (k l : Cell) → joined x ≡ some k → joined y ≡ some l → x < y → x + k.size ≤ y
  unfolding both
  joined-apart x y k l x_at y_at lt = elim (joined-cases x k x_at) [
    | inl (e, same) ↦
        let size = ap (λ (g : Cell). g.size) same in
        elim (joined-cases y l y_at) [
          | inl (e', _) ↦ absurd (omega (arith, e, e'))
          | inr (nb, nn, y_was) ↦ grind (arith, outside y l y_was nb nn, e, size)
        ]
    | inr (nb, nn, x_was) ↦ elim (joined-cases y l y_at) [
      | inl (e', _) ↦ grind (arith, outside x k x_was nb nn, e')
      | inr (_, _, y_was) ↦ laid.apart x y k l x_was y_was lt
    ]
  ]

  module _ (more : c.last ≡ false) (meets : (loose ≡ null) ⊎ (loose ≡ behind (b + c.size) d)) where
    not_loose : b ≢ loose
    not_loose = ground (arith, block-Shape.non_null, block-Shape.big, meets)

    -- A block that may have a stale size before it may have one now.
    loose_before : (x : Ptr) → 0 < x → x ≢ behind b both → x ≢ loose
    unfolding both
    loose_before x pos ne = ground (arith, meets, ne)

    next_cell : (laid.next b c at more).cell ≡ d
    next_cell =
        some-injective (laid.next b c at more).cell d (sym (laid.next b c at more).there ∙ next_at)

    d_home : d.home ≡ c.home
    d_home = ap (λ (g : Cell). g.home) (sym next_cell) ∙ (laid.next b c at more).home

    own-Next : both.last ≡ false → Next joined (behind b both) b both
    unfolding both
    own-Next ends =
        let old = laid.next (b + c.size) d next_at ends in
        let far : joined (b + c.size + d.size) ≡ v (b + c.size + d.size) =
          joined-away (b + c.size + d.size) (omega (arith, block-Shape.big, behind-Shape.big))
            (omega (arith, behind-Shape.big)) in
        let at_end : b + c.size + d.size ≡ b + (c.size + d.size) = omega arith in
        record {
          cell = old.cell;
          there = subst (λ y. joined y ≡ some old.cell) at_end (far ∙ old.there);
          not_first = old.not_first;
          home = old.home ∙ d_home;
          back = λ ne. absurd (ground (arith, ne, ends));
        }

    -- A block outside the two that is not last.
    other-Next :
        (x : Ptr) (k : Cell)
        → v x ≡ some k
        → x ≢ b
        → x ≢ b + c.size
        → k.last ≡ false
        → Next joined (behind b both) x k
    unfolding both
    other-Next x k x_at nb nn ends =
        let old = laid.next x k x_at ends in
        let side = outside x k x_at nb nn in
        let x_shape = laid.shape x k x_at in
        elim (Bool-cases (x + k.size == b)) [
          | inl eq ↦
              let meets_b : x + k.size ≡ b = ground arith in
              let old_is =
                some-injective old.cell c
                  (sym old.there ∙ subst (λ y. v y ≡ some c) (sym meets_b) at) in
              record {
                cell = both;
                there = subst (λ y. joined y ≡ some both) (sym meets_b) joined-here;
                not_first = ap (λ (g : Cell). g.first) (sym old_is) ∙ old.not_first;
                home = ap (λ (g : Cell). g.home) (sym old_is) ∙ old.home;
                back = λ _.
                    ap (λ (g : Cell). g.prev) (sym old_is)
                    ∙ old.back (λ e. not_loose (sym meets_b ∙ e));
              }
          | inr eq ↦
              let off_b : x + k.size ≢ b = ground arith in
              let off_n : x + k.size ≢ b + c.size =
                grind (arith, side, block-Shape.big, x_shape.big, behind-Shape.big) in
              record {
                cell = old.cell;
                there = joined-away (x + k.size) off_b off_n ∙ old.there;
                not_first = old.not_first;
                home = old.home;
                back = λ ne. old.back (loose_before (x + k.size) (omega (arith, x_shape.big)) ne);
              }
        ]

    own-Prev : both.first ≡ false → Prev joined b both
    unfolding both
    own-Prev later =
        let old = laid.prev b c at later not_loose in
        let y_shape = laid.shape (b - c.prev) old.cell old.there in
        let off_b : b - c.prev ≢ b = omega (arith, old.below, old.size, y_shape.big) in
        let off_n : b - c.prev ≢ b + c.size = omega (arith, block-Shape.big) in
        record {
          cell = old.cell;
          below = old.below;
          there = joined-away (b - c.prev) off_b off_n ∙ old.there;
          size = old.size;
          not_last = old.not_last;
        }

    other-Prev :
        (x : Ptr) (k : Cell)
        → v x ≡ some k
        → x ≢ b
        → x ≢ b + c.size
        → k.first ≡ false
        → x ≢ behind b both
        → Prev joined x k
    unfolding both
    other-Prev x k x_at nb nn later ne =
        let old = laid.prev x k x_at later (loose_before x (laid.shape x k x_at).non_null ne) in
        let off_b : x - k.prev ≢ b = λ e.
          let same =
            some-injective old.cell c (sym old.there ∙ subst (λ y. v y ≡ some c) (sym e) at) in
          nn (omega (arith, e, old.below, old.size, ap (λ (g : Cell). g.size) same)) in
        let off_n : x - k.prev ≢ b + c.size = λ e.
          let same =
            some-injective old.cell d (sym old.there ∙ subst (λ y. v y ≡ some d) (sym e) next_at) in
          let ends : d.last ≡ false = ap (λ (g : Cell). g.last) (sym same) ∙ old.not_last in
          let x_is : x ≡ b + c.size + d.size =
            omega (arith, e, old.below, old.size, ap (λ (g : Cell). g.size) same) in
          ground (arith, ne, ends, x_is) in
        record {
          cell = old.cell;
          below = old.below;
          there = joined-away (x - k.prev) off_b off_n ∙ old.there;
          size = old.size;
          not_last = old.not_last;
        }

    own-Home : Home segments b both
    unfolding both
    own-Home =
        let r = laid.home b c at in
        let r' = laid.home (b + c.size) d next_at in
        let base = ap (λ (g : Region). g.base) d_home in
        let size = ap (λ (g : Region). g.size) d_home in
        record {
          among = r.among;
          from = r.from;
          to = omega (arith, r'.to, base, size);
          starts = r.starts;
          ends = λ l. omega (arith, r'.ends l, base, size);
        }

    joined-Root : (s : Region) → Root v s → Root joined s
    unfolding both
    joined-Root s r = elim (Bool-cases (s.base == b)) [
      | inl eq ↦
          let here : s.base ≡ b = ground arith in
          let same =
            some-injective r.cell c (sym r.there ∙ subst (λ y. v y ≡ some c) (sym here) at) in
          record {
            cell = both;
            there = subst (λ y. joined y ≡ some both) (sym here) joined-here;
            home = ap (λ (g : Cell). g.home) (sym same) ∙ r.home;
          }
      | inr eq ↦
          let off_n : s.base ≢ b + c.size = λ e.
            let same =
              some-injective r.cell d (sym r.there ∙ subst (λ y. v y ≡ some d) (sym e) next_at) in
            let home : c.home ≡ s = sym d_home ∙ ap (λ (g : Cell). g.home) (sym same) ∙ r.home in
            omega (
              arith,
              e,
              (laid.home b c at).from,
              ap (λ (g : Region). g.base) home,
              block-Shape.big,
            ) in
          record {
            cell = r.cell;
            there = joined-away s.base (ground arith) off_n ∙ r.there;
            home = r.home;
          }
    ]

    -- Two blocks behind one another make one: the blocks are laid out as before, and only the block
    -- behind them may not know the size of the one before it.
    pub joined-Laid : Laid joined (behind b both) segments
    joined-Laid = record {
      shape = λ x k there. elim (joined-cases x k there) [
        | inl (e, same) ↦ subst (λ y. Shape y k) (sym e) (subst (Shape b) same joined-Shape)
        | inr (_, _, x_at) ↦ laid.shape x k x_at
      ];
      apart = joined-apart;
      next = λ x k there ends. elim (joined-cases x k there) [
        | inl (e, same) ↦
            subst (λ y. Next joined (behind b both) y k) (sym e)
              (subst (Next joined (behind b both) b) same
                (own-Next (ap (λ (g : Cell). g.last) same ∙ ends)))
        | inr (nb, nn, x_at) ↦ other-Next x k x_at nb nn ends
      ];
      prev = λ x k there later ne. elim (joined-cases x k there) [
        | inl (e, same) ↦
            subst (λ y. Prev joined y k) (sym e)
              (subst (Prev joined b) same (own-Prev (ap (λ (g : Cell). g.first) same ∙ later)))
        | inr (nb, nn, x_at) ↦ other-Prev x k x_at nb nn later ne
      ];
      home = λ x k there. elim (joined-cases x k there) [
        | inl (e, same) ↦
            subst (λ y. Home segments y k) (sym e) (subst (Home segments b) same own-Home)
        | inr (_, _, x_at) ↦ laid.home x k x_at
      ];
      rooted = λ s among. joined-Root s (laid.rooted s among);
    }
