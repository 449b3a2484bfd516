-- ===== src/Segment/Heap/Cut.antt =====
-- The layout after `splitBlock` cut a block in two.
use m_alloc.Base.{
  ℕ, ◌+◌, ◌-◌, ◌%◌, ◌≤◌, ◌<◌, ◌≡◌, ◌≢◌, refl, arith, false, sym, ap, ◌∙◌, inl, inr, subst, some,
  List, ◌==◌, Bool-cases, ◌⊎◌,
}
use m_alloc.Memory.{Ptr, null}
use m_alloc.SystemMemory.{Region}
use m_alloc.Segment.Heap.{Cell, View, Laid, Shape, Home, Next, Prev, Root, put}
use m_alloc.Segment.Heap.Flip.{put-away, put-here, put-cases, some-injective}
use m_alloc.Segment.Heap.Coalesced.{NoMoreFree, same_free}
use m_alloc.Segment.Heap.Tell.{behind}

module _ (v : View) (segments : List Region) (laid : Laid v null segments) (b : Ptr) (c : Cell)
    (at : v b ≡ some c) (total remainder : ℕ) (sum : total + remainder ≡ c.size)
    (t16 : total % 16 ≡ 0) (t_big : 48 ≤ total) (r_big : 48 ≤ remainder) where
  unfoldable pub front : Cell
  front = record c { size = total; last = false }

  unfoldable pub rest : Cell
  rest = record {
    size = remainder;
    free = false;
    first = false;
    last = c.last;
    prev = total;
    home = c.home;
  }

  unfoldable pub cut : View
  unfolding front rest
  cut = put (put v (b + total) (some rest)) b (some front)

  pub cut-front : cut b ≡ some front
  unfolding cut
  cut-front = put-here (put v (b + total) (some rest)) b (some front)

  pub cut-rest : cut (b + total) ≡ some rest
  unfolding cut
  cut-rest =
      put-away (put v (b + total) (some rest)) b (b + total) (some front) (omega (arith, t_big))
      ∙ put-here v (b + total) (some rest)

  pub cut-away : (x : Ptr) → x ≢ b → x ≢ b + total → cut x ≡ v x
  unfolding cut
  cut-away x nb nr =
      put-away (put v (b + total) (some rest)) b x (some front) nb
      ∙ put-away v (b + total) x (some rest) nr

  -- A block of the changed layout is one of the two parts, or was there before.
  pub data Part (x : Ptr) (k : Cell) : Type 0 where
    is_front : x ≡ b → front ≡ k → Part x k
    is_rest : x ≡ b + total → rest ≡ k → Part x k
    is_other : x ≢ b → x ≢ b + total → v x ≡ some k → Part x k

  pub part : (x : Ptr) (k : Cell) → cut x ≡ some k → Part x k
  unfolding cut
  part x k there = elim (put-cases (put v (b + total) (some rest)) b x (some front) k there) [
    | inl (e, same) ↦ is_front e (some-injective front k same)
    | inr (nb, was) ↦ elim (put-cases v (b + total) x (some rest) k was) [
      | inl (e, same) ↦ is_rest e (some-injective rest k same)
      | inr (nr, x_at) ↦ is_other nb nr x_at
    ]
  ]

  pub cut-NoMoreFree : c.free ≡ false → NoMoreFree v cut
  unfolding front rest
  cut-NoMoreFree in_use x k there free = elim (part x k there) [
    | is_front _ same ↦ absurd (ground (arith, in_use, free, ap (λ (g : Cell). g.free) same))
    | is_rest _ same ↦ absurd (ground (arith, free, ap (λ (g : Cell). g.free) same))
    | is_other _ _ was ↦ same_free v x k was free
  ]

  block-Shape : Shape b c
  block-Shape = laid.shape b c at

  -- Other blocks lie before the two parts or behind them.
  pub around : (x : Ptr) (k : Cell) → v x ≡ some k → x ≢ b → (x + k.size ≤ b) ⊎ (b + c.size ≤ x)
  around x k x_at nb =
      let xb = laid.apart x b k c x_at at in
      let bx = laid.apart b x c k at x_at in grind (arith, xb, bx, nb)

  -- No block started inside the block.
  pub none_inside : (x : Ptr) (k : Cell) → v x ≡ some k → x ≢ b + total
  none_inside x k x_at e = ground (arith, laid.apart b x c k at x_at, t_big, r_big, sum)

  cut-apart : (x y : Ptr) (k l : Cell) → cut x ≡ some k → cut y ≡ some l → x < y → x + k.size ≤ y
  unfolding front rest
  cut-apart x y k l x_at y_at lt = elim (part x k x_at) [
    | is_front e same ↦
        let size = ap (λ (g : Cell). g.size) same in
        elim (part y l y_at) [
          | is_front e' _ ↦ absurd (omega (arith, e, e'))
          | is_rest e' _ ↦ omega (arith, e, e', size)
          | is_other nb _ y_was ↦ grind (arith, around y l y_was nb, e, size, sum)
        ]
    | is_rest e same ↦
        let size = ap (λ (g : Cell). g.size) same in
        elim (part y l y_at) [
          | is_front e' _ ↦ absurd (omega (arith, e, e'))
          | is_rest e' _ ↦ absurd (omega (arith, e, e'))
          | is_other nb _ y_was ↦ grind (arith, around y l y_was nb, e, size, sum)
        ]
    | is_other nb _ x_was ↦ elim (part y l y_at) [
      | is_front e' _ ↦ grind (arith, around x k x_was nb, e')
      | is_rest e' _ ↦ grind (arith, around x k x_was nb, e', sum, r_big)
      | is_other _ _ y_was ↦ laid.apart x y k l x_was y_was lt
    ]
  ]

  cut-Shape : (x : Ptr) (k : Cell) → cut x ≡ some k → Shape x k
  unfolding front rest
  cut-Shape x k there = elim (part x k there) [
    | is_front e same ↦
        subst (λ y. Shape y k) (sym e)
          (subst (Shape b) same (record {
            big = t_big;
            whole = t16;
            aligned = block-Shape.aligned;
            non_null = block-Shape.non_null;
            in_space = omega (arith, block-Shape.in_space, sum);
          }))
    | is_rest e same ↦
        subst (λ y. Shape y k) (sym e)
          (subst (Shape (b + total)) same (record {
            big = r_big;
            whole = omega (arith, block-Shape.whole, t16, sum);
            aligned = omega (arith, block-Shape.aligned, t16);
            non_null = omega (arith, block-Shape.non_null);
            in_space = omega (arith, block-Shape.in_space, sum);
          }))
    | is_other _ _ was ↦ laid.shape x k was
  ]

  front-Next : (loose : Ptr) → Next cut loose b front
  unfolding front rest
  front-Next loose = record {
    cell = rest;
    there = cut-rest;
    not_first = refl;
    home = refl;
    back = λ _. refl;
  }

  rest-Next : rest.last ≡ false → Next cut (behind (b + total) rest) (b + total) rest
  unfolding rest
  rest-Next more =
      let old = laid.next b c at more in
      let at_end : b + c.size ≡ b + total + remainder = omega (arith, sum) in
      record {
        cell = old.cell;
        there =
            subst (λ y. cut y ≡ some old.cell) at_end
              (cut-away (b + c.size) (omega (arith, block-Shape.big)) (omega (arith, sum, r_big))
                ∙ old.there);
        not_first = old.not_first;
        home = old.home;
        back = λ ne. absurd (ground (arith, ne, more));
      }

  other-Next :
      (x : Ptr) (k : Cell) → v x ≡ some k → k.last ≡ false → Next cut (behind (b + total) rest) x k
  unfolding front
  other-Next x k x_at more =
      let old = laid.next x k x_at more in
      let x_shape = laid.shape x k x_at in
      let before = old.back (omega (arith, x_shape.big)) in
      elim (Bool-cases (x + k.size == b)) [
        | inl eq ↦
            let meets : x + k.size ≡ b = ground arith in
            let same =
              some-injective old.cell c
                (sym old.there ∙ subst (λ y. v y ≡ some c) (sym meets) at) in
            record {
              cell = front;
              there = subst (λ y. cut y ≡ some front) (sym meets) cut-front;
              not_first = ap (λ (g : Cell). g.first) (sym same) ∙ old.not_first;
              home = ap (λ (g : Cell). g.home) (sym same) ∙ old.home;
              back = λ _. ap (λ (g : Cell). g.prev) (sym same) ∙ before;
            }
        | inr eq ↦
            let off_b : x + k.size ≢ b = ground arith in
            record {
              cell = old.cell;
              there =
                  cut-away (x + k.size) off_b (none_inside (x + k.size) old.cell old.there)
                  ∙ old.there;
              not_first = old.not_first;
              home = old.home;
              back = λ _. before;
            }
      ]

  front-Prev : front.first ≡ false → Prev cut b front
  unfolding front
  front-Prev later =
      let old = laid.prev b c at later (omega (arith, block-Shape.non_null)) in
      let y_shape = laid.shape (b - c.prev) old.cell old.there in
      record {
        cell = old.cell;
        below = old.below;
        there =
            cut-away (b - c.prev) (omega (arith, old.below, old.size, y_shape.big))
              (omega (arith, t_big))
            ∙ old.there;
        size = old.size;
        not_last = old.not_last;
      }

  rest-Prev : Prev cut (b + total) rest
  unfolding rest front
  rest-Prev =
      let back : b + total - total ≡ b = omega arith in
      record {
        cell = front;
        below = omega arith;
        there = subst (λ y. cut y ≡ some front) (sym back) cut-front;
        size = refl;
        not_last = refl;
      }

  other-Prev :
      (x : Ptr) (k : Cell)
      → v x ≡ some k
      → k.first ≡ false
      → x ≢ behind (b + total) rest
      → Prev cut x k
  unfolding rest
  other-Prev x k x_at later ne =
      let old = laid.prev x k x_at later (omega (arith, (laid.shape x k x_at).non_null)) in
      let off_b : x - k.prev ≢ b = λ e.
        let same =
          some-injective old.cell c (sym old.there ∙ subst (λ y. v y ≡ some c) (sym e) at) in
        let more : c.last ≡ false = ap (λ (g : Cell). g.last) (sym same) ∙ old.not_last in
        let x_is : x ≡ b + c.size =
          omega (arith, e, old.below, old.size, ap (λ (g : Cell). g.size) same) in
        ground (arith, ne, more, x_is, sum) in
      record {
        cell = old.cell;
        below = old.below;
        there =
            cut-away (x - k.prev) off_b (none_inside (x - k.prev) old.cell old.there) ∙ old.there;
        size = old.size;
        not_last = old.not_last;
      }

  cut-Home : (x : Ptr) (k : Cell) → cut x ≡ some k → Home segments x k
  unfolding front rest
  cut-Home x k there =
      let r = laid.home b c at in
      elim (part x k there) [
        | is_front e same ↦
            subst (λ y. Home segments y k) (sym e)
              (subst (Home segments b) same (record {
                among = r.among;
                from = r.from;
                to = omega (arith, r.to, sum);
                starts = r.starts;
                ends = λ l. absurd (ground (arith, l));
              }))
        | is_rest e same ↦
            subst (λ y. Home segments y k) (sym e)
              (subst (Home segments (b + total)) same (record {
                among = r.among;
                from = omega (arith, r.from);
                to = omega (arith, r.to, sum);
                starts = λ l. absurd (ground (arith, l));
                ends = λ l. omega (arith, r.ends l, sum);
              }))
        | is_other _ _ was ↦ laid.home x k was
      ]

  cut-Root : (s : Region) → Root v s → Root cut s
  unfolding front
  cut-Root s r = elim (Bool-cases (s.base == b)) [
    | inl eq ↦
        let here : s.base ≡ b = ground arith in
        let same =
          some-injective r.cell c (sym r.there ∙ subst (λ y. v y ≡ some c) (sym here) at) in
        record {
          cell = front;
          there = subst (λ y. cut y ≡ some front) (sym here) cut-front;
          home = ap (λ (g : Cell). g.home) (sym same) ∙ r.home;
        }
    | inr eq ↦ record {
      cell = r.cell;
      there = cut-away s.base (ground arith) (none_inside s.base r.cell r.there) ∙ r.there;
      home = r.home;
    }
  ]

  -- A block cut in two: the blocks are laid out as before, and only the block behind the two may not
  -- know the size of the one before it.
  pub cut-Laid : Laid cut (behind (b + total) rest) segments
  cut-Laid = record {
    shape = cut-Shape;
    apart = cut-apart;
    next = λ x k there more. elim (part x k there) [
      | is_front e same ↦
          subst (λ y. Next cut (behind (b + total) rest) y k) (sym e)
            (subst (Next cut (behind (b + total) rest) b) same
              (front-Next (behind (b + total) rest)))
      | is_rest e same ↦
          subst (λ y. Next cut (behind (b + total) rest) y k) (sym e)
            (subst (Next cut (behind (b + total) rest) (b + total)) same
              (rest-Next (ap (λ (g : Cell). g.last) same ∙ more)))
      | is_other _ _ was ↦ other-Next x k was more
    ];
    prev = λ x k there later ne. elim (part x k there) [
      | is_front e same ↦
          subst (λ y. Prev cut y k) (sym e)
            (subst (Prev cut b) same (front-Prev (ap (λ (g : Cell). g.first) same ∙ later)))
      | is_rest e same ↦
          subst (λ y. Prev cut y k) (sym e) (subst (Prev cut (b + total)) same rest-Prev)
      | is_other _ _ was ↦ other-Prev x k was later ne
    ];
    home = cut-Home;
    rooted = λ s among. cut-Root s (laid.rooted s among);
  }
