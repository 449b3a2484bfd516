-- ===== src/Segment/Heap/Grow.antt =====
-- `addSegment`: a new segment is one block, apart from all others.
pub mod Adopt
use m_alloc.Base.{
  ℕ, ◌+◌, ◌-◌, ◌%◌, ◌≤◌, ◌<◌, ◌≡◌, ◌≢◌, refl, arith, Bool, true, false, sym, ap, ◌∙◌, inl, inr,
  subst, Option, some, none, List, [], ◌∷◌, ◌++◌, ◌==◌, Bool-cases, Option-cases, if◌then◌else◌,
  ◌⊎◌, max,
}
use m_alloc.Memory.{Ptr, Bytes, null, fill, store64, load64}
use m_alloc.Memory.Laws.{Apart, SameOn, SameOn-trans, write_le-SameOn, fill-SameOn}
use m_alloc.Header.{word}
use m_alloc.SystemMemory.{Region, World, Os, Documented, within, covered}
use m_alloc.SystemMemory.Fresh.{Mapped, within-once}
use m_alloc.Large.Ownership.{Listed}
use m_alloc.Pool.Invariant.{Share}
use m_alloc.Segment.Tag.{
  node_of, first_flag, last_flag, set_size, set_flag, set_prev_size, segment_size,
}
use m_alloc.Segment.Tag.Laws.{first}
use m_alloc.Segment.Bins.{SegmentHeap}
use m_alloc.Segment.Ops.{whole_block}
use m_alloc.Segment.Heap.{
  Cell, View, Laid, Shape, Home, Next, Prev, Root, Held, Tagged, Binned, HeapInv, put, in_bin,
}
use m_alloc.Segment.Heap.Tags.{
  Tagged-same, set_first-Tagged, set_last-Tagged, set_size-Tagged, set_prev_size-Tagged,
}
use m_alloc.Segment.Heap.Flip.{put-away, put-here, put-cases, some-injective}
use m_alloc.Segment.Heap.Coalesced.{NoMoreFree, Before, same_free}
use m_alloc.Segment.Heap.Keeps.{Kept, Binned-same, used-in_bin}
use m_alloc.Segment.Heap.Split.{cleared-Tagged}
use m_alloc.Segment.Heap.Owned.{SegmentInv}
use m_alloc.Segment.Heap.Beyond.{member-covered, Beyond}

pub Listed-cases :
    (s r : Region) (segments : List Region)
    → Listed s (segments ++ r ∷ [])
    → Listed s segments ⊎ (s ≡ r)
Listed-cases s r [] (inl e) = inr e
Listed-cases s r [] (inr h) = absurd h
Listed-cases s r (t ∷ ts) (inl e) = inl (inl e)
Listed-cases s r (t ∷ ts) (inr h) = elim (Listed-cases s r ts h) [
  | inl more ↦ inl (inr more)
  | inr is ↦ inr is
]

pub Listed-left :
    (s r : Region) (segments : List Region) → Listed s segments → Listed s (segments ++ r ∷ [])
Listed-left s r [] h = absurd h
Listed-left s r (t ∷ ts) (inl e) = inl e
Listed-left s r (t ∷ ts) (inr h) = inr (Listed-left s r ts h)

pub Listed-last : (r : Region) (segments : List Region) → Listed r (segments ++ r ∷ [])
Listed-last r [] = inl refl
Listed-last r (t ∷ ts) = inr (Listed-last r ts)

module _ (os : Os) (doc : Documented os) (v : View) (lists : ℕ → List Ptr) (others : Share)
    (h : SegmentHeap) (w : World) (inv : SegmentInv v lists others h w) (r : Region) (w' : World)
    (new : Mapped os doc segment_size w r w') where
  open inv.heap use {laid, held, binned}

  -- The one block of the segment, before it is free.
  cell : Cell
  cell = record { size = r.size; free = false; first = true; last = true; prev = 0; home = r }

  -- Blocks that are there lie outside the new segment.
  grow-apart : (x : Ptr) (k : Cell) → v x ≡ some k → Apart x k.size r.base r.size
  unfolding within
  grow-apart x k at =
      let g = laid.home x k at in
      let live = λ (a : Ptr). member-covered k.home w.mapped a (inv.listed k.home g.among) in
      let a : Ptr = max x r.base in
      let alone = new.alone a in
      grind (arith, g.from, g.to, live a, alone, new.big, (laid.shape x k at).big)

  nothing : v r.base ≡ none
  nothing = elim (Option-cases (v r.base)) [
    | inl e ↦ e
    | inr (k, e) ↦
        absurd (grind (arith, grow-apart r.base k e, new.big, (laid.shape r.base k e).big))
  ]

  unfoldable grown : View
  grown = put v r.base (some cell)

  elsewhere_ne : (x : Ptr) (k : Cell) → v x ≡ some k → x ≢ r.base
  elsewhere_ne x k at e = ground (arith, sym at ∙ subst (λ y. v y ≡ none) (sym e) nothing)

  old : (x : Ptr) (k : Cell) → v x ≡ some k → grown x ≡ some k
  unfolding grown
  old x k at = put-away v r.base x (some cell) (elsewhere_ne x k at) ∙ at

  new_at : grown r.base ≡ some cell
  unfolding grown
  new_at = put-here v r.base (some cell)

  -- A block of the grown layout is the new one or was there before.
  grown-cases :
      (x : Ptr) (k : Cell) → grown x ≡ some k → ((x ≡ r.base) × (cell ≡ k)) ⊎ (v x ≡ some k)
  unfolding grown
  grown-cases x k there = elim (put-cases v r.base x (some cell) k there) [
    | inl (e, same) ↦ inl (e, some-injective cell k same)
    | inr (_, was) ↦ inr was
  ]

  -- What holds of the new block and of those that were there holds of all.
  grown-all :
      (P : Ptr → Cell → Type 0)
      → P r.base cell
      → ((x : Ptr) (k : Cell) → v x ≡ some k → P x k)
      → (x : Ptr) (k : Cell) → grown x ≡ some k
      → P x k
  grown-all P here there x k at = elim (grown-cases x k at) [
    | inl (e, same) ↦ subst (λ y. P y k) (sym e) (subst (P r.base) same here)
    | inr was ↦ there x k was
  ]

  grown-NoMoreFree : NoMoreFree v grown
  unfolding cell
  grown-NoMoreFree x k there free = elim (grown-cases x k there) [
    | inl (_, same) ↦ absurd (ground (arith, free, ap (λ (g : Cell). g.free) same))
    | inr was ↦ same_free v x k was free
  ]

  -- No block lies right before the new one and is not last.
  grown-Before : Before grown r.base
  unfolding cell
  grown-Before x k there more meets free =
      let g = grown-NoMoreFree x k there free in
      let n = laid.next x g.cell g.there (g.last ∙ more) in
      let at_base : x + g.cell.size ≡ r.base = ap (λ (s : ℕ). x + s) g.size ∙ meets in
      ground (arith, sym n.there ∙ subst (λ y. v y ≡ none) (sym at_base) nothing)

  grown-Laid : Laid grown null (h.segments ++ r ∷ [])
  unfolding cell
  grown-Laid = record {
    shape =
        grown-all Shape
          (record {
            big = omega (arith, new.big);
            whole = new.size_16;
            aligned = new.base_16;
            non_null = new.non_null;
            in_space = new.in_space;
          })
          laid.shape;
    apart = λ x y k l x_at y_at lt. elim (grown-cases x k x_at) [
      | inl (e, same) ↦ elim (grown-cases y l y_at) [
        | inl (e', _) ↦ absurd (omega (arith, e, e', lt))
        | inr y_was ↦
            let size = ap (λ (g : Cell). g.size) same in
            grind (arith, grow-apart y l y_was, e, size, lt, (laid.shape y l y_was).big)
      ]
      | inr x_was ↦ elim (grown-cases y l y_at) [
        | inl (e', _) ↦ grind (arith, grow-apart x k x_was, e', lt, new.big)
        | inr y_was ↦ laid.apart x y k l x_was y_was lt
      ]
    ];
    next = λ x k at.
        grown-all (λ y g. g.last ≡ false → Next grown null y g)
          (λ bad. absurd (ground (arith, bad)))
          (λ y g was more.
            let n = laid.next y g was more in
            record {
              cell = n.cell;
              there = old (y + g.size) n.cell n.there;
              not_first = n.not_first;
              home = n.home;
              back = n.back;
            })
          x k at;
    prev = λ x k at.
        grown-all (λ y g. g.first ≡ false → y ≢ null → Prev grown y g)
          (λ bad. absurd (ground (arith, bad)))
          (λ y g was later ne.
            let p = laid.prev y g was later ne in
            record {
              cell = p.cell;
              below = p.below;
              there = old (y - g.prev) p.cell p.there;
              size = p.size;
              not_last = p.not_last;
            })
          x k at;
    home =
        grown-all (Home (h.segments ++ r ∷ []))
          (record {
            among = Listed-last r h.segments;
            from = omega arith;
            to = omega arith;
            starts = λ _. refl;
            ends = λ _. refl;
          })
          (λ y g was.
            let m = laid.home y g was in
            record {
              among = Listed-left g.home r h.segments m.among;
              from = m.from;
              to = m.to;
              starts = m.starts;
              ends = m.ends;
            });
    rooted = λ s listed. elim (Listed-cases s r h.segments listed) [
      | inl more ↦
          let root = laid.rooted s more in
          record { cell = root.cell; there = old s.base root.cell root.there; home = root.home }
      | inr is ↦ record {
        cell = cell;
        there = subst (λ g. grown g.base ≡ some cell) (sym is) new_at;
        home = sym is;
      }
    ];
  }

  m0 : Bytes
  m0 = fill r.base 0 r.size w.bytes

  m1 : Bytes
  m1 = whole_block r.base r.size m0

  fits : r.size < word
  fits = omega (arith, new.in_space)

  new-Tagged : Tagged m1 r.base cell
  unfolding m1 whole_block cell
  new-Tagged = set_prev_size-Tagged 0 _ r.base _ (omega arith) (
      set_last-Tagged true _ r.base _ (
        set_first-Tagged true _ r.base _
          (set_size-Tagged r.size _ r.base _ new.size_16 fits (cleared-Tagged m0 r.base r))))

  -- Memory outside the new segment is as it was.
  off : (q j : ℕ) → Apart q j r.base r.size → SameOn q j w.bytes m1
  unfolding m1 m0 whole_block set_flag set_size
  off q j away =
      let near : Apart q j r.base 16 = grind (arith, away, new.big) in
      SameOn-trans q j w.bytes m0 m1 (fill-SameOn j q r.base 0 r.size w.bytes away) (
        SameOn-trans q j m0 (store64 r.base 0 m0) m1
          (write_le-SameOn j q 8 r.base 0 m0 (ground (arith, near)))
          (SameOn-trans q j _ (set_size r.base r.size (store64 r.base 0 m0)) m1
            (write_le-SameOn j q 8 r.base _ _ (ground (arith, near)))
            (SameOn-trans q j _
              (set_flag first_flag true r.base (set_size r.base r.size (store64 r.base 0 m0))) m1
              (write_le-SameOn j q 8 r.base _ _ (ground (arith, near)))
              (SameOn-trans q j _
                (set_flag last_flag true r.base
                  (set_flag first_flag true r.base (set_size r.base r.size (store64 r.base 0 m0))))
                m1 (write_le-SameOn j q 8 r.base _ _ (ground (arith, near)))
                (write_le-SameOn j q 8 (r.base + 8) 0 _ (ground (arith, near)))))))

  grown-Held : Held grown m1
  grown-Held = grown-all (Tagged m1) new-Tagged (λ x k at.
      let s = laid.shape x k at in
      Tagged-same w.bytes m1 x k (off x 16 (grind (arith, grow-apart x k at, s.big))) (held x k at))

  grown-in_bin : (i : ℕ) (x : Ptr) → in_bin i (grown x) ≡ in_bin i (v x)
  unfolding grown cell
  grown-in_bin i x = elim (Bool-cases (x == r.base)) [
    | inl eq ↦
        subst (λ y. in_bin i (grown y) ≡ in_bin i (v y)) (let e : r.base ≡ x = ground arith in e)
          (used-in_bin i (grown r.base) cell new_at refl ∙ sym (ap (in_bin i) nothing))
    | inr eq ↦ ap (in_bin i) (put-away v r.base x (some cell) (ground arith))
  ]

  grown_heap : SegmentHeap
  grown_heap = record h { segments = h.segments ++ r ∷ [] }

  grown-HeapInv : HeapInv grown lists null grown_heap m1
  unfolding grown_heap
  grown-HeapInv = record {
    laid = grown-Laid;
    held = grown-Held;
    binned = Binned-same v grown lists null h w.bytes m1 laid binned grown-in_bin (λ x k at _.
        let s = laid.shape x k at in off (node_of x) 16 (grind (arith, grow-apart x k at, s.big)));
  }

  grown-Beyond : (a : Ptr) → within r.base r.size a ≡ 0 → m1 a ≡ w.bytes a
  unfolding within
  grown-Beyond a out = off a 1 (grind (arith, out)) a (omega arith) (omega arith)

  grown-Kept : (x : Ptr) (k : Cell) → v x ≡ some k → k.free ≡ false → Kept grown w.bytes m1 x k
  grown-Kept x k at in_use =
      let s = laid.shape x k at in
      record {
        cell = k;
        there = old x k at;
        in_use = in_use;
        size = refl;
        payload = off (x + 16) (k.size - 16) (grind (arith, grow-apart x k at, s.big));
      }
