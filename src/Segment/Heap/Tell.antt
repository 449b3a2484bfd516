-- ===== src/Segment/Heap/Tell.antt =====
-- The last write of `splitBlock` and of the merges: the block behind a block is told its size.
use m_alloc.Base.{
  ℕ, ◌+◌, ◌-◌, ◌<◌, ◌≡◌, ◌≢◌, refl, arith, true, false, sym, ap, ◌∙◌, inl, inr, subst, some, List,
  ◌==◌, Bool-cases, if◌then◌else◌,
}
use m_alloc.Memory.{Ptr, Bytes, null}
use m_alloc.Memory.Laws.{Apart, SameOn, write_le-SameOn}
use m_alloc.Header.{word}
use m_alloc.SystemMemory.{Region}
use m_alloc.Segment.Tag.{node_of, is_last, next_block, set_prev_size}
use m_alloc.Segment.Bins.{SegmentHeap}
use m_alloc.Segment.Ops.{tell_next}
use m_alloc.Segment.Heap.{Cell, View, Laid, Held, Tagged, Binned, HeapInv, put, in_bin}
use m_alloc.Segment.Heap.Tags.{header-apart, Tagged-same, set_prev_size-Tagged}
use m_alloc.Segment.Heap.Flip.{put-away, put-here, put-cases, some-injective, moved_home}
use m_alloc.Segment.Heap.Coalesced.{NoMoreFree, same_free}
use m_alloc.Segment.Heap.Keeps.{Kept, Kept-self, Binned-same}
use m_alloc.Segment.Heap.Beyond.{Beyond, off_block}

-- The address of the block behind a block, which may not know its size yet.
abbrev pub behind : Ptr → Cell → Ptr
behind b c = if c.last then null else b + c.size

-- The invariant with no block left that does not know the one before it.
pub record Settled (v : View) (lists : ℕ → List Ptr) (h : SegmentHeap) (m : Bytes) (b : Ptr)
    (c : Cell) (m' : Bytes) : Type 0 where
  pub view : View
  pub inv : HeapInv view lists null h m'
  pub same : view b ≡ some c
  pub was : (x : Ptr) (e : Cell) → view x ≡ some e → (k : Cell) × (v x ≡ some k)
  pub fewer : NoMoreFree v view
  pub keeps : (x : Ptr) (e : Cell) → v x ≡ some e → e.free ≡ false → Kept view m m' x e
  pub beyond : Beyond h.segments m m'

module _ (v : View) (segments : List Region) (b : Ptr) (c : Cell) (d : Cell)
    (laid : Laid v (b + c.size) segments) (at : v b ≡ some c)
    (next_at : v (b + c.size) ≡ some d) where
  told_cell : Cell
  told_cell = record d { prev = c.size }

  told : View
  told = put v (b + c.size) (some told_cell)

  -- What a block was before.
  record Was (x : Ptr) (e : Cell) : Type 0 where
    pub cell : Cell
    pub there : v x ≡ some cell
    pub size : cell.size ≡ e.size
    pub first : cell.first ≡ e.first
    pub last : cell.last ≡ e.last
    pub home : cell.home ≡ e.home
    pub free : cell.free ≡ e.free
    pub told_prev : x ≡ b + c.size → e.prev ≡ c.size
    pub prev : x ≢ b + c.size → cell.prev ≡ e.prev

  was : (x : Ptr) (e : Cell) → told x ≡ some e → Was x e
  unfolding told told_cell
  was x e there = elim (put-cases v (b + c.size) x (some told_cell) e there) [
    | inl (at_n, same) ↦
        let e_is = some-injective told_cell e same in
        record {
          cell = d;
          there = subst (λ y. v y ≡ some d) (sym at_n) next_at;
          size = ap (λ (k : Cell). k.size) e_is;
          first = ap (λ (k : Cell). k.first) e_is;
          last = ap (λ (k : Cell). k.last) e_is;
          home = ap (λ (k : Cell). k.home) e_is;
          free = ap (λ (k : Cell). k.free) e_is;
          told_prev = λ _. sym (ap (λ (k : Cell). k.prev) e_is);
          prev = λ ne. absurd (ne at_n);
        }
    | inr (ne, x_at) ↦ record {
      cell = e;
      there = x_at;
      size = refl;
      first = refl;
      last = refl;
      home = refl;
      free = refl;
      told_prev = λ at_n. absurd (ne at_n);
      prev = λ _. refl;
    }
  ]

  -- What a block is now.
  record Now (x : Ptr) (e : Cell) : Type 0 where
    pub cell : Cell
    pub there : told x ≡ some cell
    pub size : cell.size ≡ e.size
    pub first : cell.first ≡ e.first
    pub last : cell.last ≡ e.last
    pub home : cell.home ≡ e.home
    pub free : cell.free ≡ e.free
    pub told_prev : x ≡ b + c.size → cell.prev ≡ c.size
    pub prev : x ≢ b + c.size → cell.prev ≡ e.prev

  now : (x : Ptr) (e : Cell) → v x ≡ some e → Now x e
  unfolding told told_cell
  now x e x_at = elim (Bool-cases (x == b + c.size)) [
    | inl eq ↦
        let at_n : x ≡ b + c.size = ground arith in
        let d_is = some-injective d e (sym next_at ∙ subst (λ y. v y ≡ some e) at_n x_at) in
        record {
          cell = told_cell;
          there =
              subst (λ y. told y ≡ some told_cell) (sym at_n)
                (put-here v (b + c.size) (some told_cell));
          size = ap (λ (k : Cell). k.size) d_is;
          first = ap (λ (k : Cell). k.first) d_is;
          last = ap (λ (k : Cell). k.last) d_is;
          home = ap (λ (k : Cell). k.home) d_is;
          free = ap (λ (k : Cell). k.free) d_is;
          told_prev = λ _. refl;
          prev = λ ne. absurd (ne at_n);
        }
    | inr eq ↦
        let ne : x ≢ b + c.size = ground arith in
        record {
          cell = e;
          there = put-away v (b + c.size) x (some told_cell) ne ∙ x_at;
          size = refl;
          first = refl;
          last = refl;
          home = refl;
          free = refl;
          told_prev = λ at_n. absurd (ne at_n);
          prev = λ _. refl;
        }
  ]

  -- Only one block ends where the next one starts.
  pub same_end : (x : Ptr) (e : Cell) → v x ≡ some e → x + e.size ≡ b + c.size → e.size ≡ c.size
  same_end x e x_at ends =
      let xb = laid.apart x b e c x_at at in
      let bx = laid.apart b x c e at x_at in
      let x_shape = laid.shape x e x_at in
      let b_shape = laid.shape b c at in grind (arith, xb, bx, x_shape.big, b_shape.big)

  told-Laid : c.last ≡ false → Laid told null segments
  told-Laid more = record {
    shape = λ x e there.
        let w = was x e there in
        let s = laid.shape x w.cell w.there in
        record {
          big = omega (arith, s.big, w.size);
          whole = omega (arith, s.whole, w.size);
          aligned = s.aligned;
          non_null = s.non_null;
          in_space = omega (arith, s.in_space, w.size);
        };
    apart = λ x y e k x_at y_at lt.
        let w = was x e x_at in
        let w' = was y k y_at in
        omega (arith, laid.apart x y w.cell w'.cell w.there w'.there lt, w.size);
    next = λ x e there open_end.
        let w = was x e there in
        let old = laid.next x w.cell w.there (w.last ∙ open_end) in
        let new = now (x + w.cell.size) old.cell old.there in
        record {
          cell = new.cell;
          there = subst (λ s. told (x + s) ≡ some new.cell) w.size new.there;
          not_first = new.first ∙ old.not_first;
          home = new.home ∙ old.home ∙ w.home;
          back = λ _. elim (Bool-cases (x + w.cell.size == b + c.size)) [
            | inl eq ↦
                let meets : x + w.cell.size ≡ b + c.size = ground arith in
                new.told_prev meets ∙ sym (same_end x w.cell w.there meets) ∙ w.size
            | inr eq ↦
                let misses : x + w.cell.size ≢ b + c.size = ground arith in
                new.prev misses ∙ old.back misses ∙ w.size
          ];
        };
    prev = λ x e there later _. elim (Bool-cases (x == b + c.size)) [
      | inl eq ↦
          let at_n : x ≡ b + c.size = ground arith in
          let w = was x e there in
          let self = now b c at in
          let back : x - e.prev ≡ b = omega (arith, at_n, w.told_prev at_n) in
          record {
            cell = self.cell;
            below = omega (arith, at_n, w.told_prev at_n);
            there = subst (λ y. told y ≡ some self.cell) (sym back) self.there;
            size = self.size ∙ sym (w.told_prev at_n);
            not_last = self.last ∙ more;
          }
      | inr eq ↦
          let ne : x ≢ b + c.size = ground arith in
          let w = was x e there in
          let old = laid.prev x w.cell w.there (w.first ∙ later) ne in
          let new = now (x - w.cell.prev) old.cell old.there in
          record {
            cell = new.cell;
            below = omega (arith, old.below, w.prev ne);
            there = subst (λ p. told (x - p) ≡ some new.cell) (w.prev ne) new.there;
            size = new.size ∙ old.size ∙ w.prev ne;
            not_last = new.last ∙ old.not_last;
          }
    ];
    home = λ x e there.
        let w = was x e there in
        let r = laid.home x w.cell w.there in
        moved_home segments x w.cell e r w.size w.first w.last w.home;
    rooted = λ s among.
        let r = laid.rooted s among in
        let k = now s.base r.cell r.there in
        record { cell = k.cell; there = k.there; home = k.home ∙ r.home };
  }

  module _ (m : Bytes) (held : Held v m) where
    m' : Bytes
    m' = set_prev_size (b + c.size) c.size m

    small : c.size < word
    small = let s = laid.shape b c at in omega (arith, s.in_space)

    off : (q j : ℕ) → Apart q j (b + c.size + 8) 8 → SameOn q j m m'
    unfolding m'
    off q j h = write_le-SameOn j q 8 (b + c.size + 8) c.size m h

    told-Held : Held told m'
    unfolding told told_cell m'
    told-Held x e there = elim (put-cases v (b + c.size) x (some told_cell) e there) [
      | inl (at_n, same) ↦
          subst (λ y. Tagged m' y e) (sym at_n)
            (subst (Tagged m' (b + c.size)) (some-injective told_cell e same)
              (set_prev_size-Tagged c.size m (b + c.size) d small (held (b + c.size) d next_at)))
      | inr (ne, x_at) ↦
          let far = header-apart v (b + c.size) segments laid x (b + c.size) e d x_at next_at ne in
          Tagged-same m m' x e (off x 16 (ground (arith, far))) (held x e x_at)
    ]

    told-Kept : (x : Ptr) (e : Cell) → v x ≡ some e → e.free ≡ false → Kept told m m' x e
    told-Kept x e x_at in_use =
        let k = now x e x_at in
        record {
          cell = k.cell;
          there = k.there;
          in_use = k.free ∙ in_use;
          size = k.size;
          payload =
              let xn = laid.apart x (b + c.size) e d x_at next_at in
              let nx = laid.apart (b + c.size) x d e next_at x_at in
              let x_shape = laid.shape x e x_at in
              let n_shape = laid.shape (b + c.size) d next_at in
              off (x + 16) (e.size - 16) (grind (arith, xn, nx, x_shape.big, n_shape.big));
        }

    told-Beyond : Beyond segments m m'
    told-Beyond a out =
        let s = laid.shape (b + c.size) d next_at in
        off a 1
          (grind
            (arith, off_block v (b + c.size) segments (b + c.size) d a laid next_at out, s.big))
          a (omega arith) (omega arith)

    told-in_bin : (i : ℕ) (x : Ptr) → in_bin i (told x) ≡ in_bin i (v x)
    unfolding told told_cell
    told-in_bin i x = elim (Bool-cases (x == b + c.size)) [
      | inl eq ↦
          let at_n : b + c.size ≡ x = ground arith in
          subst (λ y. in_bin i (told y) ≡ in_bin i (v y)) at_n
            (ap (in_bin i) (put-here v (b + c.size) (some told_cell)) ∙ sym (ap (in_bin i) next_at))
      | inr eq ↦ ap (in_bin i) (put-away v (b + c.size) x (some told_cell) (ground arith))
    ]

    told-links : (x : Ptr) (e : Cell) → v x ≡ some e → e.free ≡ true → SameOn (node_of x) 16 m m'
    told-links x e x_at is_free = off (node_of x) 16 (elim (Bool-cases (x == b + c.size)) [
      | inl eq ↦ ground arith
      | inr eq ↦
          let far =
            header-apart v (b + c.size) segments laid x (b + c.size) e d x_at next_at
              (ground arith) in
          ground (arith, far)
    ])

    told-Settled :
        (lists : ℕ → List Ptr) (h : SegmentHeap)
        → h.segments ≡ segments
        → c.last ≡ false
        → Binned v lists h.bins m
        → Settled v lists h m b c m'
    unfolding told
    told-Settled lists h segs more binned = record {
      view = told;
      inv = record {
        laid = subst (Laid told null) (sym segs) (told-Laid more);
        held = told-Held;
        binned =
            Binned-same v told lists (b + c.size) h m m'
              (subst (Laid v (b + c.size)) (sym segs) laid) binned told-in_bin told-links;
      };
      same =
          let s = laid.shape b c at in
          put-away v (b + c.size) b (some told_cell) (omega (arith, s.big)) ∙ at;
      was = λ x e there. let w = was x e there in (w.cell, w.there);
      fewer = λ x e there free.
          let w = was x e there in
          record {
            cell = w.cell;
            there = w.there;
            is_free = w.free ∙ free;
            size = w.size;
            last = w.last;
          };
      keeps = told-Kept;
      beyond = subst (λ s. Beyond s m m') (sym segs) told-Beyond;
    }

-- `deallocate` and `splitBlock` end with a write that restores the invariant: where only the block
-- behind a block may have a stale size of the one before it, that size is written, if there is such a
-- block, and all else stays.
pub tell_next-Settled :
    (v : View) (lists : ℕ → List Ptr) (h : SegmentHeap) (m : Bytes) (b : Ptr) (c : Cell)
    → HeapInv v lists (behind b c) h m
    → v b ≡ some c
    → Settled v lists h m b c (tell_next b m)
unfolding tell_next next_block m'
tell_next-Settled v lists h m b c inv at = elim (Bool-cases c.last) [
  | inl end ↦
      let stop : is_last b m ≡ true = tag.last ∙ end in
      rw stop (record {
        view = v;
        inv =
            subst (λ (l : Ptr). HeapInv v lists l h m)
              (let nothing : behind b c ≡ null = ground (arith, end) in nothing) inv;
        same = at;
        was = λ x e there. (e, there);
        fewer = same_free v;
        keeps = Kept-self;
        beyond = λ _ _. refl;
      })
  | inr more ↦
      let go : is_last b m ≡ false = tag.last ∙ more in
      let loose : behind b c ≡ b + c.size = ground (arith, more) in
      let laid = subst (λ (l : Ptr). Laid v l h.segments) loose inv.laid in
      let next = laid.next b c at more in
      rw (go, tag.size)
        (told-Settled v h.segments b c next.cell laid at next.there m inv.held lists h refl more
          inv.binned)
]
  where
    tag : Tagged m b c
    tag = inv.held b c at
