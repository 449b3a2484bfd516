-- ===== src/Segment/Heap/Release.antt =====
-- `releaseSegment`: a segment that is one block, in use, leaves the tier.
use m_alloc.Base.{
  ℕ, ◌+◌, ◌-◌, ◌≤◌, ◌<◌, ◌≡◌, ◌≢◌, refl, arith, true, false, sym, ap, ◌∙◌, inl, inr, subst, some,
  none, List, [], ◌∷◌, ◌==◌, Bool-cases,
}
use m_alloc.Memory.{Ptr, Bytes, null}
use m_alloc.SystemMemory.{Region, within, covered}
use m_alloc.Large.Ownership.{Listed, starts-covered, starts-within}
use m_alloc.Segment.Bins.{SegmentHeap}
use m_alloc.Segment.Ops.{take_segment}
use m_alloc.Segment.Heap.{Cell, View, Laid, Shape, Home, Held, Binned, HeapInv, put, in_bin}
use m_alloc.Segment.Heap.Flip.{put-away, put-here, put-cases, some-injective}
use m_alloc.Segment.Heap.Coalesced.{NoMoreFree, same_free}
use m_alloc.Segment.Heap.Keeps.{Binned-same, used-in_bin}

-- The list without the one region.
pub record Taken (r : Region) (segments left : List Region) : Type 0 where
  pub found : take_segment r.base segments ≡ some (r, left)
  pub shares : (a : Ptr) → covered left a + within r.base r.size a ≡ covered segments a
  pub from : (s : Region) → Listed s left → Listed s segments
  pub other : (s : Region) → Listed s left → s ≢ r
  pub to : (s : Region) → Listed s segments → s ≢ r → Listed s left

-- A region that starts where no other one does is the one that `releaseSegment` erases.
pub take_segment-Taken :
    (r : Region) (segments : List Region)
    → Listed r segments
    → ((s : Region) → Listed s segments → s.base ≡ r.base → s ≡ r)
    → 0 < r.size
    → covered segments r.base ≤ 1
    → (left : List Region) × Taken r segments left
unfolding take_segment covered
take_segment-Taken r [] here unique pos one = absurd here
take_segment-Taken r (s ∷ ss) here unique pos one = elim (Bool-cases (s.base == r.base)) [
  | inl hit ↦
      let is : s ≡ r = unique s (inl refl) (ground arith) in
      let base = ap (λ (g : Region). g.base) is in
      let size = ap (λ (g : Region). g.size) is in
      let counted : (a : Ptr) → within s.base s.size a ≡ within r.base r.size a =
        λ a. ap (λ (g : Region). within g.base g.size a) is in
      (
        ss,
        record {
          found = rw hit (ap (λ (g : Region). some (g, ss)) is);
          shares = λ a. omega (arith, counted a);
          from = λ t h. inr h;
          other = λ t h e.
              let again : Listed r ss = subst (λ g. Listed g ss) e h in
              absurd (
                omega
                  (arith, starts-covered r ss again pos, starts-within r pos, counted r.base, one));
          to = λ t h ne. elim h [ inl e ↦ absurd (ne (e ∙ is)) | inr more ↦ more ];
        },
      )
  | inr miss ↦
      let there : Listed r ss = elim here [
        | inl e ↦ absurd (ground (arith, miss, ap (λ (g : Region). g.base) e))
        | inr more ↦ more
      ] in
      let (left, t) =
        take_segment-Taken r ss there (λ u h. unique u (inr h)) pos (omega (arith, one)) in
      (
        s ∷ left,
        record {
          found = rw (miss, t.found) refl;
          shares = λ a. omega (arith, t.shares a);
          from = λ u h. elim h [ inl e ↦ inl e | inr more ↦ inr (t.from u more) ];
          other = λ u h e. elim h [
            | inl is ↦ ground (arith, miss, ap (λ (g : Region). g.base) (sym is ∙ e))
            | inr more ↦ t.other u more e
          ];
          to = λ u h ne. elim h [ inl e ↦ inl e | inr more ↦ inr (t.to u more ne) ];
        },
      )
]

module _ (v : View) (segments : List Region) (laid : Laid v null segments) (b : Ptr) (c : Cell)
    (at : v b ≡ some c) (starts : c.first ≡ true) (ends : c.last ≡ true) where
  shape : Shape b c
  shape = laid.shape b c at

  home : Home segments b c
  home = laid.home b c at

  -- No other segment starts at the block.
  pub unique : (s : Region) → Listed s segments → s.base ≡ c.home.base → s ≡ c.home
  unique s listed e =
      let r = laid.rooted s listed in
      let here : s.base ≡ b = e ∙ sym (home.starts starts) in
      let same = some-injective r.cell c (sym r.there ∙ subst (λ y. v y ≡ some c) (sym here) at) in
      sym r.home ∙ ap (λ (g : Cell). g.home) same

  -- No other block lies in the segment.
  pub alone : (x : Ptr) (k : Cell) → v x ≡ some k → x ≢ b → k.home ≢ c.home
  alone x k x_at ne e =
      let g = laid.home x k x_at in
      let s = laid.shape x k x_at in
      let base = ap (λ (t : Region). t.base) e in
      let size = ap (λ (t : Region). t.size) e in
      omega (
        arith,
        g.from,
        g.to,
        base,
        size,
        home.starts starts,
        home.ends ends,
        s.big,
        laid.apart b x c k at x_at (omega (arith, g.from, base, home.starts starts, ne)),
      )

  unfoldable pub dropped : View
  dropped = put v b none

  module _ (left : List Region) (taken : Taken c.home segments left) where
    was : (x : Ptr) (k : Cell) → dropped x ≡ some k → (x ≢ b) × (v x ≡ some k)
    unfolding dropped
    was x k there = elim (put-cases v b x none k there) [
      | inl (_, bad) ↦ absurd (ground (arith, bad))
      | inr (ne, x_at) ↦ (ne, x_at)
    ]

    still : (x : Ptr) (k : Cell) → v x ≡ some k → x ≢ b → dropped x ≡ some k
    unfolding dropped
    still x k x_at ne = put-away v b x none ne ∙ x_at

    pub dropped-NoMoreFree : NoMoreFree v dropped
    dropped-NoMoreFree x k there free = same_free v x k (was x k there).1 free

    pub dropped-Laid : Laid dropped null left
    dropped-Laid = record {
      shape = λ x k there. laid.shape x k (was x k there).1;
      apart = λ x y k l x_at y_at lt. laid.apart x y k l (was x k x_at).1 (was y l y_at).1 lt;
      next = λ x k there more.
          let old = laid.next x k (was x k there).1 more in
          let ne : x + k.size ≢ b = λ e.
            let same =
              some-injective old.cell c (sym old.there ∙ subst (λ y. v y ≡ some c) (sym e) at) in
            ground (arith, starts, old.not_first, ap (λ (g : Cell). g.first) same) in
          record {
            cell = old.cell;
            there = still (x + k.size) old.cell old.there ne;
            not_first = old.not_first;
            home = old.home;
            back = old.back;
          };
      prev = λ x k there later loose.
          let old = laid.prev x k (was x k there).1 later loose in
          let ne : x - k.prev ≢ b = λ e.
            let same =
              some-injective old.cell c (sym old.there ∙ subst (λ y. v y ≡ some c) (sym e) at) in
            ground (arith, ends, old.not_last, ap (λ (g : Cell). g.last) same) in
          record {
            cell = old.cell;
            below = old.below;
            there = still (x - k.prev) old.cell old.there ne;
            size = old.size;
            not_last = old.not_last;
          };
      home = λ x k there.
          let (ne, x_at) = was x k there in
          let g = laid.home x k x_at in
          record {
            among = taken.to k.home g.among (alone x k x_at ne);
            from = g.from;
            to = g.to;
            starts = g.starts;
            ends = g.ends;
          };
      rooted = λ s listed.
          let r = laid.rooted s (taken.from s listed) in
          let ne : s.base ≢ b = λ e.
            let same =
              some-injective r.cell c (sym r.there ∙ subst (λ y. v y ≡ some c) (sym e) at) in
            taken.other s listed (sym r.home ∙ ap (λ (g : Cell). g.home) same) in
          record { cell = r.cell; there = still s.base r.cell r.there ne; home = r.home };
    }

    -- Without the block the invariant holds of what is left.
    pub dropped-HeapInv :
        (lists : ℕ → List Ptr) (h : SegmentHeap) (m : Bytes)
        → h.segments ≡ segments
        → c.free ≡ false
        → Held v m
        → Binned v lists h.bins m
        → HeapInv dropped lists null (record h { segments = left }) m
    unfolding dropped
    dropped-HeapInv lists h m segs in_use held binned = record {
      laid = dropped-Laid;
      held = λ x k there. held x k (was x k there).1;
      binned =
          Binned-same v dropped lists null h m m (subst (Laid v null) (sym segs) laid) binned same
            (λ _ _ _ _ _ _ _. refl);
    }
      where
        same : (i : ℕ) (x : Ptr) → in_bin i (dropped x) ≡ in_bin i (v x)
        same i x = elim (Bool-cases (x == b)) [
          | inl eq ↦
              subst (λ y. in_bin i (put v b none y) ≡ in_bin i (v y))
                (let e : b ≡ x = ground arith in e)
                (ap (in_bin i) (put-here v b none) ∙ sym (used-in_bin i (v b) c at in_use))
          | inr eq ↦ ap (in_bin i) (put-away v b x none (ground arith))
        ]
