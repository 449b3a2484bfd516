-- ===== src/Segment/Heap/Merge.antt =====
-- The two writes by which `deallocate` joins a block with the one behind it.
pub mod Joined
pub mod Left
use m_alloc.Base.{
  ℕ, ◌+◌, ◌-◌, ◌%◌, ◌≤◌, ◌<◌, ◌≡◌, ◌≢◌, refl, arith, Bool, true, false, sym, ap, ◌∙◌, inl, inr,
  subst, Option, some, none, List, ◌==◌, Bool-cases, if◌then◌else◌, ◌⊎◌,
}
use m_alloc.Memory.{Ptr, Bytes, null}
use m_alloc.Memory.Laws.{Apart, SameOn, SameOn-trans, write_le-SameOn}
use m_alloc.Header.{word}
use m_alloc.Segment.Tag.{node_of, last_flag, size_at, is_last, set_size, set_flag}
use m_alloc.Segment.Bins.{SegmentHeap}
use m_alloc.Segment.Heap.{Cell, View, Laid, Held, Tagged, Binned, HeapInv, put, in_bin}
use m_alloc.Segment.Heap.Tags.{header-apart, Tagged-same, set_size-Tagged, set_last-Tagged}
use m_alloc.Segment.Heap.Flip.{some-injective}
use m_alloc.Segment.Heap.Keeps.{Kept, Binned-same, used-in_bin, used_differs}
use m_alloc.Segment.Heap.Tell.{behind}
use m_alloc.Segment.Heap.Join.{
  both, joined, joined-here, joined-away, joined-cases, joined-Laid, outside,
}
use m_alloc.Segment.Heap.Beyond.{Beyond, off_block}

abbrev pub merged : Ptr → Ptr → Bytes → Bytes
merged b n m =
    let m2 = set_size b ((size_at b m + size_at n m) % word) m in
    set_flag last_flag (is_last n m2) b m2

module _ (v : View) (lists : ℕ → List Ptr) (loose : Ptr) (h : SegmentHeap) (m : Bytes)
    (inv : HeapInv v lists loose h m) (b : Ptr) (c d : Cell) (at : v b ≡ some c)
    (next_at : v (b + c.size) ≡ some d) (in_use : c.free ≡ false) (next_in_use : d.free ≡ false)
    (more : c.last ≡ false) (meets : (loose ≡ null) ⊎ (loose ≡ behind (b + c.size) d)) where
  open inv use {laid, held, binned}

  n : Ptr
  n = b + c.size

  pub whole : View
  whole = joined v loose h.segments laid b c d at next_at

  pub whole_cell : Cell
  whole_cell = both v loose h.segments laid b c d at next_at

  sized : Bytes
  sized = set_size b ((size_at b m + size_at n m) % word) m

  far : n ≢ b
  unfolding n
  far = let s = laid.shape b c at in omega (arith, s.big)

  off_sized : (q j : ℕ) → Apart q j b 8 → SameOn q j m sized
  unfolding sized set_size
  off_sized q j away = write_le-SameOn j q 8 b _ m away

  off : (q j : ℕ) → Apart q j b 8 → SameOn q j m (merged b n m)
  unfolding sized set_flag
  off q j away =
      SameOn-trans q j m sized _ (off_sized q j away) (write_le-SameOn j q 8 b _ sized away)

  sum : (size_at b m + size_at n m) % word ≡ c.size + d.size
  unfolding n
  sum =
      let s = laid.shape (b + c.size) d next_at in
      omega (arith, (held b c at).size, (held (b + c.size) d next_at).size, s.in_space)

  last_is : is_last n sized ≡ d.last
  unfolding n
  last_is =
      (Tagged-same m sized n d
        (off_sized n 16 (
          let k = header-apart v loose h.segments laid n b d c next_at at far in ground (arith, k)))
        (held n d next_at)).last

  whole-Tagged : Tagged (merged b n m) b whole_cell
  unfolding whole_cell both sized n
  whole-Tagged =
      let s = laid.shape b c at in
      let s' = laid.shape (b + c.size) d next_at in
      subst (λ l. Tagged (merged b n m) b (record c { size = c.size + d.size; last = l })) last_is
        (set_last-Tagged (is_last n sized) sized b _ (
          subst (λ t. Tagged sized b (record c { size = t })) sum
            (set_size-Tagged ((size_at b m + size_at n m) % word) m b c
              (omega (arith, sum, s.whole, s'.whole)) (omega arith) (held b c at))))

  whole-Held : Held whole (merged b n m)
  unfolding whole whole_cell n
  whole-Held x k there = elim (joined-cases v loose h.segments laid b c d at next_at x k there) [
    | inl (e, same) ↦
        subst (λ y. Tagged (merged b n m) y k) (sym e)
          (subst (Tagged (merged b n m) b) same whole-Tagged)
    | inr (nb, nn, was) ↦
        Tagged-same m (merged b n m) x k
          (off x 16
            (let g = header-apart v loose h.segments laid x b k c was at nb in ground (arith, g)))
          (held x k was)
  ]

  -- The block behind is a block no more.
  pub gone : whole (b + c.size) ≡ none
  unfolding whole joined n
  gone =
      let ne : (b + c.size == b) ≡ false = ground (arith, (laid.shape b c at).big) in
      let self : (b + c.size == b + c.size) ≡ true = ground arith in rw (ne, self) refl

  whole-in_bin : (i : ℕ) (x : Ptr) → in_bin i (whole x) ≡ in_bin i (v x)
  unfolding whole whole_cell both n
  whole-in_bin i x = elim (Bool-cases (x == b)) [
    | inl eq ↦
        subst (λ y. in_bin i (whole y) ≡ in_bin i (v y)) (let e : b ≡ x = ground arith in e)
          (used-in_bin i (whole b) whole_cell (joined-here v loose h.segments laid b c d at next_at)
              in_use
            ∙ sym (used-in_bin i (v b) c at in_use))
    | inr eq ↦ elim (Bool-cases (x == b + c.size)) [
      | inl eq' ↦
          subst (λ y. in_bin i (whole y) ≡ in_bin i (v y))
            (let e : b + c.size ≡ x = ground arith in e)
            (ap (in_bin i) gone ∙ sym (used-in_bin i (v (b + c.size)) d next_at next_in_use))
      | inr eq' ↦
          ap (in_bin i)
            (joined-away v loose h.segments laid b c d at next_at x (ground arith) (ground arith))
    ]
  ]

  whole-Binned : Binned whole lists h.bins (merged b n m)
  whole-Binned =
      Binned-same v whole lists loose h m (merged b n m) laid binned whole-in_bin
        (λ x k x_at is_free.
          let ne : x ≢ b = λ e. used_differs v b x c k at in_use x_at is_free (sym e) in
          let g = header-apart v loose h.segments laid x b k c x_at at ne in
          off (node_of x) 16 (ground (arith, g)))

  -- Joining a block in use with the one in use behind it keeps the invariant.
  pub whole-HeapInv : HeapInv whole lists (behind b whole_cell) h (merged b (b + c.size) m)
  unfolding whole whole_cell n
  whole-HeapInv = record {
    laid = joined-Laid v loose h.segments laid b c d at next_at more meets;
    held = whole-Held;
    binned = whole-Binned;
  }

  -- So is memory outside the segments.
  pub whole-Beyond : Beyond h.segments m (merged b (b + c.size) m)
  unfolding n
  whole-Beyond a out =
      let s = laid.shape b c at in
      off a 1 (grind (arith, off_block v loose h.segments b c a laid at out, s.big)) a (omega arith)
        (omega arith)

  -- Other blocks in use are kept.
  pub whole-Kept :
      (x : Ptr) (k : Cell)
      → v x ≡ some k
      → k.free ≡ false
      → x ≢ b
      → x ≢ b + c.size
      → Kept whole m (merged b (b + c.size) m) x k
  unfolding whole n
  whole-Kept x k x_at x_used nb nn =
      let side = outside v loose h.segments laid b c d at next_at x k x_at nb nn in
      let s = laid.shape x k x_at in
      let s' = laid.shape b c at in
      record {
        cell = k;
        there = joined-away v loose h.segments laid b c d at next_at x nb nn ∙ x_at;
        in_use = x_used;
        size = refl;
        payload = off (x + 16) (k.size - 16) (grind (arith, side, s.big, s'.big));
      }
