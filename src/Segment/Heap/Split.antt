-- ===== src/Segment/Heap/Split.antt =====
-- `splitBlock` keeps the invariant and every other block in use.
pub mod Divided
use m_alloc.Base.{
  ℕ, ◌+◌, ◌-◌, ◌%◌, ◌≤◌, ◌<◌, ◌≡◌, ◌≢◌, refl, arith, Bool, true, false, sym, ap, ◌∙◌, inl, inr,
  subst, Option, some, none, List, ◌==◌, Bool-cases, Option-cases, if◌then◌else◌, ◌⊎◌, ltb,
  if_intro,
}
use m_alloc.Memory.{Ptr, Bytes, null, load64, store64}
use m_alloc.Memory.Laws.{Apart, SameOn, SameOn-trans, write_le-SameOn, load64-store64}
use m_alloc.Header.{word}
use m_alloc.SystemMemory.{Region}
use m_alloc.Segment.Tag.{
  node_of, tag_size, has_flag, free_flag, first_flag, last_flag, size_at, is_last, is_free,
  is_first, set_size, set_flag, set_prev_size, prev_size_at, next_block, min_block_size,
}
use m_alloc.Segment.Bins.{SegmentHeap, insert_free}
use m_alloc.Segment.Ops.{write_rest, split_block, tell_next}
use m_alloc.Segment.Ops.Split.{elsewhere}
use m_alloc.Segment.Heap.{Cell, View, Laid, Held, Tagged, Binned, HeapInv, put, in_bin}
use m_alloc.Segment.Heap.Tags.{Tagged-same, set_size-Tagged, set_last-Tagged, set_prev_size-Tagged}
use m_alloc.Segment.Heap.Flip.{flip, put-away, some-injective}
use m_alloc.Segment.Heap.Marks.{Marked}
use m_alloc.Segment.Heap.Marks.Ops.{insert_free-Marked}
use m_alloc.Segment.Heap.Keeps.{
  Kept, Keeps, Kept-trans, marked-Keeps, Binned-same, used-in_bin, used_differs,
}
use m_alloc.Segment.Heap.Tell.{behind, Settled, tell_next-Settled}
use m_alloc.Segment.Heap.Cut.{
  front, rest, cut, cut-front, cut-rest, cut-away, cut-Laid, around, none_inside, part, Part,
  is_front, is_rest, is_other,
}
use m_alloc.Segment.Heap.Beyond.{Beyond, off_block}

-- A cleared tag.
pub cleared-Tagged :
    (m : Bytes) (b : Ptr) (home : Region)
    → Tagged (store64 b 0 m) b (record {
      size = 0;
      free = false;
      first = false;
      last = false;
      prev = load64 (b + 8) m;
      home = home;
    })
unfolding size_at is_free is_first is_last tag_size has_flag
cleared-Tagged m b home =
    let zero_tag : load64 b (store64 b 0 m) ≡ 0 = load64-store64 b 0 m in
    record {
      size = ap tag_size zero_tag;
      free = ap (has_flag free_flag) zero_tag;
      first = ap (has_flag first_flag) zero_tag;
      last = ap (has_flag last_flag) zero_tag;
      prev = elsewhere (b + 8) b 0 m (inr (omega arith));
      fits = omega (arith, zero_tag);
    }

module _ (v : View) (lists : ℕ → List Ptr) (h : SegmentHeap) (m : Bytes)
    (inv : HeapInv v lists null h m) (b : Ptr) (c : Cell) (at : v b ≡ some c)
    (in_use : c.free ≡ false) (total remainder : ℕ) (sum : total + remainder ≡ c.size)
    (t16 : total % 16 ≡ 0) (t_big : 48 ≤ total) (r_big : 48 ≤ remainder) where
  open inv use {laid, held, binned}

  second : Ptr
  second = b + total

  front_cell : Cell
  front_cell = front v h.segments laid b c at total remainder sum t16 t_big r_big

  rest_cell : Cell
  rest_cell = rest v h.segments laid b c at total remainder sum t16 t_big r_big

  halves : View
  halves = cut v h.segments laid b c at total remainder sum t16 t_big r_big

  m1 : Bytes
  m1 = set_size second remainder (store64 second 0 m)

  m2 : Bytes
  m2 = set_prev_size second total (set_flag last_flag (is_last b m1) second m1)

  m3 : Bytes
  m3 = set_flag last_flag false b (set_size b total m2)

  off_1 : (q j : ℕ) → Apart q j second 16 → SameOn q j m m1
  unfolding m1 set_size
  off_1 q j away =
      SameOn-trans q j m (store64 second 0 m) _
        (write_le-SameOn j q 8 second 0 m (ground (arith, away)))
        (write_le-SameOn j q 8 second _ _ (ground (arith, away)))

  off_2 : (q j : ℕ) → Apart q j second 16 → SameOn q j m m2
  unfolding m2 set_flag
  off_2 q j away = SameOn-trans q j m m1 _ (off_1 q j away) (
      SameOn-trans q j m1 (set_flag last_flag (is_last b m1) second m1) _
        (write_le-SameOn j q 8 second _ m1 (ground (arith, away)))
        (write_le-SameOn j q 8 (second + 8) total _ (ground (arith, away))))

  off_3 : (q j : ℕ) → Apart q j b 16 → SameOn q j m2 m3
  unfolding m3 set_flag set_size
  off_3 q j away =
      SameOn-trans q j m2 (set_size b total m2) _
        (write_le-SameOn j q 8 b _ m2 (ground (arith, away)))
        (write_le-SameOn j q 8 b _ _ (ground (arith, away)))

  off : (q j : ℕ) → Apart q j b 16 → Apart q j second 16 → SameOn q j m m3
  off q j away away' = SameOn-trans q j m m2 m3 (off_2 q j away') (off_3 q j away)

  fits : c.size < word
  fits = let s = laid.shape b c at in omega (arith, s.in_space)

  last_1 : is_last b m1 ≡ c.last
  unfolding second
  last_1 = (Tagged-same m m1 b c (off_1 b 16 (inl (omega (arith, t_big)))) (held b c at)).last

  rest-Tagged : Tagged m2 second rest_cell
  unfolding m1 m2 rest_cell rest
  rest-Tagged =
      set_prev_size-Tagged total (set_flag last_flag (is_last b m1) second m1) second _
        (omega (arith, fits, sum))
        (subst
          (λ l. Tagged (set_flag last_flag (is_last b m1) second m1) second (record {
            size = remainder;
            free = false;
            first = false;
            last = l;
            prev = load64 (second + 8) m;
            home = c.home;
          }))
          last_1
          (set_last-Tagged (is_last b m1) m1 second _ (
            set_size-Tagged remainder (store64 second 0 m) second _
              (let s = laid.shape b c at in omega (arith, s.whole, t16, sum))
              (omega (arith, fits, sum)) (cleared-Tagged m second c.home))))

  front-Tagged : Tagged m3 b front_cell
  unfolding m3 front_cell front second
  front-Tagged = set_last-Tagged false (set_size b total m2) b _ (
      set_size-Tagged total m2 b c t16 (omega (arith, fits, sum))
        (Tagged-same m m2 b c (off_2 b 16 (inl (omega (arith, t_big)))) (held b c at)))

  halves-Held : Held halves m3
  unfolding halves second front_cell rest_cell
  halves-Held x k there =
      elim (part v h.segments laid b c at total remainder sum t16 t_big r_big x k there) [
        | is_front e same ↦
            subst (λ y. Tagged m3 y k) (sym e) (subst (Tagged m3 b) same front-Tagged)
        | is_rest e same ↦
            subst (λ y. Tagged m3 y k) (sym e)
              (subst (Tagged m3 second) same (
                Tagged-same m2 m3 second rest_cell (off_3 second 16 (inr (omega (arith, t_big))))
                  rest-Tagged))
        | is_other nb _ was ↦
            let side =
              around v h.segments laid b c at total remainder sum t16 t_big r_big x k was nb in
            let s = laid.shape x k was in
            Tagged-same m m3 x k
              (off x 16 (grind (arith, side, s.big, sum, t_big))
                (grind (arith, side, s.big, sum, r_big)))
              (held x k was)
      ]

  -- Nothing started where the second part starts.
  nothing : v second ≡ none
  unfolding second
  nothing = elim (Option-cases (v (b + total))) [
    | inl e ↦ e
    | inr (k, e) ↦ absurd (
        none_inside v h.segments laid b c at total remainder sum t16 t_big r_big (b + total) k e
          refl)
  ]

  halves-in_bin : (i : ℕ) (x : Ptr) → in_bin i (halves x) ≡ in_bin i (v x)
  unfolding halves second front rest front_cell rest_cell
  halves-in_bin i x = elim (Bool-cases (x == b)) [
    | inl eq ↦
        subst (λ y. in_bin i (halves y) ≡ in_bin i (v y)) (let e : b ≡ x = ground arith in e)
          (used-in_bin i (halves b) front_cell
              (cut-front v h.segments laid b c at total remainder sum t16 t_big r_big) in_use
            ∙ sym (used-in_bin i (v b) c at in_use))
    | inr eq ↦ elim (Bool-cases (x == b + total)) [
      | inl eq' ↦
          subst (λ y. in_bin i (halves y) ≡ in_bin i (v y))
            (let e : b + total ≡ x = ground arith in e)
            (used-in_bin i (halves (b + total)) rest_cell
                (cut-rest v h.segments laid b c at total remainder sum t16 t_big r_big) refl
              ∙ sym (ap (in_bin i) nothing))
      | inr eq' ↦ ap (in_bin i) (
          cut-away v h.segments laid b c at total remainder sum t16 t_big r_big x (ground arith)
            (ground arith))
    ]
  ]

  halves-Binned : Binned halves lists h.bins m3
  unfolding second
  halves-Binned =
      Binned-same v halves lists null h m m3 laid binned halves-in_bin (λ x k x_at is_free.
        let ne : x ≢ b = λ e. used_differs v b x c k at in_use x_at is_free (sym e) in
        let side =
          around v h.segments laid b c at total remainder sum t16 t_big r_big x k x_at ne in
        let s = laid.shape x k x_at in
        off (node_of x) 16 (grind (arith, side, s.big, sum, t_big))
          (grind (arith, side, s.big, sum, r_big)))

  halves-Keeps : Keeps v m halves m3 b
  unfolding halves second
  halves-Keeps x k x_at k_used ne =
      let side = around v h.segments laid b c at total remainder sum t16 t_big r_big x k x_at ne in
      let s = laid.shape x k x_at in
      record {
        cell = k;
        there =
            cut-away v h.segments laid b c at total remainder sum t16 t_big r_big x ne
              (none_inside v h.segments laid b c at total remainder sum t16 t_big r_big x k x_at)
            ∙ x_at;
        in_use = k_used;
        size = refl;
        payload =
            off (x + 16) (k.size - 16) (grind (arith, side, s.big, sum, t_big))
              (grind (arith, side, s.big, sum, r_big));
      }

  halves-HeapInv : HeapInv halves lists (behind second rest_cell) h m3
  unfolding halves second rest_cell
  halves-HeapInv = record {
    laid = cut-Laid v h.segments laid b c at total remainder sum t16 t_big r_big;
    held = halves-Held;
    binned = halves-Binned;
  }

  halves-Beyond : Beyond h.segments m m3
  unfolding second
  halves-Beyond a out =
      let side = off_block v null h.segments b c a laid at out in
      off a 1 (grind (arith, side, sum, t_big)) (grind (arith, side, sum, r_big)) a (omega arith)
        (omega arith)

  -- The last write is that of `tell_next`.
  rest-written : write_rest b total remainder m ≡ tell_next second m3
  unfolding write_rest tell_next m3 m2 m1 second rest_cell rest halves
  rest-written =
      let size : size_at (b + total) m3 ≡ remainder =
        (halves-Held (b + total) rest_cell
          (cut-rest v h.segments laid b c at total remainder sum t16 t_big r_big)).size in
      ap
        (λ s. if is_last (b + total) m3 then m3 else set_prev_size (next_block (b + total) m3) s m3)
        (sym size)
