-- ===== src/Segment/Heap/Marks.antt =====
-- A block changes its mark and one bin is linked anew: the invariant of src/SegmentHeap.cpp holds again.
pub mod Ops
use m_alloc.Base.{
  ℕ, ◌+◌, ◌-◌, ◌%◌, ◌≤◌, ◌<◌, ◌≡◌, ◌≢◌, refl, arith, Bool, true, false, sym, ap, ◌∙◌, inl, inr,
  subst, Option, some, none, ◌⊎◌, List, [], ◌∷◌, ◌++◌, ◌==◌, Bool-cases, if◌then◌else◌, All,
  All-mono, get_or, length, min, ltb,
}
use m_alloc.Memory.{Ptr, Bytes, null}
use m_alloc.Memory.Laws.{Apart, SameOn}
use m_alloc.Header.{word}
use m_alloc.SystemMemory.{Region}
use m_alloc.Segment.Tag.{node_of, size_at, bin_index, bin_count, free_flag, set_flag}
use m_alloc.Segment.Bins.{SegmentHeap, insert_free, remove_free, link_front}
use m_alloc.Segment.Bins.Front.{Linked, Separate, Linked-spared}
use m_alloc.Segment.Bins.Unlink.{SameLinks}
use m_alloc.Segment.Bins.Unlink.Remove.{Relinked, unlinked, unlinked-Relinked, remove_free-Relinked}
use m_alloc.Segment.Bins.Insert.{insert_free-Relinked, link_front-off}
use m_alloc.Segment.Heap.{Cell, View, Laid, Tagged, Held, Binned, HeapInv, put, count, in_bin}
use m_alloc.Segment.Heap.Tags.{Tagged-same, set_free-Tagged, header-apart}
use m_alloc.Segment.Heap.Members.{
  count-append, count-split, All-counted, in_bin-positive, SameLinks-range, member, bin-Separate,
}
use m_alloc.Segment.Heap.Flip.{flip, flip-Laid, put-cases, put-here, put-away, some-injective}

-- Memory is the same but for the block itself, up to its links, and the links of free blocks.
abbrev pub Frame : View → Ptr → Bytes → Bytes → Type 0
Frame v b m m' =
    (q j : ℕ)
    → Apart q j b 48
    → ((x : Ptr) (c : Cell) → v x ≡ some c → c.free ≡ true → Apart q j (node_of x) 16)
    → SameOn q j m m'

-- The invariant with a block marked, and what the rest of the state keeps.
pub record Marked (f : Bool) (v : View) (loose : Ptr) (h : SegmentHeap) (m : Bytes) (b : Ptr)
    (c : Cell) (h' : SegmentHeap) (m' : Bytes) : Type 0 where
  pub lists : ℕ → List Ptr
  pub inv : HeapInv (put v b (some (flip f c))) lists loose h' m'
  pub segments : h'.segments ≡ h.segments
  pub frame : Frame v b m m'

pub bin_index_low : (s : ℕ) → bin_index s < bin_count
unfolding bin_index
bin_index_low s = omega arith

module _ (f : Bool) (v : View) (lists : ℕ → List Ptr) (loose : Ptr) (h : SegmentHeap) (m : Bytes)
    (inv : HeapInv v lists loose h m) (b : Ptr) (c : Cell) (at : v b ≡ some c) where
  open inv use {laid, held, binned}

  index : ℕ
  index = bin_index c.size

  after : View
  after = put v b (some (flip f c))

  -- A free block of the changed view is the block itself or was free before.
  from_after : (y : Ptr) (d : Cell) → after y ≡ some d → (y ≡ b) ⊎ (v y ≡ some d)
  unfolding after
  from_after y d there = elim (put-cases v b y (some (flip f c)) d there) [
    | inl (e, _) ↦ inl e
    | inr (_, was) ↦ inr was
  ]

  other-bin : (i : ℕ) (x : Ptr) → index ≢ i → in_bin i (after x) ≡ in_bin i (v x)
  unfolding after index flip
  other-bin i x ne = elim (Bool-cases (x == b)) [
    | inr e ↦ ap (in_bin i) (put-away v b x (some (flip f c)) (ground arith))
    | inl e ↦
        let same : x ≡ b = ground arith in
        let now : put v b (some (flip f c)) x ≡ some (flip f c) =
          subst (λ y. put v b (some (flip f c)) y ≡ some (flip f c)) (sym same)
            (put-here v b (some (flip f c))) in
        let was : v x ≡ some c = subst (λ y. v y ≡ some c) (sym same) at in
        ap (in_bin i) now ∙ (no_bin (flip f c) refl) ∙ sym (ap (in_bin i) was ∙ no_bin c refl)
  ]
    where
      no_bin : (d : Cell) → d.size ≡ c.size → in_bin i (some d) ≡ 0
      no_bin d e =
          let differs : (bin_index d.size == i) ≡ false = rw e (ground (arith, ne)) in
          ground (arith, differs)

  module _ (list : List Ptr) (h' : SegmentHeap) (m' : Bytes)
      (relinked : Relinked b 8 index list h h' m m') (tagged : Tagged m' b (flip f c))
      (once : (x : Ptr) → count x list ≡ in_bin index (after x)) where
    -- Each block in the changed bin is the block itself or was free before.
    in_list :
        (y : Ptr)
        → 0 < count y list
        → (y ≡ b) ⊎ ((d : Cell) × (v y ≡ some d) × (d.free ≡ true) × (bin_index d.size ≡ index))
    in_list y more =
        let (d, there, is_free, size) = in_bin-positive index (after y) (omega (arith, once y)) in
        elim (from_after y d there) [ inl e ↦ inl e | inr was ↦ inr (d, was, is_free, size) ]

    marked-Frame : Frame v b m m'
    marked-Frame q j away off = relinked.spared q j (ground (arith, away)) (
        All-counted (λ x. Apart q j (node_of x) 16) list
          (λ y more. elim (in_list y more) [
            | inl e ↦ ground (arith, e, away)
            | inr (d, was, is_free, _) ↦ off y d was is_free
          ]))

    marked-Held : Held after m'
    unfolding after
    marked-Held x d there = elim (put-cases v b x (some (flip f c)) d there) [
      | inl (e, same) ↦
          subst (λ y. Tagged m' y d) (sym e)
            (subst (Tagged m' b) (some-injective (flip f c) d same) tagged)
      | inr (ne, was) ↦
          let from_b = header-apart v loose h.segments laid x b d c was at ne in
          Tagged-same m m' x d
            (relinked.spared x 16 (ground (arith, from_b)) (
              All-counted (λ y. Apart x 16 (node_of y) 16) list
                (λ y more. elim (in_list y more) [
                  | inl e ↦ ground (arith, e, from_b)
                  | inr (e, y_at, _, _) ↦ elim (Bool-cases (x == y)) [
                    | inl same ↦ ground arith
                    | inr differ ↦
                        let far =
                          header-apart v loose h.segments laid x y d e was y_at (ground arith) in
                        ground (arith, far)
                  ]
                ])))
            (held x d was)
    ]

    marked_lists : ℕ → List Ptr
    marked_lists i = if i == index then list else lists i

    -- The links of the other bins' blocks are as they were.
    others-spared : (i : ℕ) (x : Ptr) → index ≢ i → 0 < count x (lists i) → SameLinks m m' x
    unfolding index
    others-spared i x ne more =
        let (d, x_at, x_free, x_size) =
          member v loose h.segments laid i (lists i) (binned.once i) x more in
        let not_b : x ≢ b = λ e. ne (
          ap (λ (k : Cell). bin_index k.size)
            (some-injective c d (sym at ∙ subst (λ y. v y ≡ some d) e x_at))
          ∙ x_size) in
        let from_b = header-apart v loose h.segments laid x b d c x_at at not_b in
        SameLinks-range m m' x (
          relinked.spared (node_of x) 16 (ground (arith, from_b)) (
            All-counted (λ y. Apart (node_of x) 16 (node_of y) 16) list
              (λ y y_more. elim (in_list y y_more) [
                | inl e ↦ ground (arith, e, from_b)
                | inr (e, y_at, _, y_size) ↦
                    let differ : x ≢ y = λ same. ne (
                      sym y_size
                      ∙ ap (λ (k : Cell). bin_index k.size)
                          (some-injective e d (sym y_at ∙ subst (λ z. v z ≡ some d) same x_at))
                      ∙ x_size) in
                    ground (arith, header-apart v loose h.segments laid x y d e x_at y_at differ)
              ])))

    marked-Binned : Binned after marked_lists h'.bins m'
    unfolding marked_lists
    marked-Binned = record {
      all = relinked.count ∙ binned.all;
      linked = λ i. elim (Bool-cases (i == index)) [
        | inl e ↦
            let same : i ≡ index = ground arith in
            rw e
              (subst (λ k. Linked m' null (get_or h'.bins k null) list) (sym same) relinked.linked)
        | inr e ↦
            let ne : index ≢ i = ground arith in
            rw e (
              subst (λ n. Linked m' null n (lists i)) (sym (relinked.others i ne))
                (Linked-spared m m' null (get_or h.bins i null) (lists i)
                  (All-counted (SameLinks m m') (lists i) (λ x more. others-spared i x ne more))
                  (binned.linked i)))
      ];
      once = λ i x. elim (Bool-cases (i == index)) [
        | inl e ↦
            let same : i ≡ index = ground arith in
            rw e (once x ∙ ap (λ k. in_bin k (after x)) (sym same))
        | inr e ↦ rw e (binned.once i x ∙ sym (other-bin i x (ground arith)))
      ];
    }

    relinked-Marked : Marked f v loose h m b c h' m'
    unfolding after
    relinked-Marked = record {
      lists = marked_lists;
      inv = record {
        laid =
            subst (Laid (put v b (some (flip f c))) loose) (sym relinked.segments)
              (flip-Laid v b c f loose h.segments at laid);
        held = marked-Held;
        binned = marked-Binned;
      };
      segments = relinked.segments;
      frame = marked-Frame;
    }

  tag : Tagged m b c
  tag = held b c at

  same_bin : bin_index (size_at b m) ≡ index
  unfolding index
  same_bin = ap bin_index tag.size

  at-in_bin : (d : Cell) → d.size ≡ c.size → in_bin index (some d) ≡ (if d.free then 1 else 0)
  unfolding index
  at-in_bin d e =
      let same : (bin_index d.size == bin_index c.size) ≡ true = rw e (ground arith) in
      ground (arith, same)

  list_once :
      (l : List Ptr)
      → count b l ≡ (if f then 1 else 0)
      → ((x : Ptr) → x ≢ b → count x l ≡ count x (lists index))
      → (x : Ptr) → count x l ≡ in_bin index (after x)
  unfolding after flip
  list_once l own same x = elim (Bool-cases (x == b)) [
    | inl e ↦
        subst (λ y. count y l ≡ in_bin index (put v b (some (flip f c)) y))
          (let here : b ≡ x = ground arith in here)
          (own
            ∙ sym (ap (in_bin index) (put-here v b (some (flip f c))) ∙ at-in_bin (flip f c) refl))
    | inr e ↦
        let ne : x ≢ b = ground arith in
        same x ne ∙ binned.once index x ∙ ap (in_bin index) (sym (put-away v b x _ ne))
  ]

  -- How often the bin had the block.
  own_count : count b (lists index) ≡ (if c.free then 1 else 0)
  own_count = binned.once index b ∙ ap (in_bin index) at ∙ at-in_bin c refl

  -- The links of the bin's blocks are away from the block's header, and from all of a block in use.
  near : (x : Ptr) → 0 < count x (lists index) → Apart b 16 (node_of x) 16
  near x more =
      let (d, x_at, _, _) =
        member v loose h.segments laid index (lists index) (binned.once index) x more in
      elim (Bool-cases (b == x)) [
        | inl e ↦ ground arith
        | inr e ↦
            ground (arith, header-apart v loose h.segments laid b x c d at x_at (ground arith))
      ]

  far : c.free ≡ false → (x : Ptr) → 0 < count x (lists index) → Apart (node_of x) 16 (node_of b) 16
  far in_use x more =
      let (d, x_at, is_free, _) =
        member v loose h.segments laid index (lists index) (binned.once index) x more in
      let ne : x ≢ b = λ e. ground (
        arith,
        in_use,
        is_free,
        ap (λ (k : Cell). k.free) (some-injective c d (sym at ∙ subst (λ y. v y ≡ some d) e x_at)),
      ) in
      ground (arith, header-apart v loose h.segments laid x b d c x_at at ne)

  room : node_of b < word
  room = let s = laid.shape b c at in omega (arith, s.big, s.in_space)

  low : bin_index (size_at b m) < length h.bins
  low = omega (arith, bin_index_low (size_at b m), binned.all)

  -- The bin's links, under the number that the code computes.
  bin_links : Linked m null (get_or h.bins (bin_index (size_at b m)) null) (lists index)
  bin_links =
      subst (λ i. Linked m null (get_or h.bins i null) (lists index)) (sym same_bin)
        (binned.linked index)
