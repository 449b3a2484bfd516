-- ===== src/Segment/Bins/Insert.antt =====
-- `insertFree` itself: what it makes of the bin, of the other bins and of memory.
use m_alloc.Base.{
  ℕ, ◌+◌, ◌<◌, ◌≡◌, refl, sym, subst, arith, ◌==◌, if_intro, List, [], ◌∷◌, All, All-mono, get_or,
  get_or-set_self, get_or-set_ne, length, length-set, inl, ◌∙◌, false,
}
use m_alloc.Memory.{Ptr, Bytes, null}
use m_alloc.Memory.Laws.{Apart, SameOn, SameOn-trans, write_le-SameOn, load64-store64}
use m_alloc.Header.{word}
use m_alloc.Segment.Tag.{node_of, size_at, bin_index, set_flag}
use m_alloc.Segment.Bins.{
  SegmentHeap, insert_free, link_front, set_node_next, set_node_prev, node_next,
}
use m_alloc.Segment.Bins.Front.{Linked, Separate, Linked-spared, link_front-Linked, elsewhere}
use m_alloc.Segment.Bins.Unlink.{SameLinks}
use m_alloc.Segment.Bins.Unlink.Remove.{Relinked}

-- A range off the new node and off the old first one is spared.
pub link_front-off :
    (node old q j : ℕ) (m : Bytes) (bs : List Ptr)
    → Linked m null old bs
    → Apart q j node 16
    → All (λ x. Apart q j (node_of x) 16) bs
    → SameOn q j m (link_front node old m)
unfolding link_front
link_front-off node old q j m bs l here off =
    if_intro (SameOn q j m) (node_next node m1 == null) (λ _. fresh)
      (λ more.
        SameOn-trans q j m m1 _ fresh
          (write_le-SameOn j q 8 (node_next node m1) node m1 (second bs l off more)))
  where
    m0 : Bytes
    m0 = set_node_prev node null m

    m1 : Bytes
    m1 = set_node_next node old m0

    fresh : SameOn q j m m1
    fresh =
        SameOn-trans q j m m0 m1 (write_le-SameOn j q 8 node null m (ground (arith, here)))
          (write_le-SameOn j q 8 (node + 8) old m0 (ground (arith, here)))

    second :
        (xs : List Ptr)
        → Linked m null old xs
        → All (λ x. Apart q j (node_of x) 16) xs
        → (node_next node m1 == null) ≡ false
        → Apart q j (node_next node m1) 8
    second [] k away more = absurd (ground (arith, load64-store64 (node + 8) old m0, k, more))
    second (x ∷ xs) k away more =
        let at : node_next node m1 ≡ old = load64-store64 (node + 8) old m0 ∙ omega (arith, k.1) in
        ground (arith, at, k.0, away.0)

-- `insertFree` puts a block in front of the bin of its size: the bin links the block and then those
-- that it linked before, forwards and back, the other bins have their heads still, and memory is as it
-- was but for the block's own tag and links of the blocks that are now in the bin.
pub insert_free-Relinked :
    (b : Ptr) (h : SegmentHeap) (m : Bytes) (bs : List Ptr)
    → bin_index (size_at b m) < length h.bins
    → node_of b < word
    → Separate (b ∷ bs)
    → All (λ x. Apart b 8 (node_of x) 16) bs
    → Linked m null (get_or h.bins (bin_index (size_at b m)) null) bs
    → Relinked b 8
        (bin_index (size_at b m))
        (b ∷ bs)
        h
        (insert_free b h m).0
        m
        (insert_free b h m).1
unfolding insert_free set_flag
insert_free-Relinked b h m bs low fits apart tag l = record {
  linked =
      subst (λ n. Linked (insert_free b h m).1 null n (b ∷ bs))
        (sym (get_or-set_self h.bins index (node_of b) null low))
        (Linked-spared m1 (insert_free b h m).1 null (node_of b) (b ∷ bs)
          (
            untouched b (inl (omega arith)),
            All-mono (λ x. Apart b 8 (node_of x) 16) (SameLinks m1 (insert_free b h m).1) bs
                untouched tag,
          )
          (link_front-Linked b old m bs fits apart l));
  others = λ i ne. get_or-set_ne h.bins index i (node_of b) null ne;
  count = length-set h.bins index (node_of b);
  segments = refl;
  spared = λ q j own off.
      SameOn-trans q j m m1 _ (link_front-off (node_of b) old q j m bs l off.0 off.1)
        (write_le-SameOn j q 8 b _ m1 own);
}
  where
    index : ℕ
    index = bin_index (size_at b m)

    old : Ptr
    old = get_or h.bins index null

    m1 : Bytes
    m1 = link_front (node_of b) old m

    untouched : (x : Ptr) → Apart b 8 (node_of x) 16 → SameLinks m1 (insert_free b h m).1 x
    untouched x away = (
      elsewhere (node_of x) b _ m1 (ground arith),
      elsewhere (node_of x + 8) b _ m1 (ground arith),
    )
