-- ===== src/Segment/Bins/Unlink/Remove.antt =====
-- `removeFree` itself: what it makes of the bin, of the other bins and of memory.
use m_alloc.Base.{
  ℕ, ◌+◌, ◌<◌, ◌≡◌, refl, sym, subst, arith, ◌==◌, if_intro, List, [], ◌∷◌, ◌++◌, All, All-mono,
  get_or, get_or-set_self, get_or-set_ne, length, length-set, ◌⊎◌, ap, inl, inr, ◌∙◌, true, false,
  ◌≢◌,
}
use mathlib.Core.List.{append_assoc}
use m_alloc.Memory.{Ptr, Bytes, null}
use m_alloc.Memory.Laws.{SameOn, SameOn-trans, write_le-SameOn, Apart}
use m_alloc.Segment.Tag.{set_flag, node_of, size_at, bin_index}
use m_alloc.Segment.Bins.{
  SegmentHeap, node_prev, node_next, set_node_next, unlink_left, unlink_right, remove_free,
}
use m_alloc.Segment.Bins.Unlink.{
  Segment, SameLinks, Linked-split, retarget, retarget-Linked, whole-Linked, b_links, b_links_at,
  next, m1, right, spared,
}
use m_alloc.Segment.Bins.Front.{Linked, Separate, Linked-spared, elsewhere}

retarget-SameOn :
    (next back q j : ℕ) (m : Bytes) → Apart q j next 8 → SameOn q j m (retarget next back m)
unfolding retarget
retarget-SameOn next back q j m h =
    if_intro (SameOn q j m) (next == null) (λ _ _ _ _. refl)
      (λ _. write_le-SameOn j q 8 next back m h)

-- The first of the later blocks is told of the left neighbour; a range off the blocks is spared.
retarget-off :
    (back q j : ℕ) (m m' : Bytes) (prev next : Ptr) (ys : List Ptr)
    → Linked m' prev next ys
    → All (λ x. Apart q j (node_of x) 16) ys
    → SameOn q j m (retarget next back m)
unfolding retarget
retarget-off back q j m m' prev next [] l off =
    let end : (next == null) ≡ true = ground arith in rw end (λ _ _ _. refl)
retarget-off back q j m m' prev next (y ∷ ys) l off =
    retarget-SameOn next back q j m (ground (arith, l.0, off.0))

All-drop {ℓ κ} : {A : Type ℓ} (P : A → Type κ) (xs ys : List A) → All P (xs ++ ys) → All P ys
All-drop P [] ys h = h
All-drop P (x ∷ xs) ys h = All-drop P xs ys h.1

-- A list is empty or has a last entry.
List-end {ℓ} :
    {A : Type ℓ} (xs : List A) → (xs ≡ []) ⊎ ((zs : List A) × (a : A) × (xs ≡ zs ++ a ∷ []))
List-end [] = inl refl
List-end (x ∷ xs) = elim (List-end xs) [
  | inl e ↦ inr ([], x, ap (λ ys. x ∷ ys) e)
  | inr (zs, a, e) ↦ inr (x ∷ zs, a, ap (λ ys. x ∷ ys) e)
]

-- What changing one bin does: it links the blocks of the list, every other bin
-- has its head still, and memory away from those links and from the tag (`own` bytes) of the block at hand is as it was.
pub record Relinked (b own index : ℕ) (list : List Ptr) (h h' : SegmentHeap) (m m' : Bytes)
    : Type 0 where
  pub linked : Linked m' null (get_or h'.bins index null) list
  pub others : (i : ℕ) → index ≢ i → get_or h'.bins i null ≡ get_or h.bins i null
  pub count : length h'.bins ≡ length h.bins
  pub segments : h'.segments ≡ h.segments
  pub spared :
      (q j : ℕ) → Apart q j b own → All (λ x. Apart q j (node_of x) 16) list → SameOn q j m m'

module _ (b : Ptr) (h : SegmentHeap) (m : Bytes) where
  abbrev pub unlinked : SegmentHeap × Bytes
  unlinked = let (h1, m1) = unlink_left b h m in (h1, unlink_right (node_of b) m1)

  abbrev pub Removal : ℕ → ℕ → List Ptr → SegmentHeap × Bytes → Type 0
  Removal own index left (h', m') = Relinked b own index left h h' m m'

  -- The block is the head of its bin.
  head-Relinked :
      (ys : List Ptr)
      → bin_index (size_at b m) < length h.bins
      → Separate (b ∷ ys)
      → Linked m null (get_or h.bins (bin_index (size_at b m)) null) (b ∷ ys)
      → Removal 0 (bin_index (size_at b m)) ys unlinked
  unfolding unlink_left unlink_right retarget
  head-Relinked ys low apart l =
      let at : get_or h.bins (bin_index (size_at b m)) null ≡ node_of b = l.0 in
      let l' = subst (λ n. Linked m null n (b ∷ ys)) at l in
      let none_before : (node_prev (node_of b) m == null) ≡ true = ground (arith, l'.2) in
      rw (none_before, l'.2)
        (record {
          linked =
              subst (λ n. Linked (retarget (node_next (node_of b) m) null m) null n ys)
                (sym (
                  get_or-set_self h.bins (bin_index (size_at b m)) (node_next (node_of b) m) null
                    low))
                (retarget-Linked m (node_of b) null (node_next (node_of b) m) ys (omega arith)
                  apart.1 l'.3);
          others = λ i ne. get_or-set_ne h.bins (bin_index (size_at b m)) i _ null ne;
          count = length-set h.bins (bin_index (size_at b m)) (node_next (node_of b) m);
          segments = refl;
          spared = λ q j tag off.
              retarget-off null q j m m (node_of b) (node_next (node_of b) m) ys l'.3 off;
        })

  -- The block comes after another.
  later-Relinked :
      (zs : List Ptr) (a : Ptr) (ys : List Ptr) (index : ℕ)
      → Separate (zs ++ a ∷ b ∷ ys)
      → Linked m null (get_or h.bins index null) (zs ++ a ∷ b ∷ ys)
      → Removal 0 index (zs ++ a ∷ ys) unlinked
  unfolding unlink_left unlink_right retarget m1 next
  later-Relinked zs a ys index apart l =
      let (p, n, s, r) = Linked-split m null (get_or h.bins index null) zs (a ∷ b ∷ ys) l in
      let r' = subst (λ n. Linked m p n (a ∷ b ∷ ys)) r.0 r in
      let s' = subst (λ n. Segment m null (get_or h.bins index null) zs p n) r.0 s in
      let linked = whole-Linked a b m zs ys apart p r' null (get_or h.bins index null) s' in
      let back : node_prev (node_of b) m ≡ node_of a = (b_links a b m zs ys apart p r').2 in
      let one_before : (node_prev (node_of b) m == null) ≡ false = ground (arith, back) in
      let own = spared a b m zs ys apart p r' b (right a b m zs ys apart p r').0.0 in
      let b_prev = own.0 ∙ back in
      rw (one_before, back, own.1, b_prev)
        (record {
          linked = linked;
          others = λ i ne. refl;
          count = refl;
          segments = refl;
          spared = λ q j tag off.
              let at_a = (All-drop (λ x. Apart q j (node_of x) 16) zs (a ∷ ys) off).0 in
              SameOn-trans q j m m1' _
                (write_le-SameOn j q 8 (node_of a + 8) (node_next (node_of b) m) m
                  (ground (arith, at_a)))
                (retarget-off (node_of a) q j m1' m (node_of b) (node_next (node_of b) m) ys
                  (b_links_at a b m zs ys apart p r')
                  (All-drop (λ x. Apart q j (node_of x) 16) zs (a ∷ ys) off).1);
        })
    where
      m1' : Bytes
      m1' = set_node_next (node_of a) (node_next (node_of b) m) m

  pub unlinked-Relinked :
      (xs ys : List Ptr)
      → bin_index (size_at b m) < length h.bins
      → Separate (xs ++ b ∷ ys)
      → Linked m null (get_or h.bins (bin_index (size_at b m)) null) (xs ++ b ∷ ys)
      → Removal 0 (bin_index (size_at b m)) (xs ++ ys) unlinked
  unlinked-Relinked xs ys low apart l = elim (List-end xs) [
    | inl e ↦
        subst (λ zs. Removal 0 (bin_index (size_at b m)) (zs ++ ys) unlinked) (sym e)
          (head-Relinked ys low (subst (λ zs. Separate (zs ++ b ∷ ys)) e apart) (
            subst
              (λ zs. Linked m null (get_or h.bins (bin_index (size_at b m)) null) (zs ++ b ∷ ys)) e
              l))
    | inr (zs, a, e) ↦
        let regroup = λ (ws : List Ptr). ap (λ vs. vs ++ ws) e ∙ append_assoc zs (a ∷ []) ws in
        subst (λ vs. Removal 0 (bin_index (size_at b m)) vs unlinked) (sym (regroup ys))
          (later-Relinked zs a ys (bin_index (size_at b m))
            (subst Separate (regroup (b ∷ ys)) apart)
            (subst (Linked m null (get_or h.bins (bin_index (size_at b m)) null)) (regroup (b ∷ ys))
              l))
  ]

  -- `removeFree` takes a block out of its bin, wherever it stands there: the bin links exactly the
  -- others in the same order, forwards and back, the other bins have their heads still, and memory
  -- is as it was but for the block's own tag and links of the blocks that stay in the bin.
  pub remove_free-Relinked :
      (xs ys : List Ptr)
      → bin_index (size_at b m) < length h.bins
      → Separate (xs ++ b ∷ ys)
      → All (λ x. Apart b 8 (node_of x) 16) (xs ++ ys)
      → Linked m null (get_or h.bins (bin_index (size_at b m)) null) (xs ++ b ∷ ys)
      → Removal 8 (bin_index (size_at b m)) (xs ++ ys) (remove_free b h m)
  unfolding remove_free set_flag
  remove_free-Relinked xs ys low apart tag l =
      let u = unlinked-Relinked xs ys low apart l in
      record {
        linked =
            Linked-spared unlinked.1 (remove_free b h m).1 null
              (get_or unlinked.0.bins (bin_index (size_at b m)) null) (xs ++ ys)
              (All-mono (λ x. Apart b 8 (node_of x) 16) _ (xs ++ ys) untouched tag) u.linked;
        others = u.others;
        count = u.count;
        segments = u.segments;
        spared = λ q j off all.
            SameOn-trans q j m unlinked.1 _ (u.spared q j (ground (arith, off)) all)
              (write_le-SameOn j q 8 b _ unlinked.1 off);
      }
    where
      untouched :
          (x : Ptr) → Apart b 8 (node_of x) 16 → SameLinks unlinked.1 (remove_free b h m).1 x
      untouched x away = (
        elsewhere (node_of x) b _ unlinked.1 (ground arith),
        elsewhere (node_of x + 8) b _ unlinked.1 (ground arith),
      )
