-- ===== src/Segment/Heap/Allocate.antt =====
-- `SegmentHeap::allocate` on each of its branches.
use m_alloc.Base.{
  ℕ, ◌+◌, ◌*◌, ◌/◌, ◌%◌, ◌≤◌, ◌<◌, ◌≡◌, refl, arith, Bool, true, false, sym, subst, Option, some,
  none, List, Option-cases, max, ltb, if_intro, Bool-cases, ◌⊎◌, inl, inr,
}
use m_alloc.Memory.{Ptr, Bytes}
use m_alloc.Header.{word}
use m_alloc.Header.Align.{align_up_16}
use m_alloc.SystemMemory.{World, Os, Documented, sys_map}
use m_alloc.SystemMemory.Fresh.{sys_map_lem}
use m_alloc.Pool.Invariant.{Share}
use m_alloc.Segment.Tag.{segment_size, block_of}
use m_alloc.Segment.Bins.{SegmentHeap}
use m_alloc.Segment.Ops.{
  add_segment, segment_allocate, total_for, find_fit, retry, carve, segment_capacity,
}
use m_alloc.Segment.Heap.{View}
use m_alloc.Segment.Heap.Keeps.{Kept-trans, Kept-self}
use m_alloc.Segment.Heap.Search.{find_fit-free}
use m_alloc.Segment.Heap.Fuel.{find_fit_complete}
use m_alloc.Segment.Heap.Owned.{SegmentInv}
use m_alloc.Segment.Heap.Carve.{Carved, carve-Carved, segments}
use m_alloc.Segment.Heap.Grow.Adopt.{Unharmed, GrowResult, adopt-Unharmed}
use m_alloc.Segment.Heap.Beyond.{Beyond, Beyond-trans}

-- What a call gives: a block for a payload, or null with the invariant and every block in use.
abbrev pub AllocateResult :
    View → Share → SegmentHeap → World → ℕ → Option Ptr × SegmentHeap × World → Type 0
AllocateResult v others h w total (some p, h', w') = Carved v others w.bytes total p h' w'
AllocateResult v others h w total (none, h', w') = Unharmed v others w.bytes h' w'

pub total_for-16 :
    (bytes : ℕ) → bytes + 31 < word → total_for bytes ≡ max ((bytes + 15) / 16 * 16 + 16) 48
unfolding total_for
total_for-16 bytes fits = omega (arith, align_up_16 bytes (omega arith))

-- An allocation after a step that harms no block in use.
after :
    (v : View) (others : Share) (m : Bytes) (total : ℕ) (h1 : SegmentHeap) (w1 : World) (p : Ptr)
    (h' : SegmentHeap) (w' : World) (u : Unharmed v others m h1 w1)
    → h'.segments ≡ h1.segments
    → Carved u.view others w1.bytes total p h' w'
    → Carved v others m total p h' w'
after v others m total h1 w1 p h' w' u segs c = record {
  view = c.view;
  lists = c.lists;
  inv = c.inv;
  block = c.block;
  payload = c.payload;
  cell = c.cell;
  there = c.there;
  in_use = c.in_use;
  enough = c.enough;
  tight = c.tight;
  aligned = c.aligned;
  non_null = c.non_null;
  fresh = λ e at. elim (Bool-cases e.free) [
    | inl is_free ↦ is_free
    | inr used ↦
        let k = u.keeps c.block e at used in
        absurd (ground (arith, k.in_use, c.fresh k.cell k.there))
  ];
  beyond =
      Beyond-trans h'.segments m w1.bytes w'.bytes
        (subst (λ s. Beyond s m w1.bytes) (sym segs) u.beyond) c.beyond;
  keeps = λ x e at used.
      let k = u.keeps x e at used in
      Kept-trans u.view c.view m w1.bytes w'.bytes x e k (c.keeps x k.cell k.there k.in_use);
}

module _ (os : Os) (doc : Documented os) (v : View) (lists : ℕ → List Ptr) (others : Share)
    (h : SegmentHeap) (w : World) (inv : SegmentInv v lists others h w) where
  abbrev Result : ℕ → Option Ptr × SegmentHeap × World → Type 0
  Result total o = AllocateResult v others h w total o

  module _ (total : ℕ) (t16 : total % 16 ≡ 0) (t_big : 48 ≤ total) where
    carved : (b : Ptr) → find_fit total h w.bytes ≡ some b → Result total (carve total b h w)
    unfolding carve
    carved b e =
        let (c, at, is_free, enough) = find_fit-free v lists h w.bytes total b inv.heap e in
        carve-Carved v lists others h w inv b c at is_free total t16 t_big enough

    retried :
        (grew : Bool) (h1 : SegmentHeap) (w1 : World)
        → Unharmed v others w.bytes h1 w1
        → Result total (retry total (grew, h1, w1))
    unfolding retry carve
    retried false h1 w1 u = u
    retried true h1 w1 u = elim (Option-cases (find_fit total h1 w1.bytes)) [
      | inl e ↦ rw (e, retry) u
      | inr (b, e) ↦
          let (c, at, is_free, enough) =
            find_fit-free u.view u.lists h1 w1.bytes total b u.inv.heap e in
          rw (e, retry)
            (after v others w.bytes total h1 w1 _ _ _ u
              (segments u.view u.lists others h1 w1 u.inv b c at is_free total t16 t_big enough)
              (carve-Carved u.view u.lists others h1 w1 u.inv b c at is_free total t16 t_big
                enough))
    ]

    grown-Result : GrowResult os doc v lists others h w inv (add_segment os h w)
    unfolding add_segment
    grown-Result =
        adopt-Unharmed os doc v lists others h w inv (sys_map os segment_size w).0
          (sys_map os segment_size w).1
          (sys_map_lem os doc segment_size w (omega arith) (omega (arith, doc.page_small)))

    searched : Result total (elim (find_fit total h w.bytes) [
      | none ↦ retry total (add_segment os h w)
      | some b ↦ carve total b h w
    ])
    searched = elim (Option-cases (find_fit total h w.bytes)) [
      | inl e ↦ rw e (
          retried (add_segment os h w).0 (add_segment os h w).1 (add_segment os h w).2
            grown-Result.0)
      | inr (b, e) ↦ rw e (carved b e)
    ]

    -- The second search finds the new segment.
    retry-none :
        (grew : Bool) (h1 : SegmentHeap) (w1 : World)
        → GrowResult os doc v lists others h w inv (grew, h1, w1)
        → total ≤ segment_size
        → (retry total (grew, h1, w1)).0 ≡ none
        → grew ≡ false
    unfolding retry carve
    retry-none false h1 w1 (u, room) small e = refl
    retry-none true h1 w1 (u, room) small e = elim (Option-cases (find_fit total h1 w1.bytes)) [
      | inl missed ↦
          let (b, c, at, is_free, big) = room refl in
          absurd (
            omega (
              arith,
              find_fit_complete u.view u.lists h1 w1.bytes total u.inv.heap missed b c at is_free,
              big,
              small,
            ))
      | inr (b, hit) ↦ absurd (ground (arith, (rw (hit, retry) at e)))
    ]

  -- `allocate` of a size that does not wrap returns null only where the block would be larger than a
  -- segment, or where the system gave no new segment: a fresh segment always serves.
  pub segment_allocate-served :
      (bytes : ℕ)
      → bytes + 31 < word
      → (segment_allocate os bytes h w).0 ≡ none
      → (segment_size < total_for bytes) ⊎ ((add_segment os h w).0 ≡ false)
  unfolding segment_allocate carve
  segment_allocate-served bytes fits e =
      let total = total_for-16 bytes fits in
      elim (Bool-cases (ltb segment_size (total_for bytes))) [
        | inl large ↦ inl (ground (arith, large))
        | inr small ↦ elim (Option-cases (find_fit (total_for bytes) h w.bytes)) [
          | inl missed ↦ inr (
              retry-none (total_for bytes) (omega (arith, total)) (omega (arith, total))
                (add_segment os h w).0 (add_segment os h w).1 (add_segment os h w).2
                (grown-Result (total_for bytes) (omega (arith, total)) (omega (arith, total)))
                (ground (arith, small)) (rw (small, missed) at e))
          | inr (b, hit) ↦ absurd (ground (arith, (rw (small, hit) at e)))
        ]
      ]

  -- `allocate` of a size that does not wrap keeps the tier's invariant and every block in use, with
  -- its size and payload, on every branch, and writes no byte outside the segments, the new one
  -- included. A payload that it returns belongs to a block in use that was not in use before, is
  -- aligned, and has the rounded size for the request (`total_for`) or less than 48 bytes more.
  pub segment_allocate-AllocateResult :
      (bytes : ℕ)
      → bytes + 31 < word
      → AllocateResult v others h w (total_for bytes) (segment_allocate os bytes h w)
  unfolding segment_allocate
  segment_allocate-AllocateResult bytes fits =
      let total = total_for-16 bytes fits in
      if_intro (Result (total_for bytes)) (ltb segment_size (total_for bytes))
        (λ _. record {
          view = v;
          lists = lists;
          inv = inv;
          keeps = λ x e at used. Kept-self x e at used;
          beyond = λ _ _. refl;
        })
        (λ _. searched (total_for bytes) (omega (arith, total)) (omega (arith, total)))

  -- `payloadCapacity` of a payload that `allocate` returned for a size that does not wrap is at least
  -- that size, and the payload is aligned.
  pub segment_allocate-Usable :
      (bytes : ℕ) (p : Ptr)
      → bytes + 31 < word
      → (segment_allocate os bytes h w).0 ≡ some p
      → (bytes ≤ segment_capacity p (segment_allocate os bytes h w).2.bytes) × (p % 16 ≡ 0)
  unfolding segment_capacity
  segment_allocate-Usable bytes p fits e =
      let c : Carved v others w.bytes (total_for bytes) p (segment_allocate os bytes h w).1
          (segment_allocate os bytes h w).2 =
        subst
          (λ o.
            AllocateResult v others h w (total_for bytes)
              (o, (segment_allocate os bytes h w).1, (segment_allocate os bytes h w).2))
          e (segment_allocate-AllocateResult bytes fits) in
      let back : block_of p ≡ c.block = omega (arith, c.payload) in
      let tag = c.inv.heap.held c.block c.cell c.there in
      let shape = c.inv.heap.laid.shape c.block c.cell c.there in
      (
        rw (back, tag.size) (omega (arith, c.enough, total_for-16 bytes fits, shape.in_space)),
        omega (arith, c.payload, c.aligned),
      )
