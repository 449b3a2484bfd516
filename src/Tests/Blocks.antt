-- ===== src/Tests/Blocks.antt =====
-- The medium tier's invariant at concrete heaps: an empty one, and one with a single free segment.
use m_alloc.Base.{
  ap, ℕ, ◌%◌, get_or-set_ne, ◌≤◌, ◌<◌, ◌≡◌, ◌≢◌, ◌⊎◌, refl, arith, true, false, sym, ◌∙◌, subst,
  inl, inr, List, [], ◌∷◌, Option, some, none, ◌==◌, if◌then◌else◌, set, get_or, Bool-cases,
  replicate,
}
use m_alloc.Memory.{Ptr, Bytes, null, read_le, write_le}
use m_alloc.Header.{align_up}
use m_alloc.SystemMemory.{Os, Documented, Region, World, covered, sys_map, is_valid, round_to_pages}
use m_alloc.Segment.Tag.{
  size_at, is_free, is_first, is_last, tag_size, has_flag, set_size, set_flag, bin_index, bin_count,
  block_of, segment_size, digits_below,
}
use m_alloc.Segment.Bins.{SegmentHeap, empty_heap, insert_free, remove_free, fit_from}
use m_alloc.Segment.Bins.Front.{Linked}
use m_alloc.Segment.Ops.{
  segment_allocate, segment_deallocate, split_block, find_fit, total_for, add_segment,
  segment_capacity, total_size, adopt_segment,
}
use m_alloc.Segment.Heap.{
  Cell, View, Tagged, Shape, Home, HeapInv, Root, Next, Prev, in_bin, count, put,
}
use m_alloc.Segment.Heap.Coalesced.{Coalesced, Coalesced-fewer, used-NoMoreFree}
use m_alloc.Segment.Heap.Flip.{flip, put-cases, some-injective}
use m_alloc.Segment.Heap.Marks.{Marked}
use m_alloc.Segment.Heap.Marks.Ops.{insert_free-Marked, remove_free-Marked}
use m_alloc.Segment.Heap.Split.Divided.{Divided, split_block-Divided}
use m_alloc.Segment.Heap.Owned.{SegmentInv}
use m_alloc.Segment.Heap.Carve.{Carved}
use m_alloc.Segment.Heap.Fuel.{find_fit_complete}
use m_alloc.Segment.Heap.Allocate.{
  AllocateResult, segment_allocate-AllocateResult, segment_allocate-Usable, segment_allocate-served,
}
use m_alloc.Segment.Heap.Freed.{Freed}
use m_alloc.Segment.Heap.Deallocate.{segment_deallocate-Freed}
use m_alloc.Segment.Heap.Client.Safe.{get_or-replicate, empty_heap-SegmentInv}
use m_alloc.Tests.Kernel.{flat_os, flat_os-Documented, fresh_world}

-- One segment at 4096 that is one free block, the first of its bin.
abbrev region : Region
region = record { base = 4096; size = 4194304 }

abbrev one_cell : Cell
one_cell = record {
  size = 4194304;
  free = true;
  first = true;
  last = true;
  prev = 0;
  home = region;
}

abbrev one_view : View
one_view x = if x == 4096 then some one_cell else none

abbrev one_lists : ℕ → List Ptr
one_lists i = if i == 17 then 4096 ∷ [] else []

abbrev one_heap : SegmentHeap
one_heap = record { bins = set (replicate bin_count null) 17 4128; segments = region ∷ [] }

-- The tag 4194304 + 7.
abbrev one_bytes : Bytes
one_bytes q = if q == 4096 then 7 else if q == 4098 then 64 else 0

one_only : (x : Ptr) (c : Cell) → one_view x ≡ some c → (x ≡ 4096) × (one_cell ≡ c)
one_only x c at = elim (put-cases (λ _. none) 4096 x (some one_cell) c at) [
  | inl (e, same) ↦ (e, some-injective one_cell c same)
  | inr (_, bad) ↦ absurd (ground (arith, bad))
]

-- What holds of the one block holds of all.
one_all :
    (P : Ptr → Cell → Type 0) → P 4096 one_cell → (x : Ptr) (c : Cell) → one_view x ≡ some c → P x c
one_all P h x c at =
    let (e, same) = one_only x c at in subst (λ y. P y c) (sym e) (subst (P 4096) same h)

one_bin : bin_index 4194304 ≡ 17
unfolding bin_index digits_below
one_bin = refl

one_tag : Tagged one_bytes 4096 one_cell
unfolding size_at is_free is_first is_last tag_size has_flag read_le
one_tag = record {
  size = refl;
  free = refl;
  first = refl;
  last = refl;
  prev = refl;
  fits = omega arith;
}

one-Linked_here : Linked one_bytes null 4128 (4096 ∷ [])
unfolding read_le
one-Linked_here = (refl, omega arith, refl, refl)

one-Linked : (i : ℕ) → Linked one_bytes null (get_or one_heap.bins i null) (one_lists i)
one-Linked i = elim (Bool-cases (i == 17)) [
  | inl eq ↦
      let at : 17 ≡ i = ground arith in
      subst (λ j. Linked one_bytes null (get_or one_heap.bins j null) (one_lists j)) at
        one-Linked_here
  | inr eq ↦
      let head : get_or one_heap.bins i null ≡ null =
        get_or-set_ne (replicate bin_count null) 17 i 4128 null (ground arith)
        ∙ get_or-replicate 18 i in
      rw (eq, head) refl
]

one_once : (i : ℕ) (x : Ptr) → count x (one_lists i) ≡ in_bin i (one_view x)
one_once i x = elim (Bool-cases (x == 4096)) [
  | inl eq ↦ elim (Bool-cases (i == 17)) [
    | inl at ↦
        let back : (17 == i) ≡ true = ground arith in
        rw (eq, at, one_bin, back) (ground (arith, eq))
    | inr off ↦ let back : (17 == i) ≡ false = ground arith in rw (eq, off, one_bin, back) refl
  ]
  | inr eq ↦ elim (Bool-cases (i == 17)) [
    | inl at ↦ rw (eq, at) (ground (arith, eq))
    | inr off ↦ rw (eq, off) refl
  ]
]

one_inv : HeapInv one_view one_lists null one_heap one_bytes
one_inv = record {
  laid = record {
    shape = one_all Shape (record {
      big = omega arith;
      whole = refl;
      aligned = refl;
      non_null = omega arith;
      in_space = omega arith;
    });
    apart = λ b d c e b_at d_at lt.
        absurd (omega (arith, (one_only b c b_at).0, (one_only d e d_at).0));
    next =
        one_all (λ x c. c.last ≡ false → Next one_view null x c)
          (λ bad. absurd (ground (arith, bad)));
    prev =
        one_all (λ x c. c.first ≡ false → x ≢ null → Prev one_view x c)
          (λ bad. absurd (ground (arith, bad)));
    home = one_all (Home (region ∷ [])) (record {
      among = inl refl;
      from = omega arith;
      to = omega arith;
      starts = λ _. refl;
      ends = λ _. refl;
    });
    rooted = λ s l. elim l [
      | inl e ↦
          subst (Root one_view) (sym e) (record { cell = one_cell; there = refl; home = refl })
      | inr bad ↦ absurd bad
    ];
  };
  held = one_all (Tagged one_bytes) one_tag;
  binned = record { all = refl; linked = one-Linked; once = one_once };
}

remove_free-Marked_example :
    Marked false one_view null one_heap one_bytes 4096 one_cell
      (remove_free 4096 one_heap one_bytes).0
      (remove_free 4096 one_heap one_bytes).1
remove_free-Marked_example =
    remove_free-Marked one_view one_lists null one_heap one_bytes one_inv 4096 one_cell refl refl

-- The segment's block out of its bin.
abbrev used_view : View
used_view = put one_view 4096 (some (flip false one_cell))

abbrev used_heap : SegmentHeap
used_heap = (remove_free 4096 one_heap one_bytes).0

abbrev used_bytes : Bytes
used_bytes = (remove_free 4096 one_heap one_bytes).1

taken : Marked false one_view null one_heap one_bytes 4096 one_cell used_heap used_bytes
taken =
    remove_free-Marked one_view one_lists null one_heap one_bytes one_inv 4096 one_cell refl refl

used_Coalesced : Coalesced used_view
used_Coalesced =
    Coalesced-fewer one_view used_view (used-NoMoreFree one_view 4096 one_cell)
      (λ b d c e b_at d_at more meets _ _.
        ground (arith, more, ap (λ (k : Cell). k.last) (one_only b c b_at).1))

insert_free-Marked_example :
    Marked true used_view null used_heap used_bytes 4096
      (flip false one_cell)
      (insert_free 4096 used_heap used_bytes).0
      (insert_free 4096 used_heap used_bytes).1
unfolding flip
insert_free-Marked_example =
    insert_free-Marked used_view taken.lists null used_heap used_bytes taken.inv 4096
      (flip false one_cell) refl refl

split_block-Divided_example :
    Divided used_view used_heap used_bytes 4096 5040
      (split_block 4096 5040 used_heap used_bytes).0
      (split_block 4096 5040 used_heap used_bytes).1
unfolding flip
split_block-Divided_example =
    split_block-Divided used_view taken.lists used_heap used_bytes taken.inv 4096
      (flip false one_cell) refl refl 5040 refl (omega arith) (omega arith) used_Coalesced
      (λ e bad _ _. absurd (ground (arith, bad)))

none_fits : find_fit 8388608 one_heap one_bytes ≡ none
unfolding find_fit fit_from bin_index digits_below size_at tag_size read_le total_size
none_fits = refl

find_fit_complete_example : 4194304 < 8388608
find_fit_complete_example =
    find_fit_complete one_view one_lists one_heap one_bytes 8388608 one_inv none_fits 4096 one_cell
      refl refl

-- The tier with no segment.
abbrev no_view : View
no_view _ = none

no_inv : SegmentInv no_view (λ _. []) (λ _. 0) empty_heap fresh_world
unfolding covered
no_inv = empty_heap-SegmentInv (λ _. 0) fresh_world tt (λ a. omega arith) (λ a. omega arith)

abbrev first_result : Option Ptr × SegmentHeap × World
first_result = segment_allocate flat_os 5016 empty_heap fresh_world

first_null : first_result.0 ≡ some 4112
unfolding segment_allocate align_up fit_from bin_index total_size add_segment adopt_segment is_valid
    sys_map round_to_pages insert_free size_at read_le write_le set_flag set_size
first_null = refl

segment_allocate-AllocateResult_example :
    AllocateResult no_view (λ _. 0) empty_heap fresh_world (total_for 5016) first_result
segment_allocate-AllocateResult_example =
    segment_allocate-AllocateResult flat_os flat_os-Documented no_view (λ _. []) (λ _. 0) empty_heap
      fresh_world no_inv 5016 (omega arith)

segment_allocate-Usable_example :
    (5016 ≤ segment_capacity 4112 first_result.2.bytes) × (4112 % 16 ≡ 0)
segment_allocate-Usable_example =
    segment_allocate-Usable flat_os flat_os-Documented no_view (λ _. []) (λ _. 0) empty_heap
      fresh_world no_inv 5016 4112 (omega arith) first_null

-- A system that has no memory to give.
abbrev bare_os : Os
bare_os = record { page_size = 4096; mmap = λ _ _ _. none }

bare_os-Documented : Documented bare_os
bare_os-Documented = record {
  page_small = omega arith;
  page_16 = refl;
  page_pos = omega arith;
  at_page = λ n live len p bad. absurd (ground (arith, bad));
  non_null = λ n live len p bad. absurd (ground (arith, bad));
  in_space = λ n live len p bad. absurd (ground (arith, bad));
  apart = λ n live len p bad. absurd (ground (arith, bad));
}

refused : (segment_allocate bare_os 5016 empty_heap fresh_world).0 ≡ none
unfolding segment_allocate align_up fit_from bin_index total_size add_segment adopt_segment is_valid
    sys_map round_to_pages insert_free size_at read_le write_le set_flag set_size
refused = refl

segment_allocate-served_example :
    (segment_size < total_for 5016) ⊎ ((add_segment bare_os empty_heap fresh_world).0 ≡ false)
segment_allocate-served_example =
    segment_allocate-served bare_os bare_os-Documented no_view (λ _. []) (λ _. 0) empty_heap
      fresh_world no_inv 5016 (omega arith) refused

-- The first block allocated, for the caller to free.
first_block : Carved no_view (λ _. 0) (λ _. 0) (total_for 5016) 4112 first_result.1 first_result.2
first_block =
    subst
      (λ o.
        AllocateResult no_view (λ _. 0) empty_heap fresh_world (total_for 5016)
          (o, first_result.1, first_result.2))
      first_null
      (segment_allocate-AllocateResult flat_os flat_os-Documented no_view (λ _. []) (λ _. 0)
        empty_heap fresh_world no_inv 5016 (omega arith))

first_there : first_block.view (block_of 4112) ≡ some first_block.cell
first_there =
    let back : first_block.block ≡ block_of 4112 = omega (arith, first_block.payload) in
    subst (λ y. first_block.view y ≡ some first_block.cell) back first_block.there

segment_deallocate-Freed_example :
    Freed first_block.view
      (λ _. 0)
      first_result.1
      first_result.2
      (block_of 4112)
      (segment_deallocate 4112 first_result.1 first_result.2).0
      (segment_deallocate 4112 first_result.1 first_result.2).1
segment_deallocate-Freed_example =
    segment_deallocate-Freed first_block.view first_block.lists (λ _. 0) first_result.1
      first_result.2 first_block.inv 4112 first_block.cell first_there first_block.in_use
