-- ===== src/Tests/Medium.antt =====
-- Runs of the medium tier on a fresh heap.
use m_alloc.Base.{◌+◌, ◌≡◌, refl, Option, some, [], ◌∷◌, List}
use m_alloc.Memory.{Ptr, read_le, write_le}
use m_alloc.Header.{align_up}
use m_alloc.SystemMemory.{World, sys_map, is_valid, round_to_pages}
use m_alloc.Segment.Tag.{size_at, set_size, set_flag, bin_index}
use m_alloc.Segment.Bins.{SegmentHeap, empty_heap, insert_free, fit_from}
use m_alloc.Segment.Ops.{segment_allocate, total_size, add_segment, adopt_segment}
use m_alloc.Base.{◌==◌, if◌then◌else◌, arith, max}
use m_alloc.Memory.{Bytes}
use m_alloc.Segment.Tag.{tag_size}
use m_alloc.Segment.Bins.Walk.{
  Bins, first_fit, all_blocks, fit_from-first, bytes_of, largest_of, heap_usage-sums,
}
use m_alloc.Segment.Ops.{heap_usage}
use m_alloc.Tests.Kernel.{flat_os, fresh_world}

abbrev Heap : Type 0
Heap = Option Ptr × SegmentHeap × World

abbrev first_heap : Heap
first_heap = segment_allocate flat_os 5016 empty_heap fresh_world

-- The first block starts the segment.
first_payload : first_heap.0 ≡ some 4112
unfolding segment_allocate align_up fit_from bin_index total_size add_segment adopt_segment is_valid
    sys_map round_to_pages insert_free size_at read_le write_le set_flag set_size
first_payload = refl

-- A block of the whole segment at 4096, its first and its last.
abbrev segment_bytes : Bytes
segment_bytes q = if q == 4096 then 6 else if q == 4098 then 64 else 0

-- Two bins, the second with that block.
abbrev heads : List Ptr
heads = 0 ∷ 4128 ∷ []

abbrev blocks : List (List Ptr)
blocks = [] ∷ (4096 ∷ []) ∷ []

heads-Bins : Bins 5 segment_bytes heads blocks
unfolding read_le
heads-Bins = (refl, omega arith, ((refl, refl), omega arith, tt))

fit_from-first_example :
    fit_from 5 heads 5040 segment_bytes ≡ first_fit 5040 segment_bytes (all_blocks blocks)
fit_from-first_example = fit_from-first 5 5040 segment_bytes heads blocks heads-Bins

blocks-bytes : bytes_of segment_bytes (all_blocks blocks) ≡ 4194304
unfolding bytes_of size_at tag_size read_le
blocks-bytes = refl

heap_usage-sums_example : heap_usage 5 heads segment_bytes (0, 0) ≡ (
  0 + bytes_of segment_bytes (all_blocks blocks),
  max 0 (largest_of segment_bytes (all_blocks blocks)),
)
heap_usage-sums_example =
    heap_usage-sums 5 segment_bytes heads blocks 0 0 heads-Bins (omega (arith, blocks-bytes))
