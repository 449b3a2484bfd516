-- ===== src/Segment.antt =====
-- src/SegmentHeap.{hpp,cpp}: the medium tier. Segments of 4 MiB hold blocks with boundary tags in
-- memory, and free blocks are linked in bins by size. Its lock makes each operation one step.
pub mod Tag
pub mod Bins
pub mod Ops
pub mod Heap
