-- ===== src/Segment/Bins.antt =====
-- The bins: doubly linked lists of free blocks, with the links 32 bytes into each block.
pub mod Walk
pub mod Front
pub mod Unlink
pub mod Insert
use m_alloc.Base.{
  ℕ, zero, suc, ◌+◌, ◌-◌, ◌*◌, ◌/◌, Bool, true, false, not, ◌==◌, leb, if◌then◌else◌, List, [], ◌∷◌,
  ◌++◌, Option, none, some, get_or, set, replicate, max,
}
use m_alloc.Memory.{Ptr, Bytes, null, load64, store64}
use m_alloc.SystemMemory.{Region}
use m_alloc.Segment.Tag.{
  free_flag, bin_count, size_at, set_flag, node_of, block_of_node, bin_index, min_block_size,
}

pub record SegmentHeap : Type 0 where
  pub bins : List Ptr
  -- Oldest first.
  pub segments : List Region

abbrev pub empty_heap : SegmentHeap
empty_heap = record { bins = replicate bin_count null; segments = [] }

-- FreeNode::prev and FreeNode::next.
abbrev pub node_prev : Ptr → Bytes → Ptr
node_prev node m = load64 node m

abbrev pub node_next : Ptr → Bytes → Ptr
node_next node m = load64 (node + 8) m

abbrev pub set_node_prev : Ptr → Ptr → Bytes → Bytes
set_node_prev node p m = store64 node p m

abbrev pub set_node_next : Ptr → Ptr → Bytes → Bytes
set_node_next node p m = store64 (node + 8) p m

-- The links that `insertFree` writes: the new node, and the old head's way back.
unfoldable pub link_front : Ptr → Ptr → Bytes → Bytes
link_front node old m =
    let m1 = set_node_next node old (set_node_prev node null m) in
    if node_next node m1 == null then m1 else set_node_prev (node_next node m1) node m1

unfoldable pub insert_free : Ptr → SegmentHeap → Bytes → SegmentHeap × Bytes
unfolding link_front
insert_free b h m =
    let index = bin_index (size_at b m) in
    let node = node_of b in
    (
      record h { bins = set h.bins index node },
      set_flag free_flag true b (link_front node (get_or h.bins index null) m),
    )

-- The node's two neighbours are joined; without a left one the bin's head moves on.
unfoldable pub unlink_left : Ptr → SegmentHeap → Bytes → SegmentHeap × Bytes
unlink_left b h m =
    let node = node_of b in
    if node_prev node m == null
    then (record h { bins = set h.bins (bin_index (size_at b m)) (node_next node m) }, m)
    else (h, set_node_next (node_prev node m) (node_next node m) m)

unfoldable pub unlink_right : Ptr → Bytes → Bytes
unlink_right node m =
    if node_next node m == null then m else set_node_prev (node_next node m) (node_prev node m) m

unfoldable pub remove_free : Ptr → SegmentHeap → Bytes → SegmentHeap × Bytes
unfolding unlink_left unlink_right
remove_free b h m =
    let (h1, m1) = unlink_left b h m in
    (h1, set_flag free_flag false b (unlink_right (node_of b) m1))

-- The inner loop of `findFit`, from a node on. A bin holds no more nodes than the fuel.
unfoldable pub fit_in_bin : ℕ → Ptr → ℕ → Bytes → Option Ptr
fit_in_bin zero node total m = none
fit_in_bin (suc fuel) node total m =
    let rest = fit_in_bin fuel (node_next node m) total m in
    if node == null
    then none
    else if leb total (size_at (block_of_node node) m)
    then some (block_of_node node)
    else rest

-- The outer loop, over the bins from some index on.
unfoldable pub fit_from : ℕ → List Ptr → ℕ → Bytes → Option Ptr
unfolding fit_in_bin
fit_from fuel [] total m = none
fit_from fuel (node ∷ bins) total m = elim (fit_in_bin fuel node total m) [
  | some b ↦ some b
  | none ↦ fit_from fuel bins total m
]
