-- ===== src/Segment/Ops.antt =====
-- `SegmentHeap::allocate`, `deallocate` and what they call.
pub mod Split
use m_alloc.Base.{
  ℕ, zero, suc, ◌+◌, ◌-◌, ◌*◌, ◌/◌, ◌%◌, Bool, true, false, not, ◌&&◌, ◌==◌, ltb, leb,
  if◌then◌else◌, List, [], ◌∷◌, ◌++◌, Option, none, some, get_or, set, drop, max, length,
}
use m_alloc.Memory.{Ptr, Bytes, null, load64, store64}
use m_alloc.Header.{word, align_up, default_alignment}
use m_alloc.SystemMemory.{Region, World, Os, sys_map, sys_unmap, is_valid}
use m_alloc.Segment.Tag.{
  first_flag, last_flag, block_header_size, min_block_size, segment_size, size_at, set_size,
  is_free, is_first, is_last, set_flag, prev_size_at, set_prev_size, block_of, payload_of,
  block_of_node, next_block, prev_block, bin_index,
}
use m_alloc.Segment.Bins.{SegmentHeap, insert_free, remove_free, fit_from, node_next}

-- The sizes of the live segments. A block has 48 bytes at least, so this is more than any bin holds.
unfoldable pub total_size : List Region → ℕ
total_size [] = 0
total_size (r ∷ rs) = r.size + total_size rs

unfoldable pub find_fit : ℕ → SegmentHeap → Bytes → Option Ptr
find_fit total h m = fit_from (total_size h.segments + 1) (drop (bin_index total) h.bins) total m

-- The tags of the one block of a new segment.
unfoldable pub whole_block : Ptr → ℕ → Bytes → Bytes
whole_block b size m =
    let m1 = set_size b size (store64 b 0 m) in
    set_prev_size b 0 (set_flag last_flag true b (set_flag first_flag true b m1))

unfoldable pub adopt_segment : SegmentHeap → Region × World → Bool × SegmentHeap × World
unfolding whole_block
adopt_segment h (r, w) =
    if is_valid r
    then (let (h1, m1) = insert_free r.base h (whole_block r.base r.size w.bytes) in
        (true, record h1 { segments = h1.segments ++ r ∷ [] }, record w { bytes = m1 }))
    else (false, h, w)

unfoldable pub add_segment : Os → SegmentHeap → World → Bool × SegmentHeap × World
add_segment os h w = adopt_segment h (sys_map os segment_size w)

-- The tags that `splitBlock` writes, when the rest is large enough for a block.
unfoldable pub write_rest : Ptr → ℕ → ℕ → Bytes → Bytes
write_rest b total remainder m =
    let rest = b + total in
    let m1 = set_size rest remainder (store64 rest 0 m) in
    let m2 = set_prev_size rest total (set_flag last_flag (is_last b m1) rest m1) in
    let m3 = set_flag last_flag false b (set_size b total m2) in
    if is_last rest m3 then m3 else set_prev_size (next_block rest m3) remainder m3

unfoldable pub split_block : Ptr → ℕ → SegmentHeap → Bytes → SegmentHeap × Bytes
unfolding write_rest
split_block b total h m =
    let remainder = (size_at b m + word - total) % word in
    if ltb remainder min_block_size
    then (h, m)
    else insert_free (b + total) h (write_rest b total remainder m)

unfoldable pub total_for : ℕ → ℕ
total_for bytes = max ((align_up bytes default_alignment + block_header_size) % word) min_block_size

-- `removeFree(block); splitBlock(block, total); return payloadOf(block);`
unfoldable pub carve : ℕ → Ptr → SegmentHeap → World → Option Ptr × SegmentHeap × World
carve total b h w =
    let (h1, m1) = remove_free b h w.bytes in
    let (h2, m2) = split_block b total h1 m1 in (some (payload_of b), h2, record w { bytes = m2 })

-- The second search, in the heap with a new segment.
unfoldable pub retry : ℕ → Bool × SegmentHeap × World → Option Ptr × SegmentHeap × World
unfolding find_fit carve
retry total (false, h, w) = (none, h, w)
retry total (true, h, w) = elim (find_fit total h w.bytes) [
  | none ↦ (none, h, w)
  | some b ↦ carve total b h w
]

unfoldable pub segment_allocate : Os → ℕ → SegmentHeap → World → Option Ptr × SegmentHeap × World
unfolding total_for find_fit carve retry
segment_allocate os bytes h w =
    if ltb segment_size (total_for bytes)
    then (none, h, w)
    else elim (find_fit (total_for bytes) h w.bytes) [
      | none ↦ retry (total_for bytes) (add_segment os h w)
      | some b ↦ carve (total_for bytes) b h w
    ]

-- The segments without the first that starts at the address, if one does.
unfoldable pub take_segment : Ptr → List Region → Option (Region × List Region)
take_segment base [] = none
take_segment base (r ∷ rs) =
    if r.base == base
    then some (r, rs)
    else elim (take_segment base rs) [ none ↦ none | some (found, left) ↦ some (found, r ∷ left) ]

unfoldable pub insert_in : Ptr → SegmentHeap → World → SegmentHeap × World
insert_in b h w = let (h1, m1) = insert_free b h w.bytes in (h1, record w { bytes = m1 })

unfoldable pub release_segment : Ptr → SegmentHeap → World → SegmentHeap × World
unfolding insert_in take_segment
release_segment b h w =
    if leb (length h.segments) 1 then insert_in b h w else elim (take_segment b h.segments) [
      | none ↦ insert_in b h w
      | some (r, left) ↦ (record h { segments = left }, sys_unmap r w)
    ]

-- Joining a free right neighbour to the block.
unfoldable pub join_next : Ptr → SegmentHeap → Bytes → SegmentHeap × Bytes
join_next b h m =
    if is_last b m
    then (h, m)
    else if not (is_free (next_block b m) m)
    then (h, m)
    else (let next = next_block b m in
        let (h1, m1) = remove_free next h m in
        let m2 = set_size b ((size_at b m1 + size_at next m1) % word) m1 in
        (h1, set_flag last_flag (is_last next m2) b m2))

-- Joining the block to a free left neighbour, which is then the block.
unfoldable pub join_prev : Ptr → SegmentHeap → Bytes → Ptr × SegmentHeap × Bytes
join_prev b h m =
    if is_first b m
    then (b, h, m)
    else if not (is_free (prev_block b m) m)
    then (b, h, m)
    else (let prev = prev_block b m in
        let (h1, m1) = remove_free prev h m in
        let m2 = set_size prev ((size_at prev m1 + size_at b m1) % word) m1 in
        (prev, h1, set_flag last_flag (is_last b m2) prev m2))

unfoldable pub tell_next : Ptr → Bytes → Bytes
tell_next b m = if is_last b m then m else set_prev_size (next_block b m) (size_at b m) m

unfoldable pub segment_deallocate : Ptr → SegmentHeap → World → SegmentHeap × World
unfolding join_next join_prev tell_next release_segment insert_in
segment_deallocate payload h w =
    let (h1, m1) = join_next (block_of payload) h w.bytes in
    let (b, h2, m2) = join_prev (block_of payload) h1 m1 in
    let w3 = record w { bytes = tell_next b m2 } in
    if is_first b w3.bytes && is_last b w3.bytes then release_segment b h2 w3 else insert_in b h2 w3

unfoldable pub segment_capacity : Ptr → Bytes → ℕ
segment_capacity payload m = (size_at (block_of payload) m + word - block_header_size) % word

-- The sums of `externalFragmentation` over one bin and over all: all free bytes, and the largest
-- free block.
unfoldable pub bin_usage : ℕ → Ptr → Bytes → ℕ × ℕ → ℕ × ℕ
bin_usage zero node m acc = acc
bin_usage (suc fuel) node m (free, largest) =
    let size = size_at (block_of_node node) m in
    let rest = bin_usage fuel (node_next node m) m ((free + size) % word, max largest size) in
    if node == null then (free, largest) else rest

unfoldable pub heap_usage : ℕ → List Ptr → Bytes → ℕ × ℕ → ℕ × ℕ
unfolding bin_usage
heap_usage fuel [] m acc = acc
heap_usage fuel (node ∷ bins) m acc = heap_usage fuel bins m (bin_usage fuel node m acc)

unfoldable pub free_usage : SegmentHeap → Bytes → ℕ × ℕ
unfolding heap_usage
free_usage h m = heap_usage (total_size h.segments + 1) h.bins m (0, 0)
