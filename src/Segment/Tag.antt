-- ===== src/Segment/Tag.antt =====
-- `MediumBlock`: a block's size and three flags in one word, and the size of the block before it.
pub mod Laws
use m_alloc.Base.{
  ℕ, zero, suc, ◌+◌, ◌-◌, ◌*◌, ◌/◌, Bool, true, false, not, ◌==◌, ltb, if◌then◌else◌, bit_and,
  bit_or, min,
}
use m_alloc.Memory.{Ptr, Bytes, load64, store64}
use m_alloc.Header.{word}

abbrev pub free_flag : ℕ
free_flag = 1

abbrev pub first_flag : ℕ
first_flag = 2

abbrev pub last_flag : ℕ
last_flag = 4

abbrev pub flag_mask : ℕ
flag_mask = 15

abbrev pub block_header_size : ℕ
block_header_size = 16

abbrev pub node_offset : ℕ
node_offset = 32

abbrev pub min_block_size : ℕ
min_block_size = 48

abbrev pub bin_count : ℕ
bin_count = 18

abbrev pub segment_size : ℕ
segment_size = 4 * 1024 * 1024

-- The member functions, on the word `sizeAndFlags` itself.
unfoldable pub tag_size : ℕ → ℕ
tag_size tag = bit_and tag (word - 1 - flag_mask)

unfoldable pub with_size : ℕ → ℕ → ℕ
with_size tag size = bit_or (bit_and tag flag_mask) size

unfoldable pub has_flag : ℕ → ℕ → Bool
has_flag flag tag = not (bit_and tag flag == 0)

unfoldable pub with_flag : ℕ → Bool → ℕ → ℕ
with_flag flag value tag = if value then bit_or tag flag else bit_and tag (word - 1 - flag)

-- The same in memory, at the block's address.
unfoldable pub size_at : Ptr → Bytes → ℕ
unfolding tag_size
size_at b m = tag_size (load64 b m)

unfoldable pub set_size : Ptr → ℕ → Bytes → Bytes
unfolding with_size
set_size b size m = store64 b (with_size (load64 b m) size) m

unfoldable pub is_free : Ptr → Bytes → Bool
unfolding has_flag
is_free b m = has_flag free_flag (load64 b m)

unfoldable pub is_first : Ptr → Bytes → Bool
unfolding has_flag
is_first b m = has_flag first_flag (load64 b m)

unfoldable pub is_last : Ptr → Bytes → Bool
unfolding has_flag
is_last b m = has_flag last_flag (load64 b m)

unfoldable pub set_flag : ℕ → Bool → Ptr → Bytes → Bytes
unfolding with_flag
set_flag flag value b m = store64 b (with_flag flag value (load64 b m)) m

abbrev pub prev_size_at : Ptr → Bytes → ℕ
prev_size_at b m = load64 (b + 8) m

abbrev pub set_prev_size : Ptr → ℕ → Bytes → Bytes
set_prev_size b size m = store64 (b + 8) size m

abbrev pub block_of : Ptr → Ptr
block_of payload = payload - block_header_size

abbrev pub payload_of : Ptr → Ptr
payload_of block = block + block_header_size

abbrev pub node_of : Ptr → Ptr
node_of block = block + node_offset

abbrev pub block_of_node : Ptr → Ptr
block_of_node node = node - node_offset

unfoldable pub next_block : Ptr → Bytes → Ptr
unfolding size_at
next_block b m = b + size_at b m

unfoldable pub prev_block : Ptr → Bytes → Ptr
prev_block b m = b - prev_size_at b m

-- std::bit_width of a 64-bit number: a round for each binary digit.
unfoldable pub digits_below : ℕ → ℕ → ℕ
digits_below zero n = 0
digits_below (suc k) n = if n == 0 then 0 else suc (digits_below k (n / 2))

unfoldable pub bit_width : ℕ → ℕ
unfolding digits_below
bit_width n = digits_below 64 n

unfoldable pub bin_index : ℕ → ℕ
unfolding bit_width
bin_index size =
    let width = bit_width size in min (if ltb 6 width then width - 6 else 0) (bin_count - 1)
