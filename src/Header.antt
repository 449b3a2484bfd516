-- ===== src/Header.antt =====
-- src/BlockHeader.hpp: the 16-byte header before each user pointer, and the two alignment helpers.
pub mod Align
pub mod Fields
use m_alloc.Base.{
  ℕ, ◌+◌, ◌-◌, ◌*◌, ◌%◌, ◌^◌, bit_and, Bool, true, false, ◌==◌, leb, not, ◌&&◌, Option, none, some,
  if◌then◌else◌,
}
use m_alloc.Memory.{Ptr, Bytes, load64, load32, load16, store64, store32, store16}

-- The range of std::size_t.
abbrev pub word : ℕ
word = 2 ^ 64

abbrev pub header_size : ℕ
header_size = 16

abbrev pub default_alignment : ℕ
default_alignment = 16

abbrev pub small_max : ℕ
small_max = 4096

abbrev pub medium_max : ℕ
medium_max = 256 * 1024

abbrev pub state_allocated : ℕ
state_allocated = 0xA11C

abbrev pub state_freed : ℕ
state_freed = 0xF4EE

pub data Tier : Type 0 where
  small medium large aligned_shim debug_shim : Tier

abbrev pub tier_code : Tier → ℕ
tier_code small = 0x51
tier_code medium = 0x52
tier_code large = 0x53
tier_code aligned_shim = 0x54
tier_code debug_shim = 0x55

pub record BlockHeader : Type 0 where
  pub payload_size : ℕ
  pub tier : ℕ
  pub state : ℕ
  pub offset : ℕ

unfoldable pub has_valid_tier : BlockHeader → Bool
has_valid_tier h = leb (tier_code small) h.tier && leb h.tier (tier_code debug_shim)

-- The enumerator that the stored code is, if it is one.
unfoldable pub tier_value : BlockHeader → Option Tier
tier_value h =
    if h.tier == tier_code small
    then some small
    else if h.tier == tier_code medium
    then some medium
    else if h.tier == tier_code large
    then some large
    else if h.tier == tier_code aligned_shim
    then some aligned_shim
    else if h.tier == tier_code debug_shim
    then some debug_shim
    else none

-- Pointer arithmetic below an object's first byte has no meaning in C++; here it stops at 0.
abbrev pub header_of : Ptr → Ptr
header_of user = user - header_size

abbrev pub user_pointer_of : Ptr → Ptr
user_pointer_of block = block + header_size

-- The struct at an address, field by field at the offsets 0, 8, 10 and 12.
unfoldable pub read_header : Ptr → Bytes → BlockHeader
read_header h m = record {
  payload_size = load64 h m;
  tier = load16 (h + 8) m;
  state = load16 (h + 10) m;
  offset = load32 (h + 12) m;
}

unfoldable pub set_state : Ptr → ℕ → Bytes → Bytes
set_state h v m = store16 (h + 10) v m

-- The four assignments that every allocation path makes.
unfoldable pub write_header : Ptr → ℕ → Tier → ℕ → Bytes → Bytes
unfolding set_state
write_header h size t off m =
    store32 (h + 12) off
      (set_state h state_allocated (store16 (h + 8) (tier_code t) (store64 h size m)))

unfoldable pub align_up : ℕ → ℕ → ℕ
align_up value alignment = bit_and ((value + alignment - 1) % word) (word - 1 - (alignment - 1))

unfoldable pub is_power_of_two : ℕ → Bool
is_power_of_two value = not (value == 0) && (bit_and value (value - 1) == 0)
