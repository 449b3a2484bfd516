-- ===== src/Impl/Raw.antt =====
-- `threadCache`, `rawAllocate` and `rawDeallocate`: the way to and from the tiers.
use m_alloc.Base.{ℕ, ◌+◌, ◌-◌, ◌%◌, Bool, if◌then◌else◌, leb, ◌==◌, Option, none, some}
use m_alloc.Memory.{Ptr}
use m_alloc.Config.{Result, ok, err, out_of_memory, invalid_pointer}
use m_alloc.Header.{
  Tier, header_size, small_max, medium_max, header_of, user_pointer_of, write_header, read_header,
  tier_value, set_state, state_freed, word,
}
use m_alloc.SizeClass.{class_index, class_size}
use m_alloc.Pool.{allocate_block, free_block}
use m_alloc.ThreadCache.{ThreadCache, empty_cache, cache_allocate, cache_free}
use m_alloc.Segment.Ops.{segment_allocate, segment_deallocate, segment_capacity}
use m_alloc.Large.{large_allocate, large_deallocate, large_capacity}
use m_alloc.Impl.{State, Slot, absent, expired, cached, Env, set_bytes}

pub record RawAllocation : Type 0 where
  pub user : Ptr
  pub reserved : ℕ

abbrev pub keep_cache : ℕ → ThreadCache → State → State
keep_cache thread cache s = record s {
  caches = λ t. if t == thread then cached cache else s.caches t;
}

-- The cache that a slot holds or gets, if the runtime has memory for a new one.
abbrev pub slot_cache : Bool → Slot → Option ThreadCache
slot_cache room (cached cache) = some cache
slot_cache room absent = if room then some empty_cache else none
slot_cache room expired = if room then some empty_cache else none

unfoldable pub thread_cache : Env → State → Option ThreadCache
thread_cache env s =
    if s.config.enable_thread_cache then slot_cache env.tls_ok (s.caches env.thread) else none

unfoldable pub take_small : Env → ℕ → State → Option Ptr × State
take_small env index s = elim (thread_cache env s) [
  | none ↦
      let (block, pools, w) = allocate_block env.os index s.pools s.world in
      (block, record s { pools = pools; world = w })
  | some cache ↦
      let (block, cache', pools, w) = cache_allocate env.os index cache s.pools s.world in
      (block, keep_cache env.thread cache' (record s { pools = pools; world = w }))
]

unfoldable pub give_small : Env → ℕ → Ptr → State → State
give_small env index block s = elim (thread_cache env s) [
  | none ↦
      let (pools, w) = free_block index block s.pools s.world in
      record s { pools = pools; world = w }
  | some cache ↦
      let (cache', pools, w) = cache_free index block cache s.pools s.world in
      keep_cache env.thread cache' (record s { pools = pools; world = w })
]

-- The header of a new block at the address that a tier returned.
abbrev pub head_block : ℕ → Tier → Ptr → State → State
head_block size tier payload s =
    set_bytes (write_header (header_of (user_pointer_of payload)) size tier 0 s.world.bytes) s

unfoldable pub raw_small : ℕ → ℕ → Option Ptr × State → Result RawAllocation × State
raw_small size index (none, s) = (err out_of_memory, s)
raw_small size index (some block, s) = (
  ok (record { user = user_pointer_of block; reserved = class_size index }),
  head_block size Tier.small block s,
)

unfoldable pub raw_medium : ℕ → Option Ptr × State → Result RawAllocation × State
raw_medium size (none, s) = (err out_of_memory, s)
raw_medium size (some payload, s) =
    let s' = head_block size Tier.medium payload s in
    (
      ok (record {
        user = user_pointer_of payload;
        reserved = (segment_capacity payload s'.world.bytes + word - header_size) % word;
      }),
      s',
    )

unfoldable pub raw_large : ℕ → Option Ptr × State → Result RawAllocation × State
raw_large size (none, s) = (err out_of_memory, s)
raw_large size (some payload, s) =
    let s' = head_block size Tier.large payload s in
    (
      ok (record {
        user = user_pointer_of payload;
        reserved = (large_capacity payload s'.large + word - header_size) % word;
      }),
      s',
    )

abbrev pub take_medium : Env → ℕ → State → Option Ptr × State
take_medium env bytes s =
    let (payload, heap, w) = segment_allocate env.os bytes s.segments s.world in
    (payload, record s { segments = heap; world = w })

abbrev pub take_large : Env → ℕ → State → Option Ptr × State
take_large env bytes s =
    let (payload, regions, w) = large_allocate env.os bytes s.large s.world in
    (payload, record s { large = regions; world = w })

unfoldable pub raw_allocate : Env → ℕ → State → Result RawAllocation × State
unfolding raw_small raw_medium raw_large take_small
raw_allocate env size s =
    if leb size small_max
    then raw_small size (class_index size) (take_small env (class_index size) s)
    else if leb size medium_max
    then raw_medium size (take_medium env (size + header_size) s)
    else raw_large size (take_large env (size + header_size) s)

abbrev pub mark_freed : Ptr → State → State
mark_freed raw s = set_bytes (set_state (header_of raw) state_freed s.world.bytes) s

-- The cases of the switch, with the header's address as the block or payload.
unfoldable pub give_back : Env → Ptr → Option Tier → State → Result ℕ × State
unfolding give_small
give_back env raw (some Tier.small) s =
    let index = class_index (read_header (header_of raw) s.world.bytes).payload_size in
    (ok (class_size index), give_small env index (header_of raw) (mark_freed raw s))
give_back env raw (some Tier.medium) s =
    let s' = mark_freed raw s in
    let reserved = (segment_capacity (header_of raw) s'.world.bytes + word - header_size) % word in
    let (heap, w) = segment_deallocate (header_of raw) s'.segments s'.world in
    (ok reserved, record s' { segments = heap; world = w })
give_back env raw (some Tier.large) s =
    let reserved = (large_capacity (header_of raw) s.large + word - header_size) % word in
    let (erased, regions, w) = large_deallocate (header_of raw) s.large s.world in
    ((if erased then ok reserved else err invalid_pointer), record s { large = regions; world = w })
give_back env raw _ s = (err invalid_pointer, s)

unfoldable pub raw_deallocate : Env → Ptr → State → Result ℕ × State
unfolding give_back
raw_deallocate env raw s =
    give_back env raw (tier_value (read_header (header_of raw) s.world.bytes)) s
