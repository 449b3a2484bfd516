-- ===== src/ThreadCache.antt =====
-- src/ThreadCache.{hpp,cpp}: a thread's blocks of each size class, filled and flushed in batches.
-- `slots[0 .. count)` of a class is the list `slots`, the top at the head, so `count` is its length.
pub mod Slots
use m_alloc.Base.{
  ℕ, zero, suc, ◌+◌, ◌-◌, List, [], ◌∷◌, ◌++◌, Option, none, some, Bool, true, false, ◌==◌,
  if◌then◌else◌, length, get_or, set, take, drop, replicate, reverse,
}
use m_alloc.Memory.{Ptr}
use m_alloc.SizeClass.{class_count}
use m_alloc.SystemMemory.{World, Os}
use m_alloc.Pool.{Pools, allocate_batch, free_batch}

abbrev pub capacity : ℕ
capacity = 64

abbrev pub batch_size : ℕ
batch_size = 16

abbrev pub ClassCache : Type 0
ClassCache = List Ptr

-- caches_, by class index.
abbrev pub ThreadCache : Type 0
ThreadCache = List ClassCache

abbrev pub empty_cache : ThreadCache
empty_cache = replicate class_count []

-- `--cache.count; return cache.slots[cache.count];`, or null at count 0.
unfoldable pub pop_slot : ClassCache → Option Ptr × ClassCache
pop_slot [] = (none, [])
pop_slot (b ∷ slots) = (some b, slots)

module _ (os : Os) where
  -- The batch fills the slots from 0 up, so its last block is on top.
  unfoldable pub refill_slots : ℕ → ClassCache → Pools → World → ClassCache × Pools × World
  refill_slots class_index [] pools w =
      let (blocks, pools', w') = allocate_batch os class_index batch_size pools w in
      (reverse blocks, pools', w')
  refill_slots class_index (b ∷ slots) pools w = (b ∷ slots, pools, w)

  unfoldable pub cache_allocate :
      ℕ → ThreadCache → Pools → World → Option Ptr × ThreadCache × Pools × World
  cache_allocate class_index cache pools w =
      let (slots, pools', w') = refill_slots class_index (get_or cache class_index []) pools w in
      let (block, left) = pop_slot slots in (block, set cache class_index left, pools', w')

-- At full capacity the top `batch_size` slots, from the lowest of them up, go back to the pools.
unfoldable pub flush_slots : ℕ → ClassCache → Pools → World → ClassCache × Pools × World
flush_slots class_index slots pools w =
    if length slots == capacity
    then (let (pools', w') = free_batch class_index (reverse (take batch_size slots)) pools w in
        (drop batch_size slots, pools', w'))
    else (slots, pools, w)

unfoldable pub cache_free : ℕ → Ptr → ThreadCache → Pools → World → ThreadCache × Pools × World
cache_free class_index block cache pools w =
    let (slots, pools', w') = flush_slots class_index (get_or cache class_index []) pools w in
    (set cache class_index (block ∷ slots), pools', w')

-- The loop of the destructor over the classes from `class_index` on, while the central state lives.
unfoldable pub return_all : ℕ → ThreadCache → Pools → World → Pools × World
return_all class_index [] pools w = (pools, w)
return_all class_index (slots ∷ cache) pools w =
    let (pools', w') =
      (if length slots == 0 then (pools, w) else free_batch class_index (reverse slots) pools w) in
    return_all (class_index + 1) cache pools' w'
