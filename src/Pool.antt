-- ===== src/Pool.antt =====
-- src/PoolAllocator.{hpp,cpp}: the small tier. Each size class has a shard with a free list and a
-- bump region, carved from runs that are mapped on demand. The lock of a shard makes each operation
-- one step.
pub mod Invariant
pub mod Take
pub mod Free
pub mod Batch
pub mod Shared
pub mod Stride
pub mod Shards
use m_alloc.Base.{
  ℕ, zero, suc, ◌+◌, ◌-◌, ◌*◌, Bool, true, false, ◌||◌, ◌==◌, ltb, if◌then◌else◌, List, [], ◌∷◌,
  Option, none, some, get_or, set, replicate,
}
use m_alloc.Memory.{Ptr, null}
use m_alloc.Header.{header_size, default_alignment, align_up}
use m_alloc.SizeClass.{class_size, class_count}
use m_alloc.SystemMemory.{Region, World, Os, sys_map, is_valid}
use m_alloc.FreeList.{FreeList, empty_list, push, pop}

pub record Shard : Type 0 where
  pub free_list : FreeList
  pub bump_cursor : Ptr
  pub bump_end : Ptr
  -- Newest first.
  pub runs : List Region

abbrev pub empty_shard : Shard
empty_shard = record { free_list = empty_list; bump_cursor = null; bump_end = null; runs = [] }

-- shards_, by class index.
abbrev pub Pools : Type 0
Pools = List Shard

abbrev pub empty_pools : Pools
empty_pools = replicate class_count empty_shard

abbrev pub run_size : ℕ
run_size = 64 * 1024

unfoldable pub block_stride : ℕ → ℕ
unfolding align_up class_size
block_stride class_index = align_up (header_size + class_size class_index) default_alignment

-- The block at the cursor, and the cursor behind it.
unfoldable pub bump : ℕ → Shard → World → Option Ptr × Shard × World
bump stride s w = (some s.bump_cursor, record s { bump_cursor = s.bump_cursor + stride }, w)

-- The end of `refill`, once the run is mapped or is not.
unfoldable pub adopt_run : Shard → Region × World → Bool × Shard × World
adopt_run s (run, w) =
    if is_valid run
    then (
      true,
      record s { bump_cursor = run.base; bump_end = run.base + run.size; runs = run ∷ s.runs },
      w,
    )
    else (false, s, w)

-- `if (!refill(shard)) return nullptr;` and what follows.
unfoldable pub bump_after : ℕ → Bool × Shard × World → Option Ptr × Shard × World
bump_after stride (done, s, w) = if done then bump stride s w else (none, s, w)

-- A round of the loop of `allocateBatch`: leave it at null, or store the block and go on.
unfoldable pub batch_after :
    (Shard → World → List Ptr × Shard × World)
    → Option Ptr × Shard × World
    → List Ptr × Shard × World
batch_after loop (none, s, w) = ([], s, w)
batch_after loop (some b, s, w) = let (bs, s', w') = loop s w in (b ∷ bs, s', w')

module _ (os : Os) where
  unfoldable pub refill : Shard → World → Bool × Shard × World
  unfolding adopt_run
  refill s w = adopt_run s (sys_map os run_size w)

  unfoldable pub take_fresh : ℕ → Shard → World → Option Ptr × Shard × World
  unfolding bump_after
  take_fresh stride s w =
      if (s.bump_cursor == null) || ltb (s.bump_end - s.bump_cursor) stride
      then bump_after stride (refill s w)
      else bump stride s w

  -- What follows `shard.freeList.pop()`.
  unfoldable pub take_popped :
      ℕ → Shard → World → Option Ptr × FreeList → Option Ptr × Shard × World
  take_popped stride s w (some b, rest) = (some b, record s { free_list = rest }, w)
  take_popped stride s w (none, rest) = take_fresh stride (record s { free_list = rest }) w

  unfoldable pub take_block : ℕ → Shard → World → Option Ptr × Shard × World
  unfolding take_popped
  take_block stride s w = take_popped stride s w (pop s.free_list w.bytes)

  -- The blocks written to a span of the given length.
  unfoldable pub take_batch : ℕ → ℕ → Shard → World → List Ptr × Shard × World
  unfolding batch_after
  take_batch zero stride s w = ([], s, w)
  take_batch (suc room) stride s w = batch_after (take_batch room stride) (take_block stride s w)

  unfoldable pub allocate_block : ℕ → Pools → World → Option Ptr × Pools × World
  allocate_block class_index pools w =
      let (block, s, w') =
        take_block (block_stride class_index) (get_or pools class_index empty_shard) w in
      (block, set pools class_index s, w')

  unfoldable pub allocate_batch : ℕ → ℕ → Pools → World → List Ptr × Pools × World
  allocate_batch class_index room pools w =
      let (blocks, s, w') =
        take_batch room (block_stride class_index) (get_or pools class_index empty_shard) w in
      (blocks, set pools class_index s, w')

-- shard.freeList.push(block)
unfoldable pub put_block : Ptr → Shard → World → Shard × World
put_block block s w =
    let (f, m) = push block s.free_list w.bytes in
    (record s { free_list = f }, record w { bytes = m })

unfoldable pub put_batch : List Ptr → Shard → World → Shard × World
put_batch [] s w = (s, w)
put_batch (b ∷ bs) s w = let (s', w') = put_block b s w in put_batch bs s' w'

unfoldable pub free_block : ℕ → Ptr → Pools → World → Pools × World
free_block class_index block pools w =
    let (s, w') = put_block block (get_or pools class_index empty_shard) w in
    (set pools class_index s, w')

unfoldable pub free_batch : ℕ → List Ptr → Pools → World → Pools × World
free_batch class_index blocks pools w =
    let (s, w') = put_batch blocks (get_or pools class_index empty_shard) w in
    (set pools class_index s, w')
