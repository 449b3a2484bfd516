-- ===== src/Tests/Small.antt =====
-- The small tier: an empty pool, and one with a block in use.
use m_alloc.Base.{
  ℕ, zero, suc, ◌≤◌, ◌≡◌, refl, List, [], ◌∷◌, arith, get_or, replicate, some, set, subst, sym, inl,
}
use m_alloc.Memory.{Ptr, Bytes}
use m_alloc.SizeClass.{class_count}
use m_alloc.SystemMemory.{Region, World, within, covered}
use m_alloc.FreeList.{FreeList, empty_list, push, pop_batch}
use m_alloc.FreeList.Chain.{IsFreeList, cover}
use m_alloc.FreeList.Stack.{push-IsFreeList}
use m_alloc.FreeList.Batch.{pop_batch-take}
use m_alloc.Pool.{
  Shard, Pools, empty_shard, empty_pools, block_stride, allocate_block, free_block, take_batch,
  put_batch,
}
use m_alloc.Pool.Invariant.{Share, ShardInv, with_block}
use m_alloc.Pool.Take.{IsBlock}
use m_alloc.Pool.Free.{ChangedAt}
use m_alloc.Pool.Batch.{
  BatchResult, take_batch-BatchResult, put_batch-ShardInv, with_blocks, ShardInv-own,
}
use m_alloc.Pool.Shared.{PoolsInv, others_of, run_total, at_class, update-PoolsInv}
use m_alloc.Pool.Shards.{AllocResult, allocate_block-AllocResult, free_block-PoolsInv}
use m_alloc.Header.{align_up}
use m_alloc.SizeClass.{class_size}
use m_alloc.ThreadCache.{ThreadCache, empty_cache, cache_free, cache_allocate}
use m_alloc.ThreadCache.Slots.{Bounded, set-Bounded, cache_free-Bounded, cache_allocate-cache_free}
use m_alloc.Tests.Kernel.{flat_os, flat_os-Documented, fresh_world}

abbrev nothing : Share
nothing a = 0

get_or-replicate {ℓ} : {A : Type ℓ} (n i : ℕ) (s : A) → get_or (replicate n s) i s ≡ s
get_or-replicate zero i s = refl
get_or-replicate (suc n) zero s = refl
get_or-replicate (suc n) (suc i) s = get_or-replicate n i s

run_total-empty : (a : Ptr) → run_total empty_pools a ≡ 0
unfolding run_total covered
run_total-empty a = refl

empty_shard-Inv :
    (stride : ℕ) (others : Share) (w : World)
    → ((a : Ptr) → others a ≤ covered w.mapped a)
    → ((a : Ptr) → covered w.mapped a ≤ 1)
    → ShardInv stride [] nothing others empty_shard w
unfolding cover covered within
empty_shard-Inv stride others w live once = record {
  list = record { chain = refl; count = refl };
  frees_16 = tt;
  cursor_16 = refl;
  cursor_le = omega arith;
  end_lt = omega arith;
  split = λ a. ground arith;
  runs_live = λ a. omega (arith, live a);
  single = once;
}

empty_pools-Inv :
    (w : World)
    → ((a : Ptr) → covered w.mapped a ≤ 1)
    → PoolsInv (λ _. []) (λ _. nothing) nothing empty_pools w
unfolding covered
empty_pools-Inv w once = record {
  classes = λ i top.
      rw (get_or-replicate class_count i empty_shard)
        (empty_shard-Inv (block_stride i) _ w (λ a. omega (arith, run_total-empty a)) once);
  size = refl;
}

fresh-once : (a : Ptr) → covered fresh_world.mapped a ≤ 1
unfolding covered
fresh-once a = omega arith

allocate_block-AllocResult_example :
    AllocResult
      (λ _. [])
      (λ _. nothing)
      nothing
      empty_pools
      fresh_world
      (empty_pools-Inv fresh_world fresh-once)
      5
      (allocate_block flat_os 5 empty_pools fresh_world)
allocate_block-AllocResult_example =
    allocate_block-AllocResult (λ _. []) (λ _. nothing) nothing empty_pools fresh_world
      (empty_pools-Inv fresh_world fresh-once) flat_os flat_os-Documented 5 (omega arith)

-- A run whose first two blocks of 32 bytes are in use.
abbrev run_region : Region
run_region = record { base = 4096; size = 65536 }

abbrev run_world : World
run_world = record { bytes = λ _. 0; mapped = run_region ∷ []; calls = 1 }

abbrev run_shard : Shard
run_shard = record {
  free_list = empty_list;
  bump_cursor = 4160;
  bump_end = 69632;
  runs = run_region ∷ [];
}

abbrev two_blocks : Share
two_blocks = with_block 32 4096 (with_block 32 4128 nothing)

run-once : (a : Ptr) → covered run_world.mapped a ≤ 1
unfolding covered within
run-once a = ground arith

run_shard-Inv :
    (others : Share)
    → ((a : Ptr) → others a ≡ 0)
    → ShardInv 32 [] two_blocks others run_shard run_world
unfolding cover covered within
run_shard-Inv others vacant = record {
  list = record { chain = refl; count = refl };
  frees_16 = tt;
  cursor_16 = refl;
  cursor_le = omega arith;
  end_lt = omega arith;
  split = λ a. ground arith;
  runs_live = λ a. omega (arith, vacant a);
  single = run-once;
}

first_block : IsBlock 4096
first_block = record { aligned = refl; non_null = omega arith; in_space = omega arith }

second_block : IsBlock 4128
second_block = record { aligned = refl; non_null = omega arith; in_space = omega arith }

take_batch-BatchResult_example :
    BatchResult flat_os 32 3 two_blocks nothing run_world
      (take_batch flat_os 3 32 run_shard run_world)
take_batch-BatchResult_example =
    take_batch-BatchResult flat_os flat_os-Documented 32 nothing 3 two_blocks run_shard run_world []
      (run_shard-Inv nothing (λ a. refl)) (omega arith) (omega arith) refl

put_batch-ShardInv_example :
    ShardInv 32
      (4096 ∷ 4128 ∷ [])
      nothing
      nothing
      (put_batch (4128 ∷ 4096 ∷ []) run_shard run_world).0
      (put_batch (4128 ∷ 4096 ∷ []) run_shard run_world).1
    × ((a : Ptr)
        → cover 32 (4128 ∷ 4096 ∷ []) a ≡ 0
        → (put_batch (4128 ∷ 4096 ∷ []) run_shard run_world).1.bytes a ≡ run_world.bytes a)
    × ((put_batch (4128 ∷ 4096 ∷ []) run_shard run_world).1.mapped ≡ run_world.mapped)
unfolding cover
put_batch-ShardInv_example =
    put_batch-ShardInv 32 nothing (omega arith) (4128 ∷ 4096 ∷ []) nothing run_shard run_world []
      (second_block, (first_block, tt)) owned
  where
    owned : ShardInv 32 [] (with_blocks 32 (4128 ∷ 4096 ∷ []) nothing) nothing run_shard run_world
    owned = ShardInv-own (λ a. omega arith) (run_shard-Inv nothing (λ a. refl))

abbrev run_pools : Pools
run_pools = set empty_pools 0 run_shard

abbrev in_use : ℕ → Share
in_use stride = with_block stride 4096 (with_block stride 4128 nothing)

block_stride-zero : block_stride 0 ≡ 32
unfolding block_stride align_up class_size
block_stride-zero = refl

run_pools-Inv :
    PoolsInv
      (at_class 0 [] (λ _. []))
      (at_class 0 (in_use (block_stride 0)) (λ _. nothing))
      nothing
      run_pools
      run_world
run_pools-Inv =
    update-PoolsInv (λ _. []) (λ _. nothing) nothing empty_pools run_world run_world 0 []
      (in_use (block_stride 0)) run_shard (empty_pools-Inv run_world run-once) (omega arith)
      (subst
        (λ st. ShardInv st [] (in_use st) (others_of empty_pools nothing 0) run_shard run_world)
        (sym block_stride-zero)
        (run_shard-Inv (others_of empty_pools nothing 0) (λ a. omega (arith, run_total-empty a))))
      (λ j top ne. tt)

free_block-PoolsInv_example :
    PoolsInv
      (at_class 0 (4096 ∷ []) (at_class 0 [] (λ _. [])))
      (at_class 0 (with_block (block_stride 0) 4128 nothing) (λ _. nothing))
      nothing
      (free_block 0 4096 run_pools run_world).0
      (free_block 0 4096 run_pools run_world).1
    × ChangedAt 4096 run_world (free_block 0 4096 run_pools run_world).1
free_block-PoolsInv_example =
    free_block-PoolsInv (at_class 0 [] (λ _. [])) (λ _. nothing) nothing run_pools run_world 0 4096
      (with_block (block_stride 0) 4128 nothing) run_pools-Inv (omega arith) first_block

-- A free list of two blocks.
abbrev one_listed : FreeList × Bytes
one_listed = push 4096 empty_list (λ _. 0)

one_listed-Is : IsFreeList one_listed.1 one_listed.0 (4096 ∷ [])
one_listed-Is =
    push-IsFreeList 4096 empty_list (λ _. 0) [] (omega arith) (omega arith) tt
      (record { chain = refl; count = refl })

abbrev two_listed : FreeList × Bytes
two_listed = push 4128 one_listed.0 one_listed.1

pop_batch-take_example :
    ((pop_batch 5 two_listed.0 two_listed.1).0 ≡ 4128 ∷ 4096 ∷ [])
    × IsFreeList two_listed.1 (pop_batch 5 two_listed.0 two_listed.1).1 []
pop_batch-take_example = pop_batch-take 5 two_listed.0 two_listed.1 (4128 ∷ 4096 ∷ []) (
    push-IsFreeList 4128 one_listed.0 one_listed.1 (4096 ∷ []) (omega arith) (omega arith)
      (inl (omega arith), tt) one_listed-Is)

-- A full class of the cache, to which another block goes.
abbrev full_cache : ThreadCache
full_cache = set empty_cache 3 (replicate 64 4096)

full_cache-Bounded : Bounded full_cache
full_cache-Bounded =
    set-Bounded empty_cache 3 (replicate 64 4096)
      (λ k. rw (get_or-replicate {A = List Ptr} class_count k []) (omega arith)) (omega arith)

cache_free-Bounded_example : Bounded (cache_free 3 8192 full_cache empty_pools fresh_world).0
cache_free-Bounded_example =
    cache_free-Bounded 3 8192 full_cache empty_pools fresh_world full_cache-Bounded

cache_allocate-cache_free_example :
    let freed = cache_free 3 8192 full_cache empty_pools fresh_world in
    let taken = cache_allocate flat_os 3 freed.0 freed.1 freed.2 in
    (taken.0 ≡ some 8192) × (taken.2 ≡ freed.1) × (taken.3 ≡ freed.2)
cache_allocate-cache_free_example =
    cache_allocate-cache_free flat_os 3 8192 full_cache empty_pools fresh_world (omega arith)
