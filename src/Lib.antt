-- ===== src/Lib.antt =====
-- m-alloc, a memory allocator with three tiers (src/ and include/MAlloc/), modelled over a byte memory.
--
-- The parts, from below:
-- - Memory: the address space as a function from addresses to bytes, with little-endian loads and
--   stores. Pointers are numbers and 0 is null.
-- - Header: src/BlockHeader.hpp. Every block has a header of sixteen bytes before the user's pointer.
-- - SizeClass: src/SizeClassTable.hpp. The lookup table is built by the source's loop.
-- - SystemMemory: src/SystemMemory.{hpp,cpp}. `Os` is what the code takes from the system: a page size
--   and `mmap`, with the documented behaviour as the hypothesis `Documented`. A `World` is the memory,
--   the live mappings, and how often the system was called.
-- - FreeList: src/FreeList.hpp, the intrusive list of a size class.
-- - Pool: src/PoolAllocator.{hpp,cpp}, the small tier. Sizes up to 4096.
-- - ThreadCache: src/ThreadCache.{hpp,cpp}, a thread's blocks in front of the small tier.
-- - Segment: src/SegmentHeap.{hpp,cpp}, the medium tier, with tags and free lists in memory. Tag,
--   Bins and Ops model it. Segment/Heap looks at the same memory as a map from addresses to cells
--   (`View`) and has the invariant: tags say what the cells say, blocks lie behind one another in
--   segments and know their neighbours, no two neighbours are free, and bin i links exactly the
--   free blocks of its sizes. Its modules take one step of the code each: Marks (insertFree,
--   removeFree), Beyond (memory outside the segments), Cut and Split (splitBlock), Join and Merge
--   (the merges of deallocate), Tell, Release, Grow, Freed, and Allocate and Deallocate put them
--   together. Client is a caller of any number of calls, which also writes to its payloads.
-- - Large: src/LargeAllocator.{hpp,cpp}, one mapping for each block.
-- - Debug: src/DebugLayer.hpp. Statistics: src/StatisticsCollector.hpp. Config:
--   include/MAlloc/{Config,Error}.hpp.
-- - Impl: src/AllocatorImpl.{hpp,cpp} and src/CentralState.hpp. `State` joins the tiers, the caches
--   of the threads, the statistics, the registry, the world, and the errors reported so far; an
--   operation is a command over it that returns a value or aborts. Impl/Raw is rawAllocate and
--   rawDeallocate, Impl/Allocate allocate and alignedAllocate, Impl/Deallocate deallocate,
--   Impl/Reallocate reallocate, allocationSize and statistics. How they end: Impl/Handing, Impl/Giving
--   and Impl/Returning, Impl/Moving, Impl/Aligned; Impl/Reach has the states that calls lead to.
-- - Facade: src/Allocator.cpp, and in Facade/Adapters include/MAlloc/{StlAllocator,MemoryResource}.hpp.
--
-- How state and operations correspond: a class is a record of its members, a method a function from
-- the state to its result and the new state, a mutated pointer a write to the byte memory. A lock
-- makes an operation of a tier one step, so a run of threads is a sequence of operations; the atomic
-- counters of the statistics are also modelled one atomic operation at a time (Statistics/Peak).
-- Words are numbers below 2 ^ 64, with the wrap-around written out where the source may wrap.
--
-- Ownership is counted: a share of the address space says how often each address is claimed, and an
-- invariant says that free blocks, blocks in use and what other parts hold add up to no more than the
-- live mappings, each of which covers an address at most once. So no two blocks meet.
--
-- Bounds and fuel: the loops of popBatch, allocateBatch and the guards run over their counts, and the
-- table's loop over its slots. The walks through a bin of the medium tier (`fit_in_bin`, `bin_usage`)
-- have the sum of the segments' sizes and one as fuel. A bin's blocks start at different addresses of
-- the segments, so it holds fewer blocks than that (Segment/Heap/Fuel); the theorems on the walks
-- alone take it as the hypothesis `Bins`.
--
-- Not modelled: the Windows branch of SystemMemory; what an error handler does; failures of the
-- registry's own containers; doubles, which are a parameter (`Doubles`) of the snapshot; the unmapping
-- when the last owner of a central state goes; stray writes of the program to the allocator's own
-- objects, since `State` keeps configuration, statistics and registry outside of the byte memory; the
-- undefined read behind the size class table for a small header that the program has overwritten,
-- which gives class 0 here; the version header, tests, benchmarks and examples.
pub mod Base
pub mod Memory
pub mod Header
pub mod SizeClass
pub mod SystemMemory
pub mod FreeList
pub mod Pool
pub mod ThreadCache
pub mod Large
mod Tests
pub mod Segment
pub mod Debug
pub mod Statistics
pub mod Config
pub mod Impl
pub mod Facade
