-- ===== src/Statistics.antt =====
-- src/StatisticsCollector.hpp and include/MAlloc/Statistics.hpp: eight 64-bit counters that wrap.
-- Here each call is one step; `Statistics.Peak` takes the loop of `updatePeak` apart.
pub mod Exact
pub mod Peak
use m_alloc.Base.{ℕ, ◌+◌, ◌-◌, ◌%◌, ltb, if◌then◌else◌, Bool, List, [], ◌∷◌}
use m_alloc.Header.{word}

pub record Counters : Type 0 where
  pub allocation_count : ℕ
  pub free_count : ℕ
  pub active_allocations : ℕ
  pub live_requested : ℕ
  pub live_reserved : ℕ
  pub peak_usage : ℕ
  pub allocated_bytes : ℕ
  pub freed_bytes : ℕ

abbrev pub zero_counters : Counters
zero_counters = record {
  allocation_count = 0;
  free_count = 0;
  active_allocations = 0;
  live_requested = 0;
  live_reserved = 0;
  peak_usage = 0;
  allocated_bytes = 0;
  freed_bytes = 0;
}

-- fetch_add and fetch_sub of a std::atomic<std::uint64_t>.
abbrev pub fetch_add : ℕ → ℕ → ℕ
fetch_add x n = (x + n) % word

abbrev pub fetch_sub : ℕ → ℕ → ℕ
fetch_sub x n = (x + word - n % word) % word

-- The loop of `updatePeak` run alone: the exchange succeeds at the latest when it is tried again.
unfoldable pub update_peak : ℕ → Counters → Counters
update_peak current c = if ltb c.peak_usage current then record c { peak_usage = current } else c

unfoldable pub record_allocation : ℕ → ℕ → Counters → Counters
unfolding update_peak
record_allocation requested reserved c =
    let c1 = record c {
      allocation_count = fetch_add c.allocation_count 1;
      allocated_bytes = fetch_add c.allocated_bytes requested;
      live_requested = fetch_add c.live_requested requested;
      live_reserved = fetch_add c.live_reserved reserved;
      active_allocations = fetch_add c.active_allocations 1;
    } in
    update_peak c1.live_requested c1

unfoldable pub record_free : ℕ → ℕ → Counters → Counters
record_free requested reserved c = record c {
  free_count = fetch_add c.free_count 1;
  freed_bytes = fetch_add c.freed_bytes requested;
  live_requested = fetch_sub c.live_requested requested;
  live_reserved = fetch_sub c.live_reserved reserved;
  active_allocations = fetch_sub c.active_allocations 1;
}

-- The doubles of the program: the operations that a snapshot uses.
pub record Doubles : Type 1 where
  pub Double : Type 0
  pub of_count : ℕ → Double
  pub subtract : Double → Double → Double
  pub divide : Double → Double → Double
  pub exceeds : Double → Double → Bool

module _ (d : Doubles) where
  open d use {Double, of_count, subtract, divide, exceeds}

  pub record Snapshot : Type 0 where
    pub allocation_count : ℕ
    pub free_count : ℕ
    pub active_allocations : ℕ
    pub current_usage : ℕ
    pub peak_usage : ℕ
    pub allocated_bytes : ℕ
    pub freed_bytes : ℕ
    pub reserved_bytes : ℕ
    pub internal_fragmentation : Double
    pub external_fragmentation : Double

  unfoldable pub snapshot : Counters → Double → Snapshot
  snapshot c external =
      let reserved = of_count c.live_reserved in
      let requested = of_count c.live_requested in
      record {
        allocation_count = c.allocation_count;
        free_count = c.free_count;
        active_allocations = c.active_allocations;
        current_usage = c.live_requested;
        peak_usage = c.peak_usage;
        allocated_bytes = c.allocated_bytes;
        freed_bytes = c.freed_bytes;
        reserved_bytes = c.live_reserved;
        internal_fragmentation =
            if exceeds reserved (of_count 0)
            then divide (subtract reserved requested) reserved
            else of_count 0;
        external_fragmentation = external;
      }
