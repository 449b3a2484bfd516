-- ===== src/Impl/Reallocate.antt =====
-- `allocationSize`, `reallocate`, `statistics` and the destructor's leak report.
use m_alloc.Base.{ℕ, not, ◌&&◌, ◌||◌, if◌then◌else◌, ◌==◌, ltb, Option, none, some, min}
use m_alloc.Memory.{Ptr, null, copy}
use m_alloc.Config.{Result, ok, err, invalid_pointer}
use m_alloc.Header.{has_valid_tier, state_allocated}
use m_alloc.Debug.{is_tracked, live_count}
use m_alloc.Statistics.{Doubles, Snapshot, snapshot}
use m_alloc.Segment.Ops.{free_usage}
use m_alloc.Impl.{State, Env, Cmd, ◌>>=◌, ◌>>◌, pure, modify, set_bytes, fail}
use m_alloc.Impl.Allocate.{allocate}
use m_alloc.Impl.Deallocate.{deallocate, header_at}

unfoldable pub allocation_size : Ptr → State → ℕ
allocation_size p s =
    if p == null
    then 0
    else if s.config.enable_leak_tracking && not (is_tracked p s.tracker)
    then 0
    else if not (has_valid_tier (header_at p s)) || not ((header_at p s).state == state_allocated)
    then 0
    else (header_at p s).payload_size

-- `return std::unexpected(r.error());`, and what follows on success.
abbrev pub or_pass {ℓ κ} :
    {A : Type ℓ} {B : Type κ} → (A → Cmd (Result B)) → Result A → Cmd (Result B)
or_pass k (ok a) = k a
or_pass k (err e) = pure (err e)

unfoldable pub move_to : Env → Ptr → ℕ → Ptr → Cmd (Result Ptr)
move_to env p size fresh = do
  modify λ s. set_bytes (copy fresh p size s.world.bytes) s
  freed ← deallocate env p
  or_pass (λ _. pure (ok fresh)) freed

unfoldable pub reallocate_live : Env → Ptr → ℕ → ℕ → Cmd (Result Ptr)
unfolding move_to
reallocate_live env p old new_size =
    if old == 0
    then fail invalid_pointer p
    else allocate env new_size >>= or_pass (move_to env p (min old new_size))

unfoldable pub reallocate : Env → Ptr → ℕ → Cmd (Result Ptr)
unfolding reallocate_live
reallocate env p new_size s =
    if p == null
    then allocate env new_size s
    else if new_size == 0
    then (deallocate env p >>= or_pass (λ _. pure (ok null))) s
    else reallocate_live env p (allocation_size p s) new_size s

module _ (d : Doubles) where
  open d use {Double, of_count, subtract, divide}

  -- `externalFragmentation`, from the free bytes and the largest free block.
  unfoldable pub external_fragmentation : ℕ → ℕ → Double
  external_fragmentation free largest =
      if free == 0
      then of_count 0
      else subtract (of_count 1) (divide (of_count largest) (of_count free))

  unfoldable pub statistics : State → Snapshot d
  statistics s =
      let (free, largest) = free_usage s.segments s.world.bytes in
      snapshot d s.stats (external_fragmentation free largest)

unfoldable pub live_allocation_count : State → ℕ
live_allocation_count s = live_count s.tracker

-- The number that the destructor prints, if it prints.
unfoldable pub leaks : State → Option ℕ
leaks s =
    if s.config.enable_leak_tracking && ltb 0 (live_count s.tracker)
    then some (live_count s.tracker)
    else none
