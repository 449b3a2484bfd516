-- ===== src/Impl/Deallocate.antt =====
-- `deallocate`.
use m_alloc.Base.{ℕ, ◌-◌, Bool, not, ◌&&◌, ◌||◌, if◌then◌else◌, ◌==◌, Option, some}
use m_alloc.Memory.{Ptr, null}
use m_alloc.Config.{Result, ok, invalid_pointer, double_free, heap_corruption}
use m_alloc.Header.{
  Tier, BlockHeader, header_of, read_header, set_state, has_valid_tier, tier_value, state_allocated,
  state_freed,
}
use m_alloc.Debug.{verify_guards, poison_on_free, is_tracked, was_freed, untrack}
use m_alloc.Statistics.{record_free}
use m_alloc.Impl.{
  State, Env, done, Cmd, ◌>>=◌, ◌>>◌, get, modify, set_bytes, when, report, fail, or_fail,
}
use m_alloc.Impl.Raw.{raw_deallocate}

abbrev pub raw_free : Env → Ptr → Cmd (Result ℕ)
raw_free env raw s = let (r, s') = raw_deallocate env raw s in done r s'

abbrev pub header_at : Ptr → State → BlockHeader
header_at p s = read_header (header_of p) s.world.bytes

abbrev pub poison_freed : Ptr → ℕ → State → State
poison_freed p size s =
    if s.config.enable_poisoning then set_bytes (poison_on_free p size s.world.bytes) s else s

-- The payload of a shim, and the shim itself, are given up before the block below.
abbrev pub retire_shim : Ptr → ℕ → State → State
retire_shim p size s =
    let s' = poison_freed p size s in
    set_bytes (set_state (header_of p) state_freed s'.world.bytes) s'

unfoldable pub guards_broken : Ptr → ℕ → State → Bool
guards_broken p size s = s.config.enable_guard_bytes && not (verify_guards p size s.world.bytes)

-- The switch over the tier.
unfoldable pub free_tier : Env → Ptr → BlockHeader → Option Tier → Cmd (Result ℕ)
unfolding guards_broken
free_tier env p h (some Tier.debug_shim) = do
  s ← get
  when (guards_broken p h.payload_size s) (report heap_corruption p)
  modify (retire_shim p h.payload_size)
  s' ← get
  raw_free env (p - (header_at p s').offset)
free_tier env p h (some Tier.aligned_shim) = do
  modify (retire_shim p h.payload_size)
  s' ← get
  raw_free env (p - (header_at p s').offset)
free_tier env p h other = do modify (poison_freed p h.payload_size); raw_free env p

-- Statistics and the registry, for a block that was given back.
unfoldable pub take_back : Ptr → ℕ → ℕ → State → State
take_back p requested reserved s =
    let s1 = record s { stats = record_free requested reserved s.stats } in
    if s1.config.enable_leak_tracking then record s1 { tracker = (untrack p s1.tracker).1 } else s1

unfoldable pub free_block_at : Env → Ptr → BlockHeader → Cmd (Result (Unit {0}))
unfolding free_tier take_back
free_block_at env p h =
    free_tier env p h (tier_value h)
    >>= or_fail p λ reserved s. done (ok tt) (take_back p h.payload_size reserved s)

-- The tests of the header.
unfoldable pub check_header : Env → Ptr → BlockHeader → Cmd (Result (Unit {0}))
unfolding free_block_at
check_header env p h =
    if not (has_valid_tier h) || (not (h.state == state_allocated) && not (h.state == state_freed))
    then fail invalid_pointer p
    else if h.state == state_freed
    then fail double_free p
    else free_block_at env p h

unfoldable pub deallocate : Env → Ptr → Cmd (Result (Unit {0}))
unfolding check_header
deallocate env p s =
    if p == null
    then done (ok tt) s
    else if s.config.enable_leak_tracking && not (is_tracked p s.tracker)
    then fail (if was_freed p s.tracker then double_free else invalid_pointer) p s
    else check_header env p (header_at p s) s
