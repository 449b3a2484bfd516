-- ===== src/Impl/Allocate.antt =====
-- `allocate` and `alignedAllocate`.
use m_alloc.Base.{ℕ, ◌+◌, ◌-◌, ◌%◌, ◌^◌, not, ◌||◌, if◌then◌else◌, leb, ltb, ◌==◌}
use m_alloc.Memory.{Ptr, null}
use m_alloc.Config.{Result, ok, size_overflow, invalid_alignment}
use m_alloc.Header.{Tier, default_alignment, header_of, write_header, align_up, is_power_of_two}
use m_alloc.Debug.{guarded_size, guarded_user, apply_guards, poison_on_allocate, track}
use m_alloc.Statistics.{record_allocation}
use m_alloc.Impl.{
  State, Env, done, Cmd, ◌>>=◌, ◌>>◌, modify, set_bytes, fail, or_fail, max_request, max_alignment,
}
use m_alloc.Impl.Raw.{RawAllocation, raw_allocate}

abbrev pub raw_alloc : Env → ℕ → Cmd (Result RawAllocation)
raw_alloc env size s = let (r, s') = raw_allocate env size s in done r s'

abbrev pub one_at_least : ℕ → ℕ
one_at_least size = if size == 0 then 1 else size

-- Poison, statistics and the registry, for a block that is handed out.
unfoldable pub hand_out : Ptr → ℕ → ℕ → State → State
hand_out user size reserved s =
    let s1 =
      (if s.config.enable_poisoning
        then set_bytes (poison_on_allocate user size s.world.bytes) s
        else s) in
    let s2 = record s1 { stats = record_allocation size reserved s1.stats } in
    if s2.config.enable_leak_tracking
    then record s2 { tracker = track user size s2.tracker }
    else s2

abbrev pub finish : Ptr → ℕ → ℕ → Cmd (Result Ptr)
finish user size reserved s = done (ok user) (hand_out user size reserved s)

unfoldable pub guarded : ℕ → RawAllocation → Cmd (Result Ptr)
guarded size raw = do
  modify λ s. set_bytes (apply_guards raw.user size s.world.bytes) s
  finish (guarded_user raw.user) size raw.reserved

-- `allocate` behind the test of the size.
unfoldable pub allocate_sized : Env → ℕ → Cmd (Result Ptr)
unfolding guarded
allocate_sized env size s =
    if s.config.enable_guard_bytes
    then (raw_alloc env (guarded_size size) >>= or_fail null (guarded size)) s
    else (raw_alloc env size >>= or_fail null (λ raw. finish raw.user size raw.reserved)) s

unfoldable pub allocate : Env → ℕ → Cmd (Result Ptr)
unfolding allocate_sized
allocate env size =
    if ltb max_request (one_at_least size)
    then fail size_overflow null
    else allocate_sized env (one_at_least size)

-- The first multiple of the alignment behind the address.
unfoldable pub aligned_user : Ptr → ℕ → Ptr
aligned_user address alignment =
    if align_up address alignment == address
    then align_up address alignment + alignment
    else align_up address alignment

unfoldable pub place_shim : ℕ → ℕ → RawAllocation → Cmd (Result Ptr)
unfolding aligned_user
place_shim alignment size raw = do
  let user = aligned_user raw.user alignment
  modify λ s.
      set_bytes
        (write_header (header_of user) size Tier.aligned_shim ((user - raw.user) % 2 ^ 32)
          s.world.bytes)
        s
  finish user size raw.reserved

unfoldable pub aligned_sized : Env → ℕ → ℕ → Cmd (Result Ptr)
unfolding place_shim
aligned_sized env alignment size =
    raw_alloc env (size + alignment) >>= or_fail null (place_shim alignment size)

unfoldable pub aligned_allocate : Env → ℕ → ℕ → Cmd (Result Ptr)
unfolding aligned_sized
aligned_allocate env alignment size =
    if not (is_power_of_two alignment) || ltb max_alignment alignment
    then fail invalid_alignment null
    else if leb alignment default_alignment
    then allocate env size
    else if ltb max_request (one_at_least size)
    then fail size_overflow null
    else aligned_sized env alignment (one_at_least size)
