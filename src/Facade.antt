-- ===== src/Facade.antt =====
-- include/MAlloc/Allocator.hpp and src/Allocator.cpp: the public class over an implementation that a
-- move leaves empty.
pub mod Adapters
pub mod Laws
use m_alloc.Base.{ℕ, Bool, true, false, Option, none, some}
use m_alloc.Memory.{Ptr, null}
use m_alloc.Config.{Config, Error, Result, ok, err, out_of_memory, invalid_pointer, release_config}
use m_alloc.SystemMemory.{World}
use m_alloc.Statistics.{Doubles, Snapshot}
use m_alloc.Impl.{State, Env, Run, done, aborted, Cmd, initial}
use m_alloc.Impl.Allocate
use m_alloc.Impl.Deallocate
use m_alloc.Impl.Reallocate

-- impl_
abbrev pub Allocator : Type 0
Allocator = Option State

-- What a call of the facade ends with.
pub data Call {ℓ} (A : Type ℓ) : Type ℓ where
  returned : A → Allocator → Call A
  stopped : State → Call A

abbrev pub forward {ℓ κ} : {A : Type ℓ} {B : Type κ} → (A → B) → Run A → Call B
forward f (done a s) = returned (f a) (some s)
forward f (aborted s) = stopped s

-- std::expected::value_or(nullptr)
abbrev pub value_or_null : Result Ptr → Ptr
value_or_null (ok p) = p
value_or_null (err e) = null

unfoldable pub allocate : Env → ℕ → Allocator → Call Ptr
allocate env size none = returned null none
allocate env size (some s) = forward value_or_null (Allocate.allocate env size s)

unfoldable pub deallocate : Env → Ptr → Allocator → Call (Unit {0})
deallocate env p none = returned tt none
deallocate env p (some s) = forward (λ _. tt) (Deallocate.deallocate env p s)

unfoldable pub reallocate : Env → Ptr → ℕ → Allocator → Call Ptr
reallocate env p new_size none = returned null none
reallocate env p new_size (some s) = forward value_or_null (Reallocate.reallocate env p new_size s)

unfoldable pub aligned_allocate : Env → ℕ → ℕ → Allocator → Call Ptr
aligned_allocate env alignment size none = returned null none
aligned_allocate env alignment size (some s) =
    forward value_or_null (Allocate.aligned_allocate env alignment size s)

unfoldable pub try_allocate : Env → ℕ → Allocator → Call (Result Ptr)
try_allocate env size none = returned (err out_of_memory) none
try_allocate env size (some s) = forward (λ r. r) (Allocate.allocate env size s)

unfoldable pub try_deallocate : Env → Ptr → Allocator → Call (Result (Unit {0}))
try_deallocate env p none = returned (err invalid_pointer) none
try_deallocate env p (some s) = forward (λ r. r) (Deallocate.deallocate env p s)

unfoldable pub try_aligned_allocate : Env → ℕ → ℕ → Allocator → Call (Result Ptr)
try_aligned_allocate env alignment size none = returned (err out_of_memory) none
try_aligned_allocate env alignment size (some s) =
    forward (λ r. r) (Allocate.aligned_allocate env alignment size s)

unfoldable pub allocation_size : Ptr → Allocator → ℕ
allocation_size p none = 0
allocation_size p (some s) = Reallocate.allocation_size p s

unfoldable pub config : Allocator → Config
config none = release_config
config (some s) = s.config

unfoldable pub live_allocation_count : Allocator → ℕ
live_allocation_count none = 0
live_allocation_count (some s) = Reallocate.live_allocation_count s

-- The constructors: an implementation in its first state, over the world as it is.
abbrev pub create : Config → World → Allocator
create config w = some (initial config w)

abbrev pub create_default : World → Allocator
create_default w = create release_config w

-- What the destructor prints: nothing for an allocator that was moved from.
abbrev pub destroy : Allocator → Option ℕ
destroy none = none
destroy (some s) = Reallocate.leaks s

-- The move constructor: the new allocator, and what is left of the other.
abbrev pub move_from : Allocator → Allocator × Allocator
move_from other = (other, none)

-- Move assignment from another object: this one, the other, and what the destructor of the old
-- implementation prints.
abbrev pub move_assign : Allocator → Allocator → Allocator × Allocator × Option ℕ
move_assign this other = (other, none, destroy this)

module _ (d : Doubles) where
  open d use {of_count}

  -- StatisticsSnapshot{}
  abbrev pub zero_snapshot : Snapshot d
  zero_snapshot = record {
    allocation_count = 0;
    free_count = 0;
    active_allocations = 0;
    current_usage = 0;
    peak_usage = 0;
    allocated_bytes = 0;
    freed_bytes = 0;
    reserved_bytes = 0;
    internal_fragmentation = of_count 0;
    external_fragmentation = of_count 0;
  }

  unfoldable pub statistics : Allocator → Snapshot d
  statistics none = zero_snapshot
  statistics (some s) = Reallocate.statistics d s
