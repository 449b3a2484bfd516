-- ===== src/Impl.antt =====
-- src/AllocatorImpl.{hpp,cpp} and src/CentralState.hpp: the state of an allocator, and the commands
-- over it. A command ends with a value, or by `std::abort`.
pub mod Raw
pub mod Allocate
pub mod Deallocate
pub mod Reallocate
pub mod Frame
pub mod Shim
pub mod Handing
pub mod Giving
pub mod Returning
pub mod Reach
pub mod Moving
pub mod Aligned
use m_alloc.Base.{
  ℕ, ◌+◌, ◌-◌, ◌*◌, ◌^◌, Bool, true, false, if◌then◌else◌, List, [], ◌∷◌, Option, none, some, ◌==◌,
}
use m_alloc.Memory.{Ptr, Bytes}
use m_alloc.Config.{Config, Error, Result, ok, err}
use m_alloc.SystemMemory.{World, Os}
use m_alloc.Pool.{Pools, empty_pools}
use m_alloc.ThreadCache.{ThreadCache, empty_cache}
use m_alloc.Segment.Bins.{SegmentHeap, empty_heap}
use m_alloc.Large.{Registry}
use m_alloc.Statistics.{Counters, zero_counters}
use m_alloc.Debug.{Tracker, empty_tracker}

-- A thread's entry of `tlsCaches` for this allocator: none, one left by an earlier allocator at the
-- same address, or a live cache.
pub data Slot : Type 0 where
  absent expired : Slot
  cached : ThreadCache → Slot

-- What the handler was called with, or what was printed where there is none.
pub record Report : Type 0 where
  pub error : Error
  pub ptr : Ptr
  pub to_handler : Bool

-- The members stand outside of the byte memory: a program's stray write to the objects of the
-- allocator itself is not modelled.
pub record State : Type 0 where
  pub config : Config
  pub stats : Counters
  pub pools : Pools
  pub segments : SegmentHeap
  pub large : Registry
  pub tracker : Tracker
  pub caches : ℕ → Slot
  pub world : World
  -- Newest first.
  pub reports : List Report

abbrev pub initial : Config → World → State
initial config w = record {
  config = config;
  stats = zero_counters;
  pools = empty_pools;
  segments = empty_heap;
  large = [];
  tracker = empty_tracker;
  caches = λ _. Slot.absent;
  world = w;
  reports = [];
}

-- The system, the calling thread, and whether the C++ runtime has memory for a cache of the thread.
pub record Env : Type 0 where
  pub os : Os
  pub thread : ℕ
  pub tls_ok : Bool

abbrev pub max_request : ℕ
max_request = 2 ^ 46

abbrev pub max_alignment : ℕ
max_alignment = 2 ^ 30

pub data Run {ℓ} (A : Type ℓ) : Type ℓ where
  done : A → State → Run A
  aborted : State → Run A

abbrev pub Cmd {ℓ} : Type ℓ → Type ℓ
Cmd A = State → Run A

abbrev pub pure {ℓ} : {A : Type ℓ} → A → Cmd A
pure a s = done a s

module _ {ℓ κ} {A : Type ℓ} {B : Type κ} where
  abbrev pub and_then : Run A → (A → Cmd B) → Run B
  and_then (done a s) k = k a s
  and_then (aborted s) k = aborted s

  infixl 5 ◌>>=◌ ◌>>◌
  abbrev pub ◌>>=◌ : Cmd A → (A → Cmd B) → Cmd B
  m >>= k = λ s. and_then (m s) k

  abbrev pub ◌>>◌ : Cmd A → Cmd B → Cmd B
  m >> n = m >>= λ _. n

abbrev pub get : Cmd State
get s = done s s

abbrev pub modify : (State → State) → Cmd (Unit {0})
modify f s = done tt (f s)

abbrev pub set_bytes : Bytes → State → State
set_bytes m s = record s { world = record s.world { bytes = m } }

abbrev pub when : Bool → Cmd (Unit {0}) → Cmd (Unit {0})
when b c = if b then c else pure tt

-- The message goes to the handler or to stderr; the handler is taken to change nothing here.
unfoldable pub report : Error → Ptr → Cmd (Unit {0})
report e p s =
    let s' = record s {
      reports = record { error = e; ptr = p; to_handler = s.config.has_handler } ∷ s.reports;
    } in
    if s.config.abort_on_error then aborted s' else done tt s'

-- `report(error, ptr); return std::unexpected(error);`
abbrev pub fail {ℓ} : {A : Type ℓ} → Error → Ptr → Cmd (Result A)
fail e p = report e p >> pure (err e)

-- `if (!r) { report(r.error(), ptr); return std::unexpected(r.error()); }` and what follows.
abbrev pub or_fail {ℓ κ} :
    {A : Type ℓ} {B : Type κ} → Ptr → (A → Cmd (Result B)) → Result A → Cmd (Result B)
or_fail p k (ok a) = k a
or_fail p k (err e) = fail e p
