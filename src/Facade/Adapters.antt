-- ===== src/Facade/Adapters.antt =====
-- include/MAlloc/StlAllocator.hpp and include/MAlloc/MemoryResource.hpp: the two adapters, which
-- throw `std::bad_alloc` where the allocator returns null.
use m_alloc.Base.{ℕ, ◌-◌, ◌*◌, ◌/◌, ◌%◌, ltb, if◌then◌else◌, ◌==◌, Bool, Option, none, some}
use m_alloc.Memory.{Ptr, null}
use m_alloc.Header.{word}
use m_alloc.Impl.{Env}
use m_alloc.Facade.{Allocator, Call, returned, stopped, allocate, deallocate, aligned_allocate}

-- `none` is the exception.
abbrev pub or_throw : Call Ptr → Call (Option Ptr)
or_throw (returned p a) = returned (if p == null then none else some p) a
or_throw (stopped s) = stopped s

-- The choice of the two adapters between the regular and the aligned path.
abbrev pub by_alignment : Env → ℕ → ℕ → Allocator → Call Ptr
by_alignment env alignment bytes a =
    if ltb 16 alignment then aligned_allocate env alignment bytes a else allocate env bytes a

-- StlAllocator<T>::allocate, for sizeof(T) and alignof(T).
unfoldable pub stl_allocate : Env → (size_of align_of count : ℕ) → Allocator → Call (Option Ptr)
stl_allocate env size_of align_of count a =
    if ltb ((word - 1) / size_of) count
    then returned none a
    else or_throw (by_alignment env align_of (count * size_of % word) a)

unfoldable pub stl_deallocate : Env → Ptr → Allocator → Call (Unit {0})
stl_deallocate env p a = deallocate env p a

-- MemoryResource::do_allocate and do_deallocate.
unfoldable pub do_allocate : Env → ℕ → ℕ → Allocator → Call (Option Ptr)
do_allocate env bytes alignment a = or_throw (by_alignment env alignment bytes a)

unfoldable pub do_deallocate : Env → Ptr → Allocator → Call (Unit {0})
do_deallocate env p a = deallocate env p a

-- The two adapters hold the address of their allocator. Converting a StlAllocator to another element
-- type keeps it, and two are equal when they have the same.
pub record StlAllocator : Type 0 where
  pub underlying : Ptr

abbrev pub convert : StlAllocator → StlAllocator
convert other = record { underlying = other.underlying }

abbrev pub is_same : StlAllocator → StlAllocator → Bool
is_same this other = this.underlying == other.underlying

-- MemoryResource::do_is_equal compares the addresses of the resources themselves.
abbrev pub do_is_equal : Ptr → Ptr → Bool
do_is_equal this other = this == other
