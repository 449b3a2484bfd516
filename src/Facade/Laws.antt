-- ===== src/Facade/Laws.antt =====
-- What the adapters ask the allocator for.
use native.Mathlib.Nat.{div-lt_iff_lt-mul}
use m_alloc.Base.{
  ℕ, ◌-◌, ◌*◌, ◌/◌, ◌<◌, ◌≡◌, ◌≢◌, refl, arith, ltb, if◌then◌else◌, Option, none, some, ◌==◌,
  if_intro, Bool-cases, inl, inr, ◌%◌,
}
use m_alloc.Memory.{Ptr, null}
use m_alloc.Header.{word}
use m_alloc.Impl.{Env}
use m_alloc.Facade.{Allocator, Call, returned, stopped}
use m_alloc.Facade.Adapters.{or_throw, by_alignment, stl_allocate, do_allocate}

-- The quotient test is the test of the product.
too_many :
    (size count : ℕ) → 0 < size → ltb ((word - 1) / size) count ≡ ltb (word - 1) (count * size)
too_many size count pos =
    ground (arith, div-lt_iff_lt-mul {k = size} {x = word - 1} {y = count} pos)

-- An adapter never hands out null.
abbrev pub Real : Call (Option Ptr) → Type 0
Real (returned none a) = Unit {0}
Real (returned (some p) a) = p ≢ null
Real (stopped s) = Unit {0}

or_throw-Real : (c : Call Ptr) → Real (or_throw c)
or_throw-Real (returned p a) =
    if_intro (λ (o : Option Ptr). Real (returned o a)) (p == null) (λ e. tt) (λ ne. ground arith)
or_throw-Real (stopped s) = tt

-- `MemoryResource::do_allocate` throws where the allocator returns null, and so never returns null.
pub do_allocate-Real :
    (env : Env) (bytes alignment : ℕ) (a : Allocator) → Real (do_allocate env bytes alignment a)
unfolding do_allocate
do_allocate-Real env bytes alignment a = or_throw-Real (by_alignment env alignment bytes a)

-- `StlAllocator::allocate` for an element size that is not 0: where the product of count and size
-- fits 64 bits, the wrapping product that it asks the allocator for is the exact one; where it does
-- not fit, it throws without asking. It never returns null.
pub stl_allocate-exact :
    (env : Env) (size_of align_of count : ℕ) (a : Allocator)
    → 0 < size_of
    → (stl_allocate env size_of align_of count a ≡ (
        if ltb (word - 1) (count * size_of)
        then returned none a
        else do_allocate env (count * size_of) align_of a))
      × Real (stl_allocate env size_of align_of count a)
unfolding stl_allocate do_allocate
stl_allocate-exact env size_of align_of count a pos =
    rw (too_many size_of count pos) (elim (Bool-cases (ltb (word - 1) (count * size_of))) [
      | inl over ↦ rw over (refl, tt)
      | inr fits ↦
          let exact : count * size_of % word ≡ count * size_of = ground (arith, fits) in
          rw (fits, exact) (refl, or_throw-Real (by_alignment env align_of (count * size_of) a))
    ])
