-- ===== src/Tests/Big.antt =====
-- The large tier: an empty registry, and one with a mapping.
use m_alloc.Base.{refl, [], ◌∷◌, arith, inl}
use m_alloc.SystemMemory.{Region, World, within, covered}
use m_alloc.Pool.Invariant.{Share}
use m_alloc.Large.{Registry, large_allocate, large_deallocate}
use m_alloc.Large.Registry.{regions}
use m_alloc.Large.Ownership.{LargeInv, LargeResult, large_allocate-LargeResult}
use m_alloc.Large.Release.{FreeResult, large_deallocate-FreeResult}
use m_alloc.Tests.Kernel.{flat_os, flat_os-Documented, fresh_world}

abbrev no_one : Share
no_one a = 0

abbrev mapping : Region
mapping = record { base = 4096; size = 8192 }

abbrev registry : Registry
registry = (4112, mapping) ∷ []

abbrev mapped_world : World
mapped_world = record { bytes = λ _. 0; mapped = mapping ∷ []; calls = 1 }

fresh-Inv : LargeInv no_one [] fresh_world
unfolding covered regions
fresh-Inv = record {
  keyed = tt;
  listed = tt;
  non_empty = tt;
  live = λ a. omega arith;
  single = λ a. omega arith;
}

registry-Inv : LargeInv no_one registry mapped_world
unfolding covered regions within
registry-Inv = record {
  keyed = ((refl, omega arith), tt);
  listed = (inl refl, tt);
  non_empty = (omega arith, tt);
  live = λ a. omega arith;
  single = λ a. ground arith;
}

large_allocate-LargeResult_example :
    LargeResult flat_os 300000 no_one [] fresh_world (large_allocate flat_os 300000 [] fresh_world)
large_allocate-LargeResult_example =
    large_allocate-LargeResult flat_os flat_os-Documented 300000 no_one [] fresh_world fresh-Inv
      (omega arith)

large_deallocate-FreeResult_example :
    FreeResult no_one 4112 registry mapped_world (large_deallocate 4112 registry mapped_world)
large_deallocate-FreeResult_example =
    large_deallocate-FreeResult no_one 4112 registry mapped_world registry-Inv
