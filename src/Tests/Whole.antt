-- ===== src/Tests/Whole.antt =====
-- Runs of the whole allocator that free a block of the large tier twice.
use m_alloc.Base.{◌-◌, ◌*◌, ◌≡◌, refl, none, some, [], ◌∷◌, true}
use m_alloc.Config.{ok, release_config}
use m_alloc.Impl.Reach.{reached-again, start, after, allocates}
use m_alloc.Impl.Aligned.{AlignedBlock, aligned_allocate-AlignedBlock}
use m_alloc.Impl.{State, Env, Run, done, aborted, initial}
use m_alloc.Impl.Allocate.{allocate}
use m_alloc.Impl.Deallocate.{deallocate}
use m_alloc.Base.{◌==◌, if◌then◌else◌, ltb, arith}
use m_alloc.Memory.{Bytes}
use m_alloc.Config.{Config, double_free}
use m_alloc.Header.{state_allocated, word, has_valid_tier, read_header, tier_value}
use m_alloc.Memory.{read_le}
use m_alloc.Impl.Raw.{raw_deallocate}
use m_alloc.Large.{large_deallocate, find, large_capacity}
use m_alloc.SystemMemory.{Region}
use m_alloc.Debug.{is_tracked, was_freed, has_key, holds}
use m_alloc.Debug.Registry.{IsTracker}
use m_alloc.Impl.{fail}
use m_alloc.Facade.{returned}
use m_alloc.Facade.Adapters.{stl_allocate, do_allocate}
use m_alloc.Facade.Laws.{stl_allocate-exact, Real}
use m_alloc.Impl.Raw.{raw_allocate, RawAllocation}
use m_alloc.Large.{large_allocate, register, emplace}
use m_alloc.SystemMemory.{is_valid, sys_map, round_to_pages}
use m_alloc.Impl.Allocate.{hand_out}
use m_alloc.Debug.{track}
use m_alloc.Header.{write_header}
use m_alloc.Memory.{write_le}
use m_alloc.Tests.Kernel.{flat_os, fresh_world}

abbrev env : Env
env = record { os = flat_os; thread = 0; tls_ok = true }

-- A registered block of the large tier, at 4128.
abbrev tracking_config : Config
tracking_config = record release_config { enable_leak_tracking = true }

abbrev header_bytes : Bytes
header_bytes q =
    if q == 4112 then 100 else if q == 4120 then 0x53 else if q == 4122 then state_allocated else 0

abbrev block_region : Region
block_region = record { base = 4096; size = 303104 }

abbrev one_block : State
one_block = record (initial tracking_config fresh_world) {
  large = (4112, block_region) ∷ [];
  tracker = record { live = (4128, 100) ∷ []; freed = [] };
  world = record { bytes = header_bytes; mapped = block_region ∷ []; calls = 1 };
}

abbrev state_of {ℓ} : {A : Type ℓ} → Run A → State
state_of (done a s) = s
state_of (aborted s) = s

one_block-IsTracker : IsTracker one_block.tracker
unfolding is_tracked was_freed has_key holds
one_block-IsTracker = record { live_once = (refl, tt); freed_once = tt; apart = λ p h. refl }

first_free : deallocate env 4128 one_block ≡ done (ok tt) (state_of (deallocate env 4128 one_block))
unfolding deallocate is_tracked has_valid_tier read_header read_le tier_value raw_deallocate
    large_deallocate find
first_free = refl

-- A new allocator that maps one block and frees it.
abbrev new_state : State
new_state = initial tracking_config fresh_world

abbrev mapped_state : State
mapped_state = state_of (allocate env 300000 new_state)

large_given : allocate env 300000 new_state ≡ done (ok 4128) mapped_state
unfolding allocate raw_allocate large_allocate register is_valid sys_map round_to_pages
large_given = refl

large_freed :
    deallocate env 4128 mapped_state ≡ done (ok tt) (state_of (deallocate env 4128 mapped_state))
unfolding allocate deallocate is_tracked has_valid_tier read_header read_le tier_value
    raw_deallocate large_deallocate find raw_allocate large_allocate register is_valid sys_map
    round_to_pages hand_out track write_header write_le emplace
large_freed = refl

reached-again_example :
    deallocate env 4128 (state_of (deallocate env 4128 mapped_state))
    ≡ fail double_free 4128 (state_of (deallocate env 4128 mapped_state))
reached-again_example =
    reached-again tracking_config fresh_world env env 4128 mapped_state
      (state_of (deallocate env 4128 mapped_state)) refl
      (after start (allocates env 300000 (ok 4128) large_given)) (omega arith) large_freed

stl_allocate-exact_example :
    (stl_allocate env 24 8 10 (some one_block) ≡ (
      if ltb (word - 1) (10 * 24)
      then returned none (some one_block)
      else do_allocate env (10 * 24) 8 (some one_block)))
    × Real (stl_allocate env 24 8 10 (some one_block))
stl_allocate-exact_example = stl_allocate-exact env 24 8 10 (some one_block) (omega arith)

-- The raw block that a call of `alignedAllocate` gets.
abbrev raw_block : RawAllocation
raw_block = record { user = 4128; reserved = 303072 }

raw_given :
    raw_allocate env 300064 new_state ≡ (ok raw_block, (raw_allocate env 300064 new_state).1)
unfolding raw_allocate large_allocate register is_valid sys_map round_to_pages large_capacity find
    emplace
raw_given = refl

aligned_allocate-AlignedBlock_example : AlignedBlock env 64 300000 new_state raw_block
aligned_allocate-AlignedBlock_example =
    aligned_allocate-AlignedBlock env 6 300000 new_state (raw_allocate env 300064 new_state).1
      raw_block (omega arith) (omega arith) (omega arith) raw_given refl (omega arith)
