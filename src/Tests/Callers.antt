-- ===== src/Tests/Callers.antt =====
-- A caller of the medium tier with five calls.
use m_alloc.Base.{All, ◌%◌, ◌≡◌, refl, arith, List, [], ◌∷◌}
use m_alloc.Memory.{Ptr, read_le, write_le}
use m_alloc.Header.{align_up}
use m_alloc.SystemMemory.{covered, sys_map, is_valid, round_to_pages}
use m_alloc.Segment.Tag.{
  next_block, size_at, is_free, is_first, is_last, set_size, set_flag, bin_index,
}
use m_alloc.Segment.Bins.{insert_free, remove_free, fit_from}
use m_alloc.Segment.Ops.{
  segment_allocate, segment_deallocate, split_block, add_segment, total_size, adopt_segment,
}
use m_alloc.Segment.Heap.Client.{
  pick, handed, Loan, ask, give_back, fill_in, Call, calls, fresh_client, Disjoint, Sound,
}
use m_alloc.Segment.Heap.Client.Safe.{calls_safe}
use m_alloc.Tests.Kernel.{flat_os, flat_os-Documented, fresh_world}

-- Two blocks, one of them written, the other one freed, and a third in its place.
abbrev five_calls : List Call
five_calls = ask 5016 ∷ ask 9000 ∷ fill_in 0 (λ q. q % 256) ∷ give_back 1 ∷ ask 4000 ∷ []

calls_safe_example :
    Disjoint (calls flat_os five_calls (fresh_client fresh_world)).held
    × All
        (Sound (calls flat_os five_calls (fresh_client fresh_world)).world)
        (calls flat_os five_calls (fresh_client fresh_world)).held
unfolding covered
calls_safe_example =
    calls_safe flat_os flat_os-Documented five_calls fresh_world
      (omega arith, (omega arith, (tt, (tt, (omega arith, tt))))) tt (λ a. omega arith)

addresses : List Loan → List Ptr
addresses [] = []
addresses (e ∷ es) = e.at ∷ addresses es

five_held : addresses (calls flat_os five_calls (fresh_client fresh_world)).held ≡ 4112 ∷ 9152 ∷ []
unfolding calls pick handed segment_allocate align_up fit_from bin_index total_size add_segment
    adopt_segment is_valid sys_map round_to_pages insert_free size_at read_le write_le set_flag
    set_size segment_deallocate remove_free split_block addresses is_last is_first is_free
    next_block
five_held = refl
