-- ===== src/Pool/Invariant.antt =====
-- Who owns which address of a shard's runs.
use m_alloc.Base.{ℕ, ◌+◌, ◌-◌, ◌%◌, ◌≤◌, ◌<◌, ◌≡◌, List, All}
use m_alloc.Memory.{Ptr}
use m_alloc.Header.{word}
use m_alloc.SystemMemory.{World, within, covered}
use m_alloc.FreeList.Chain.{IsFreeList, cover}
use m_alloc.Pool.{Shard}

-- A share of the address space: how often it claims each address.
abbrev pub Share : Type 0
Share = Ptr → ℕ

-- `frees` are the blocks on the free list, `own` is what was handed out and not returned, and
-- `others` is what other parts of the allocator hold of the live mappings.
pub record ShardInv (stride : ℕ) (frees : List Ptr) (own others : Share) (s : Shard) (w : World)
    : Type 0 where
  pub list : IsFreeList w.bytes s.free_list frees
  pub frees_16 : All (λ x. x % 16 ≡ 0) frees
  pub cursor_16 : s.bump_cursor % 16 ≡ 0
  pub cursor_le : s.bump_cursor ≤ s.bump_end
  pub end_lt : s.bump_end < word
  -- Free blocks, blocks in use and the bump region lie in the runs and do not meet.
  pub split :
      (a : Ptr)
      → cover stride frees a + own a + within s.bump_cursor (s.bump_end - s.bump_cursor) a
        ≤ covered s.runs a
  pub runs_live : (a : Ptr) → covered s.runs a + others a ≤ covered w.mapped a
  pub single : (a : Ptr) → covered w.mapped a ≤ 1

-- A share with one more block.
abbrev pub with_block : ℕ → Ptr → Share → Share
with_block stride b own a = own a + within b stride a
