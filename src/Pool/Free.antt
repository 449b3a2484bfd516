-- ===== src/Pool/Free.antt =====
-- Returning a block to its shard.
use m_alloc.Base.{ℕ, ◌+◌, ◌≤◌, ◌<◌, ◌≡◌, refl, ◌⊎◌, List, ◌∷◌, arith}
use m_alloc.Memory.{Ptr}
use m_alloc.Memory.Laws.{write_le-outside}
use m_alloc.SystemMemory.{World, within}
use m_alloc.FreeList.{push}
use m_alloc.FreeList.Chain.{cover, Aparts_of_cover}
use m_alloc.FreeList.Stack.{push-IsFreeList}
use m_alloc.Pool.{Shard, put_block}
use m_alloc.Pool.Invariant.{Share, ShardInv, with_block}
use m_alloc.Pool.Take.{IsBlock}

pub within_mono : (p n k a : ℕ) → n ≤ k → within p n a ≤ within p k a
unfolding within
within_mono p n k a h = ground arith

-- Memory is changed at the first eight bytes of the block alone.
abbrev pub ChangedAt : Ptr → World → World → Type 0
ChangedAt b w w' = (a : Ptr) → within b 8 a ≡ 0 → w'.bytes a ≡ w.bytes a

outside : (p n a : ℕ) → within p n a ≡ 0 → (a < p) ⊎ (p + n ≤ a)
unfolding within
outside p n a h = ground arith

module _ (stride : ℕ) (others : Share) (big : 8 ≤ stride) where
  -- `freeBlock` of a block that the caller owns puts it on the free list: the invariant holds, the
  -- caller owns it no more, and only its first eight bytes have changed.
  pub put_block-ShardInv :
      (b : Ptr) (own : Share) (s : Shard) (w : World) (frees : List Ptr)
      → IsBlock b
      → ShardInv stride frees (with_block stride b own) others s w
      → ShardInv stride (b ∷ frees) own others (put_block b s w).0 (put_block b s w).1
        × ChangedAt b w (put_block b s w).1
        × ((put_block b s w).1.mapped ≡ w.mapped)
  unfolding put_block cover push
  put_block-ShardInv b own s w frees blk inv = (after, changed, refl)
    where
      changed : ChangedAt b w (put_block b s w).1
      changed a h = write_le-outside 8 b s.free_list.head a w.bytes (outside b 8 a h)

      meets : (a : Ptr) → cover stride frees a + within b 8 a ≤ 1
      meets a =
          omega (arith, inv.split a, inv.runs_live a, inv.single a, within_mono b 8 stride a big)

      after : ShardInv stride (b ∷ frees) own others (put_block b s w).0 (put_block b s w).1
      after = record {
        list =
            push-IsFreeList b s.free_list w.bytes frees blk.non_null blk.in_space
              (Aparts_of_cover stride b 8 frees big (omega arith) meets) inv.list;
        frees_16 = (blk.aligned, inv.frees_16);
        cursor_16 = inv.cursor_16;
        cursor_le = inv.cursor_le;
        end_lt = inv.end_lt;
        split = λ a. omega (arith, inv.split a);
        runs_live = inv.runs_live;
        single = inv.single;
      }
