-- ===== src/Pool/Batch.antt =====
-- `allocateBatch` and `freeBatch`: the loops over `takeBlock` and `push`.
use m_alloc.Base.{
  ℕ, zero, suc, ◌+◌, ◌%◌, ◌≤◌, ◌≡◌, refl, List, [], ◌∷◌, All, arith, length, Option, none, some,
  ◌⊎◌, inl, inr, ◌∙◌,
}
use native.Mathlib.Nat.{le_refl}
use m_alloc.Memory.{Ptr}
use m_alloc.SystemMemory.{World, Os, Documented}
use m_alloc.FreeList.Chain.{cover}
use m_alloc.Pool.{Shard, take_block, batch_after, take_batch, put_batch, put_block, run_size}
use m_alloc.Pool.Invariant.{Share, ShardInv, with_block}
use mathlib.Core.List.{reverse_aux}
use m_alloc.Pool.Free.{put_block-ShardInv, within_mono}
use m_alloc.Pool.Take.{
  NoMemory, IsBlock, Spares, Grows, Spares-trans, Grows-trans, TakeResult, take_block-TakeResult,
}

abbrev pub with_blocks : ℕ → List Ptr → Share → Share
with_blocks stride bs own a = own a + cover stride bs a

pub record TookBatch (os : Os) (stride room : ℕ) (own others : Share) (w : World) (bs : List Ptr)
    (s' : Shard) (w' : World) : Type 0 where
  pub rest : List Ptr
  pub inv : ShardInv stride rest (with_blocks stride bs own) others s' w'
  pub blocks : All IsBlock bs
  pub at_most : length bs ≤ room
  pub spares : Spares w w'
  pub grows : Grows w w'
  pub full : (length bs ≡ room) ⊎ ((rest ≡ []) × NoMemory os stride s' w')

-- The invariant reads the caller's share at each address alone.
pub ShardInv-own :
    {stride : ℕ} {frees : List Ptr} {own own' others : Share} {s : Shard} {w : World}
    → ((a : Ptr) → own' a ≤ own a)
    → ShardInv stride frees own others s w
    → ShardInv stride frees own' others s w
ShardInv-own less inv = record {
  list = inv.list;
  frees_16 = inv.frees_16;
  cursor_16 = inv.cursor_16;
  cursor_le = inv.cursor_le;
  end_lt = inv.end_lt;
  split = λ a. omega (arith, inv.split a, less a);
  runs_live = inv.runs_live;
  single = inv.single;
}

abbrev pub BatchResult : Os → ℕ → ℕ → Share → Share → World → List Ptr × Shard × World → Type 0
BatchResult os stride room own others w (bs, s', w') =
    TookBatch os stride room own others w bs s' w'

full-suc : {m n : ℕ} {Out : Type 0} → (m ≡ n) ⊎ Out → (suc m ≡ suc n) ⊎ Out
full-suc (inl e) = inl (omega arith)
full-suc (inr e) = inr e

batch_after-BatchResult :
    (os : Os) (stride room : ℕ) (own others : Share) (w : World)
    (loop : Shard → World → List Ptr × Shard × World) (r : Option Ptr × Shard × World)
    → TakeResult os stride own others w r
    → ((b : Ptr) (s' : Shard) (w' : World) (frees : List Ptr)
        → ShardInv stride frees (with_block stride b own) others s' w'
        → BatchResult os stride room (with_block stride b own) others w' (loop s' w'))
    → BatchResult os stride (suc room) own others w (batch_after loop r)
unfolding batch_after cover
batch_after-BatchResult os stride room own others w loop (none, s', w') no_block next = record {
  rest = [];
  inv = ShardInv-own (λ a. omega arith) no_block.inv;
  blocks = tt;
  at_most = omega arith;
  spares = λ a h. rw no_block.bytes_same;
  grows = λ a. rw no_block.mapped_same (le_refl _);
  full = inr (refl, no_block.no_memory);
}
batch_after-BatchResult os stride room own others w loop (some b, s', w') took next =
    let more = next b s' w' took.rest took.inv in
    record {
      rest = more.rest;
      inv = ShardInv-own (λ a. omega arith) more.inv;
      blocks = (took.block, more.blocks);
      at_most = omega (arith, more.at_most);
      spares = Spares-trans w w' (loop s' w').2 took.grows took.spares more.spares;
      grows = Grows-trans w w' (loop s' w').2 took.grows more.grows;
      full = full-suc more.full;
    }

module _ (os : Os) (doc : Documented os) (stride : ℕ) (others : Share) where
  -- A batch is as many blocks as the span has room for, which nobody held before; or fewer, where
  -- the free list ran out, the bump region has no room for a block, and the system was
  -- asked for a run and gave none. All
  -- mapped memory keeps its bytes, and the shard's ownership invariant holds with the batch in the
  -- caller's share, for a stride of 16 to 65536 bytes that is a multiple of 16.
  pub take_batch-BatchResult :
      (room : ℕ) (own : Share) (s : Shard) (w : World) (frees : List Ptr)
      → ShardInv stride frees own others s w
      → 16 ≤ stride
      → stride ≤ run_size
      → stride % 16 ≡ 0
      → BatchResult os stride room own others w (take_batch os room stride s w)
  unfolding take_batch cover
  take_batch-BatchResult zero own s w frees inv big small s16 = record {
    rest = frees;
    inv = ShardInv-own (λ a. omega arith) inv;
    blocks = tt;
    at_most = omega arith;
    spares = λ a h. refl;
    grows = λ a. le_refl _;
    full = inl refl;
  }
  take_batch-BatchResult (suc room) own s w frees inv big small s16 =
      batch_after-BatchResult os stride room own others w (take_batch os room stride)
        (take_block os stride s w)
        (take_block-TakeResult os doc stride own others s w frees inv big small s16)
        (λ b s' w' frees' inv'.
          take_batch-BatchResult room (with_block stride b own) s' w' frees' inv' big small s16)

module _ (stride : ℕ) (others : Share) (big : 8 ≤ stride) where
  -- `freeBatch` of blocks that the caller owns puts all of them on the free list, the last one
  -- first: the ownership invariant holds with that list and without them in the caller's share,
  -- memory has changed inside the blocks alone, and the mappings are the same.
  pub put_batch-ShardInv :
      (bs : List Ptr) (own : Share) (s : Shard) (w : World) (frees : List Ptr)
      → All IsBlock bs
      → ShardInv stride frees (with_blocks stride bs own) others s w
      → ShardInv stride (reverse_aux bs frees) own others (put_batch bs s w).0 (put_batch bs s w).1
        × ((a : Ptr) → cover stride bs a ≡ 0 → (put_batch bs s w).1.bytes a ≡ w.bytes a)
        × ((put_batch bs s w).1.mapped ≡ w.mapped)
  unfolding put_batch cover
  put_batch-ShardInv [] own s w frees blks inv =
      (ShardInv-own (λ a. omega arith) inv, (λ a out. refl), refl)
  put_batch-ShardInv (b ∷ bs) own s w frees blks inv =
      let (after, changed, mapped) =
        put_block-ShardInv stride others big b (with_blocks stride bs own) s w frees blks.0
          (ShardInv-own (λ a. omega arith) inv) in
      let (all, spared, kept) =
        put_batch-ShardInv bs own (put_block b s w).0 (put_block b s w).1 (b ∷ frees) blks.1
          after in
      (
        all,
        (λ a out.
            spared a (omega (arith, out))
            ∙ changed a (omega (arith, out, within_mono b 8 stride a big))),
        kept ∙ mapped,
      )
