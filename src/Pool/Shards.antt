-- ===== src/Pool/Shards.antt =====
-- `PoolAllocator`'s operations on all the shards.
use m_alloc.Base.{
  ℕ, ◌+◌, ◌≤◌, ◌<◌, ◌≡◌, ◌≢◌, List, [], ◌∷◌, All, arith, Option, none, some, get_or, set, ◌==◌,
  true, subst, fun_ext,
}
use m_alloc.Memory.{Ptr, Bytes}
use m_alloc.Memory.Laws.{SameOn}
use m_alloc.SizeClass.{class_count}
use m_alloc.SystemMemory.{World, Os, Documented, within, covered}
use m_alloc.FreeList.Chain.{cover}
use m_alloc.Pool.{
  Shard, Pools, empty_shard, block_stride, take_block, allocate_block, put_block, free_block,
}
use m_alloc.Pool.Invariant.{Share, ShardInv, with_block}
use m_alloc.Pool.Take.{IsBlock, Spares, Grows, TakeResult, take_block-TakeResult}
use m_alloc.Pool.Free.{ChangedAt, put_block-ShardInv, within_mono}
use m_alloc.Pool.Shared.{PoolsInv, ClassInv, others_of, at_class, update-PoolsInv, run_total-two}
use m_alloc.Pool.Stride.{block_stride-IsSpacing}

inside : (s p q c : ℕ) → 8 ≤ s → p ≤ q → q < p + 8 → 0 < within p s q + c
unfolding within
inside s p q c big lo hi = ground arith

-- A change of memory that spares all addresses that a list covers spares its links.
links-SameOn :
    (stride : ℕ) (xs : List Ptr) (m m' : Bytes)
    → 8 ≤ stride
    → ((a : Ptr) → 0 < cover stride xs a → m' a ≡ m a)
    → All (λ x. SameOn x 8 m m') xs
unfolding cover
links-SameOn stride [] m m' big h = tt
links-SameOn stride (x ∷ xs) m m' big h = (
  λ a lo hi. h a (inside stride x a _ big lo hi),
  links-SameOn stride xs m m' big (λ a c. h a (omega arith)),
)

module _ (frees : ℕ → List Ptr) (own : ℕ → Share) (rest : Share) (ps : Pools) (w : World)
    (inv : PoolsInv frees own rest ps w) where
  -- The runs of a class are mapped.
  class-mapped :
      (j : ℕ)
      → j < class_count
      → (a : Ptr) → 0 < cover (block_stride j) (frees j) a
      → 0 < covered w.mapped a
  class-mapped j top a h =
      omega (arith, (inv.classes j top).split a, (inv.classes j top).runs_live a)

  spared-links :
      (w' : World)
      → Spares w w'
      → (j : ℕ) → j < class_count
      → All (λ x. SameOn x 8 w.bytes w'.bytes) (frees j)
  spared-links w' spares j top =
      links-SameOn (block_stride j) (frees j) w.bytes w'.bytes
        (omega (arith, (block_stride-IsSpacing j top).at_least))
        (λ a h. spares a (class-mapped j top a h))

  abbrev pub AllocResult : ℕ → Option Ptr × Pools × World → Type 0
  AllocResult i (some b, ps', w') =
      (frees' : ℕ → List Ptr) × PoolsInv frees'
        (at_class i (with_block (block_stride i) b (own i)) own) rest ps' w'
      × IsBlock b
      × Spares w w'
      × Grows w w'
  AllocResult i (none, ps', w') =
      (frees' : ℕ → List Ptr) × PoolsInv frees' (at_class i (own i) own) rest ps' w'
      × (w'.bytes ≡ w.bytes)
      × (w'.mapped ≡ w.mapped)

  allocated :
      (os : Os) (i : ℕ)
      → i < class_count
      → (r : Option Ptr × Shard × World)
      → TakeResult os (block_stride i) (own i) (others_of ps rest i) w r
      → AllocResult i (r.0, set ps i r.1, r.2)
  allocated os i top (none, s', w') no_block = (
    at_class i [] frees,
    update-PoolsInv frees own rest ps w w' i [] (own i) s' inv top no_block.inv
        (λ j jtop ne. spared-links w' (λ a h. rw no_block.bytes_same) j jtop),
    no_block.bytes_same,
    no_block.mapped_same,
  )
  allocated os i top (some b, s', w') took = (
    at_class i took.rest frees,
    update-PoolsInv frees own rest ps w w' i took.rest (with_block (block_stride i) b (own i)) s'
        inv top took.inv (λ j jtop ne. spared-links w' took.spares j jtop),
    took.block,
    took.spares,
    took.grows,
  )

  -- `allocateBlock` of a class returns a block that no one holds and leaves all mapped memory as it
  -- is, or returns null and changes neither memory nor who owns what.
  pub allocate_block-AllocResult :
      (os : Os)
      → Documented os
      → (i : ℕ) → i < class_count
      → AllocResult i (allocate_block os i ps w)
  unfolding allocate_block
  allocate_block-AllocResult os doc i top =
      let st = block_stride-IsSpacing i top in
      allocated os i top (take_block os (block_stride i) (get_or ps i empty_shard) w) (
        take_block-TakeResult os doc (block_stride i) (own i) (others_of ps rest i)
          (get_or ps i empty_shard) w (frees i) (inv.classes i top) (omega (arith, st.at_least))
          st.in_run st.whole)

-- Of two changes at one class the later counts.
at_class-twice {ℓ} :
    {A : Type ℓ} (i : ℕ) (x y : A) (f : ℕ → A) → at_class i x (at_class i y f) ≡ at_class i x f
at_class-twice i x y f = fun_ext λ j. ground arith

module _ (frees : ℕ → List Ptr) (own : ℕ → Share) (rest : Share) (ps : Pools) (w : World) (i : ℕ)
    (b : Ptr) (mine : Share)
    (inv : PoolsInv frees (at_class i (with_block (block_stride i) b mine) own) rest ps w)
    (top : i < class_count) where
  at_i : ClassInv frees (at_class i (with_block (block_stride i) b mine) own) rest ps w i
  at_i = inv.classes i top

  own_i : at_class i (with_block (block_stride i) b mine) own i ≡ with_block (block_stride i) b mine
  own_i = let hit : (i == i) ≡ true = ground arith in rw hit

  mine-ClassInv :
      ShardInv
        (block_stride i)
        (frees i)
        (with_block (block_stride i) b mine)
        (others_of ps rest i)
        (get_or ps i empty_shard)
        w
  mine-ClassInv =
      subst
        (λ o.
          ShardInv (block_stride i) (frees i) o (others_of ps rest i) (get_or ps i empty_shard) w)
        own_i at_i

  -- The links of another class do not meet a block of this class.
  apart-links :
      (w' : World)
      → ChangedAt b w w'
      → (j : ℕ) → j < class_count
      → i ≢ j
      → All (λ x. SameOn x 8 w.bytes w'.bytes) (frees j)
  apart-links w' changed j jtop ne =
      links-SameOn (block_stride j) (frees j) w.bytes w'.bytes
        (omega (arith, (block_stride-IsSpacing j jtop).at_least))
        (λ a h. changed a (
          omega (
            arith,
            within_mono b 8 (block_stride i) a
                (omega (arith, (block_stride-IsSpacing i top).at_least)),
            mine-ClassInv.split a,
            mine-ClassInv.runs_live a,
            mine-ClassInv.single a,
            (inv.classes j jtop).split a,
            run_total-two ps i j a ne,
          )))

  -- `freeBlock` of a block of the class gives it back: the caller's share is what it was without the
  -- block, and only the block's first eight bytes have changed.
  pub free_block-PoolsInv :
      IsBlock b
      → PoolsInv
          (at_class i (b ∷ frees i) frees)
          (at_class i mine own)
          rest
          (free_block i b ps w).0
          (free_block i b ps w).1
        × ChangedAt b w (free_block i b ps w).1
  unfolding free_block
  free_block-PoolsInv blk =
      let s = get_or ps i empty_shard in
      let (after, changed, _) =
        put_block-ShardInv (block_stride i) (others_of ps rest i)
          (omega (arith, (block_stride-IsSpacing i top).at_least)) b mine s w (frees i) blk
          mine-ClassInv in
      (
        rw (← at_class-twice i mine (with_block (block_stride i) b mine) own) (
            update-PoolsInv frees _ rest ps w (put_block b s w).1 i (b ∷ frees i) mine
              (put_block b s w).0 inv top after (apart-links (put_block b s w).1 changed)),
        changed,
      )
