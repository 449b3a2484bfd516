-- ===== src/FreeList.antt =====
-- src/FreeList.hpp: a stack of free blocks, linked through the first eight bytes of each block.
pub mod Chain
pub mod Stack
pub mod Batch
use m_alloc.Base.{
  ℕ, zero, suc, ◌+◌, ◌-◌, ◌%◌, Bool, ◌==◌, if◌then◌else◌, List, [], ◌∷◌, Option, none, some,
}
use m_alloc.Memory.{Ptr, Bytes, null, load64, store64}
use m_alloc.Header.{word}

pub record FreeList : Type 0 where
  pub head : Ptr
  pub size : ℕ

abbrev pub empty_list : FreeList
empty_list = record { head = null; size = 0 }

unfoldable pub push : Ptr → FreeList → Bytes → FreeList × Bytes
push block f m = (record { head = block; size = (f.size + 1) % word }, store64 block f.head m)

-- `none` is the null pointer. Popping reads memory and writes none.
unfoldable pub pop : FreeList → Bytes → Option Ptr × FreeList
pop f m =
    if f.head == null
    then (none, f)
    else (some f.head, record { head = load64 f.head m; size = (f.size + word - 1) % word })

-- The blocks that `popBatch` writes to a span of the given length, in order.
unfoldable pub pop_batch : ℕ → FreeList → Bytes → List Ptr × FreeList
pop_batch zero f m = ([], f)
pop_batch (suc room) f m =
    let (block, g) = pop f m in
    elim block [ none ↦ ([], g) | some b ↦ let rest = pop_batch room g m in (b ∷ rest.0, rest.1) ]

unfoldable pub is_empty : FreeList → Bool
is_empty f = f.head == null
