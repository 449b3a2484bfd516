-- ===== src/FreeList/Stack.antt =====
-- `FreeList` as a stack of blocks.
use m_alloc.Base.{◌%◌, ◌<◌, ◌≡◌, refl, List, [], ◌∷◌, none, some, arith, All, All-mono, ◌==◌, false}
use m_alloc.Memory.{Ptr, Bytes, null, store64}
use m_alloc.Memory.Laws.{Apart, write_le-SameOn, load64-store64}
use m_alloc.Header.{word}
use m_alloc.FreeList.{FreeList, push, pop}
use m_alloc.FreeList.Chain.{IsFreeList, Chain-same, head-lt-word}

-- `push` puts the block on top of the list, if its eight bytes meet the link of no block in it.
pub push-IsFreeList :
    (block : Ptr) (f : FreeList) (m : Bytes) (xs : List Ptr)
    → 0 < block
    → block < word
    → All (λ x. Apart x 8 block 8) xs
    → IsFreeList m f xs
    → IsFreeList (push block f m).1 (push block f m).0 (block ∷ xs)
unfolding push
push-IsFreeList block f m xs pos fits apart is = record {
  chain = (
    refl,
    pos,
    fits,
    rw (load64-store64 block f.head m) (
        Chain-same m (store64 block f.head m) (f.head % word) xs
          (All-mono (λ x. Apart x 8 block 8) _ xs (λ x h. write_le-SameOn 8 x 8 block f.head m h)
            apart)
          (rw (wrapped) is.chain)),
  );
  count = omega (arith, is.count);
}
  where
    wrapped : f.head % word ≡ f.head
    wrapped = omega (arith, head-lt-word m f.head xs is.chain)

-- `pop` of a list with a block returns the first block and leaves the others.
pub pop-cons :
    (f : FreeList) (m : Bytes) (x : Ptr) (xs : List Ptr)
    → IsFreeList m f (x ∷ xs)
    → ((pop f m).0 ≡ some x) × IsFreeList m (pop f m).1 xs
unfolding pop
pop-cons f m x xs is =
    let head_eq = is.chain.0 in
    rw (nonzero, head_eq) (refl, record { chain = is.chain.3; count = omega (arith, is.count) })
  where
    nonzero : (f.head == null) ≡ false
    nonzero = ground (arith, is.chain.0, is.chain.1)

-- `pop` of an empty list returns null and changes nothing.
pub pop-nil : (f : FreeList) (m : Bytes) → IsFreeList m f [] → pop f m ≡ (none, f)
unfolding pop
pop-nil f m is = rw is.chain
