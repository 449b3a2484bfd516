-- ===== src/FreeList/Chain.antt =====
-- The blocks that a free list links, in order, and which memory that depends on.
use m_alloc.Base.{ℕ, ◌+◌, ◌%◌, ◌≤◌, ◌<◌, ◌≡◌, List, [], ◌∷◌, arith, All, length}
use m_alloc.Memory.{Ptr, Bytes, null, load64}
use m_alloc.Memory.Laws.{SameOn, Apart, read_le-same}
use m_alloc.Header.{word}
use m_alloc.SystemMemory.{within}
use m_alloc.FreeList.{FreeList}

-- How many of the blocks of `stride` bytes hold the address.
unfoldable pub cover : ℕ → List Ptr → Ptr → ℕ
cover stride [] a = 0
cover stride (x ∷ xs) a = within x stride a + cover stride xs a

-- From `p` the links lead through the blocks `xs` to the null pointer.
abbrev pub Chain : Bytes → Ptr → List Ptr → Type 0
Chain m p [] = p ≡ null
Chain m p (x ∷ xs) = (p ≡ x) × (0 < x) × (x < word) × Chain m (load64 x m) xs

pub record IsFreeList (m : Bytes) (f : FreeList) (xs : List Ptr) : Type 0 where
  pub chain : Chain m f.head xs
  pub count : f.size ≡ length xs % word

pub head-lt-word : (m : Bytes) (p : Ptr) (xs : List Ptr) → Chain m p xs → p < word
head-lt-word m p [] c = omega arith
head-lt-word m p (x ∷ xs) c = omega (arith, c.0, c.2)

-- A list survives any change of memory that spares the link of each of its blocks.
pub Chain-same :
    (m m' : Bytes) (p : Ptr) (xs : List Ptr)
    → All (λ x. SameOn x 8 m m') xs
    → Chain m p xs
    → Chain m' p xs
Chain-same m m' p [] same c = c
Chain-same m m' p (x ∷ xs) same c =
    (c.0, c.1, c.2, Chain-same m m' (load64 x m') xs same.1 (rw (read_le-same 8 x m m' same.0) c.3))

pub IsFreeList-same :
    (m m' : Bytes) (f : FreeList) (xs : List Ptr)
    → All (λ x. SameOn x 8 m m') xs
    → IsFreeList m f xs
    → IsFreeList m' f xs
IsFreeList-same m m' f xs same is = record {
  chain = Chain-same m m' f.head xs same is.chain;
  count = is.count;
}

-- Blocks that cover no address of a range are apart from it.
Apart-of_cover :
    (stride x : ℕ) (q n : ℕ)
    → 8 ≤ stride
    → 0 < n
    → ((a : Ptr) → within x stride a + within q n a ≤ 1)
    → Apart x 8 q n
unfolding within
Apart-of_cover stride x q n big pos h = ground (arith, h x, h q)

pub Aparts_of_cover :
    (stride : ℕ) (q n : ℕ) (xs : List Ptr)
    → 8 ≤ stride
    → 0 < n
    → ((a : Ptr) → cover stride xs a + within q n a ≤ 1)
    → All (λ x. Apart x 8 q n) xs
unfolding cover
Aparts_of_cover stride q n [] big pos h = tt
Aparts_of_cover stride q n (x ∷ xs) big pos h = (
  Apart-of_cover stride x q n big pos (λ a. omega (arith, h a)),
  Aparts_of_cover stride q n xs big pos (λ a. omega (arith, h a)),
)
