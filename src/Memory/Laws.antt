-- ===== src/Memory/Laws.antt =====
-- What a read sees of a write: the value at the same place, and nothing elsewhere.
use m_alloc.Base.{ℕ, zero, suc, ◌+◌, ◌*◌, ◌/◌, ◌%◌, ◌^◌, ◌≤◌, ◌<◌, ◌≡◌, refl, ◌∙◌, ◌⊎◌, inl, arith}
use m_alloc.Memory.{Ptr, Bytes, poke, read_le, write_le, fill, copy, load64, load32, load16}
use m_alloc.Memory.{store64, store32, store16}

-- The ranges of `j` bytes at `q` and of `k` bytes at `p` do not meet.
abbrev pub Apart : Ptr → ℕ → Ptr → ℕ → Type 0
Apart q j p k = (q + j ≤ p) ⊎ (p + k ≤ q)

-- Two memories agree on the `n` bytes at `p`.
abbrev pub SameOn : Ptr → ℕ → Bytes → Bytes → Type 0
SameOn p n m m' = (q : Ptr) → p ≤ q → q < p + n → m' q ≡ m q

-- The lowest `k` bytes of a number.
low_bytes : ℕ → ℕ → ℕ
low_bytes zero v = 0
low_bytes (suc k) v = v % 256 + 256 * low_bytes k (v / 256)

pub write_le-outside :
    (k : ℕ) (p v q : ℕ) (m : Bytes) → (q < p) ⊎ (p + k ≤ q) → write_le k p v m q ≡ m q
unfolding write_le
write_le-outside zero p v q m h = refl
write_le-outside (suc k) p v q m h =
    write_le-outside k (p + 1) (v / 256) q (poke p (v % 256) m) (grind arith) ∙ ground arith

pub read_le-same : (k : ℕ) (p : ℕ) (m m' : Bytes) → SameOn p k m m' → read_le k p m' ≡ read_le k p m
unfolding read_le
read_le-same zero p m m' h = refl
read_le-same (suc k) p m m' h = omega (
  arith,
  h p (omega arith) (omega arith),
  read_le-same k (p + 1) m m' (λ q a b. h q (omega arith) (omega arith)),
)

pub write_le-SameOn : (j q k p v : ℕ) (m : Bytes) → Apart q j p k → SameOn q j m (write_le k p v m)
write_le-SameOn j q k p v m h a lo hi = write_le-outside k p v a m (grind arith)

pub fill-outside : (p b n q : ℕ) (m : Bytes) → (q < p) ⊎ (p + n ≤ q) → fill p b n m q ≡ m q
unfolding fill
fill-outside p b n q m h = ground arith

pub fill-inside : (p b n q : ℕ) (m : Bytes) → p ≤ q → q < p + n → fill p b n m q ≡ b
unfolding fill
fill-inside p b n q m lo hi = ground arith

pub fill-SameOn : (j q p b n : ℕ) (m : Bytes) → Apart q j p n → SameOn q j m (fill p b n m)
unfolding fill
fill-SameOn j q p b n m h a lo hi = ground arith

pub copy-SameOn : (j q p s n : ℕ) (m : Bytes) → Apart q j p n → SameOn q j m (copy p s n m)
unfolding copy
copy-SameOn j q p s n m h a lo hi = ground arith

read-write_le : (k p v : ℕ) (m : Bytes) → read_le k p (write_le k p v m) ≡ low_bytes k v
unfolding read_le write_le low_bytes
read-write_le zero p v m = refl
read-write_le (suc k) p v m = omega (
  arith,
  write_le-outside k (p + 1) (v / 256) p (poke p (v % 256) m) (inl (omega arith)),
  read-write_le k (p + 1) (v / 256) (poke p (v % 256) m),
  here,
)
  where
    here : poke p (v % 256) m p ≡ v % 256
    here = ground arith

pub load64-store64 : (p v : ℕ) (m : Bytes) → load64 p (store64 p v m) ≡ v % 2 ^ 64
unfolding low_bytes
load64-store64 p v m = read-write_le 8 p v m ∙ omega arith

pub load32-store32 : (p v : ℕ) (m : Bytes) → load32 p (store32 p v m) ≡ v % 2 ^ 32
unfolding low_bytes
load32-store32 p v m = read-write_le 4 p v m ∙ omega arith

pub load16-store16 : (p v : ℕ) (m : Bytes) → load16 p (store16 p v m) ≡ v % 2 ^ 16
unfolding low_bytes
load16-store16 p v m = read-write_le 2 p v m ∙ omega arith

pub read_le-write_le :
    (j q k p v : ℕ) (m : Bytes) → Apart q j p k → read_le j q (write_le k p v m) ≡ read_le j q m
read_le-write_le j q k p v m h = read_le-same j q m _ (write_le-SameOn j q k p v m h)

pub read_le-fill :
    (j q p b n : ℕ) (m : Bytes) → Apart q j p n → read_le j q (fill p b n m) ≡ read_le j q m
read_le-fill j q p b n m h = read_le-same j q m _ (fill-SameOn j q p b n m h)

pub SameOn-trans :
    (p n : ℕ) (m m' m'' : Bytes) → SameOn p n m m' → SameOn p n m' m'' → SameOn p n m m''
SameOn-trans p n m m' m'' h k q lo hi = k q lo hi ∙ h q lo hi

pub SameOn-part :
    (p n q j : ℕ) (m m' : Bytes) → p ≤ q → q + j ≤ p + n → SameOn p n m m' → SameOn q j m m'
SameOn-part p n q j m m' lo hi h a al ah = h a (omega arith) (omega arith)

-- A byte of memory stays a byte.
abbrev pub IsBytes : Bytes → Type 0
IsBytes m = (q : Ptr) → m q < 256

pub read_le-bound64 : (p : ℕ) (m : Bytes) → IsBytes m → load64 p m < 2 ^ 64
unfolding read_le
read_le-bound64 p m h = omega (
  arith,
  h p,
  h (p + 1),
  h (p + 1 + 1),
  h (p + 1 + 1 + 1),
  h (p + 1 + 1 + 1 + 1),
  h (p + 1 + 1 + 1 + 1 + 1),
  h (p + 1 + 1 + 1 + 1 + 1 + 1),
  h (p + 1 + 1 + 1 + 1 + 1 + 1 + 1),
)
