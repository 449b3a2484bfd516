-- ===== src/Segment/Heap/Members.antt =====
-- The blocks of the bins, found by how often each list counts them.
use m_alloc.Base.{
  ℕ, ◌+◌, ◌≤◌, ◌<◌, ◌≡◌, ◌≢◌, refl, arith, true, ap, inl, inr, Option, some, none, List, [], ◌∷◌,
  ◌++◌, All, ◌==◌, Bool-cases,
}
use m_alloc.Memory.{Ptr, Bytes}
use m_alloc.Memory.Laws.{Apart, SameOn, SameOn-part, read_le-same}
use m_alloc.SystemMemory.{Region}
use m_alloc.Segment.Tag.{node_of, bin_index}
use m_alloc.Segment.Bins.Front.{Separate}
use m_alloc.Segment.Bins.Unlink.{SameLinks}
use m_alloc.Segment.Heap.{Cell, View, Laid, count, in_bin}
use m_alloc.Segment.Heap.Tags.{header-apart}

pub count-append : (x : Ptr) (xs ys : List Ptr) → count x (xs ++ ys) ≡ count x xs + count x ys
count-append x [] ys = omega arith
count-append x (b ∷ xs) ys = ground (arith, count-append x xs ys)

-- A block that is counted stands somewhere.
pub count-split :
    (x : Ptr) (l : List Ptr)
    → 0 < count x l
    → (xs : List Ptr) × (ys : List Ptr) × (l ≡ xs ++ x ∷ ys)
count-split x [] h = absurd (omega arith)
count-split x (b ∷ bs) h = elim (Bool-cases (x == b)) [
  | inl e ↦ ([], bs, ap (λ y. y ∷ bs) (ground arith))
  | inr e ↦ let (xs, ys, at) = count-split x bs (ground arith) in (b ∷ xs, ys, ap (λ zs. b ∷ zs) at)
]

pub All-counted {ℓ} :
    (P : Ptr → Type ℓ) (l : List Ptr) → ((x : Ptr) → 0 < count x l → P x) → All P l
All-counted P [] f = tt
All-counted P (b ∷ bs) f = (f b (ground arith), All-counted P bs (λ x more. f x (ground arith)))

pub Separate-counted :
    (l : List Ptr)
    → ((x : Ptr) → count x l ≤ 1)
    → ((x y : Ptr) → 0 < count x l → 0 < count y l → x ≢ y → Apart (node_of x) 16 (node_of y) 16)
    → Separate l
Separate-counted [] once away = tt
Separate-counted (b ∷ bs) once away = (
  All-counted (λ x. Apart (node_of x) 16 (node_of b) 16) bs
      (λ x more. away x b (ground arith) (ground arith) (λ e. twice x more e)),
  Separate-counted bs (λ x. fewer x) (λ x y hx hy ne. away x y (ground arith) (ground arith) ne),
)
  where
    twice : (x : Ptr) → 0 < count x bs → x ≡ b → ⊥
    twice x more e = ground (arith, once x)

    fewer : (x : Ptr) → count x bs ≤ 1
    fewer x = ground (arith, once x)

-- A block that a bin counts is free and of that bin's sizes.
pub in_bin-positive :
    (i : ℕ) (o : Option Cell)
    → 0 < in_bin i o
    → (c : Cell) × (o ≡ some c) × (c.free ≡ true) × (bin_index c.size ≡ i)
in_bin-positive i none h = absurd (omega arith)
in_bin-positive i (some c) h = elim (Bool-cases c.free) [
  | inl e ↦ (c, refl, e, ground (arith, e))
  | inr e ↦ absurd (ground (arith, e))
]

pub in_bin-once : (i : ℕ) (o : Option Cell) → in_bin i o ≤ 1
in_bin-once i none = omega arith
in_bin-once i (some c) = ground arith

pub SameLinks-range : (m m' : Bytes) (x : Ptr) → SameOn (node_of x) 16 m m' → SameLinks m m' x
SameLinks-range m m' x same = (
  read_le-same 8 (node_of x) m m'
      (SameOn-part (node_of x) 16 (node_of x) 8 m m' (omega arith) (omega arith) same),
  read_le-same 8 (node_of x + 8) m m'
      (SameOn-part (node_of x) 16 (node_of x + 8) 8 m m' (omega arith) (omega arith) same),
)

module _ (v : View) (loose : Ptr) (segments : List Region) (laid : Laid v loose segments) (i : ℕ)
    (l : List Ptr) (once : (x : Ptr) → count x l ≡ in_bin i (v x)) where
  -- What a bin counts are free blocks of its sizes.
  pub member :
      (x : Ptr)
      → 0 < count x l
      → (c : Cell) × (v x ≡ some c) × (c.free ≡ true) × (bin_index c.size ≡ i)
  member x more = in_bin-positive i (v x) (omega (arith, once x))

  pub bin-Separate : Separate l
  bin-Separate =
      Separate-counted l (λ x. omega (arith, once x, in_bin-once i (v x)))
        (λ x y hx hy ne. far x y hx hy ne)
    where
      far :
          (x y : Ptr) → 0 < count x l → 0 < count y l → x ≢ y → Apart (node_of x) 16 (node_of y) 16
      far x y hx hy ne =
          let (c, cx, _, _) = member x hx in
          let (d, dy, _, _) = member y hy in
          ground (arith, header-apart v loose segments laid x y c d cx dy ne)
