-- ===== src/Segment/Heap/Fuel.antt =====
-- The walks through a bin end: a bin holds fewer blocks than the fuel that `total_size` gives.
use m_alloc.Base.{
  ℕ, zero, suc, ◌+◌, ◌-◌, ◌≤◌, ◌<◌, ◌≡◌, refl, arith, true, false, sym, ap, ◌∙◌, inl, inr, subst,
  some, none, List, [], ◌∷◌, ◌==◌, Bool-cases, if◌then◌else◌, All, length, min, get_or, leb,
  Option-cases, drop, le-or-lt, ◌/◌, ltb,
}
use m_alloc.Memory.{Ptr, Bytes, null}
use m_alloc.Header.{word}
use m_alloc.SystemMemory.{Region, within, covered}
use m_alloc.Segment.Tag.{digits_below, bin_index, bit_width, size_at, block_of_node}
use m_alloc.Segment.Bins.{SegmentHeap, node_next, fit_in_bin, fit_from}
use m_alloc.Segment.Bins.Front.{Linked}
use m_alloc.Segment.Ops.{total_size, find_fit}
use m_alloc.Segment.Heap.{Cell, View, HeapInv, count, in_bin}
use m_alloc.Segment.Heap.Members.{All-counted, member, in_bin-once}
use m_alloc.Segment.Heap.Search.{get_or-drop}
use m_alloc.Segment.Heap.Beyond.{member-covered}

-- A sum over the addresses below a bound.
sum : ℕ → (ℕ → ℕ) → ℕ
sum zero f = 0
sum (suc n) f = sum n f + f n

sum_mono : (n : ℕ) (f g : ℕ → ℕ) → ((a : ℕ) → f a ≤ g a) → sum n f ≤ sum n g
unfolding sum
sum_mono zero f g h = omega arith
sum_mono (suc n) f g h = omega (arith, sum_mono n f g h, h n)

sum-add : (n : ℕ) (f g : ℕ → ℕ) → sum n (λ a. f a + g a) ≡ sum n f + sum n g
unfolding sum
sum-add zero f g = omega arith
sum-add (suc n) f g = omega (arith, sum-add n f g)

sum-zero : (n : ℕ) → sum n (λ _. 0) ≡ 0
unfolding sum
sum-zero zero = refl
sum-zero (suc n) = omega (arith, sum-zero n)

-- A region holds no more addresses than its size.
sum-within : (n p k : ℕ) → sum n (within p k) ≡ min (n - p) k
unfolding sum within
sum-within zero p k = omega arith
sum-within (suc n) p k = ground (arith, sum-within n p k)

sum-covered : (n : ℕ) (segments : List Region) → sum n (covered segments) ≤ total_size segments
unfolding covered total_size
sum-covered n [] = omega (arith, sum-zero n)
sum-covered n (r ∷ rs) = omega (
  arith,
  sum-add n (within r.base r.size) (covered rs),
  sum-within n r.base r.size,
  sum-covered n rs,
)

sum-one : (n b : ℕ) → sum n (λ a. if a == b then 1 else 0) ≡ min (n - b) 1
unfolding sum
sum-one zero b = omega arith
sum-one (suc n) b = ground (arith, sum-one n b)

-- The blocks of a list, counted at every address.
length-sum : (n : ℕ) (l : List Ptr) → All (λ x. x < n) l → length l ≤ sum n (λ a. count a l)
length-sum n [] low = omega arith
length-sum n (b ∷ bs) low =
    let parts =
      sum_mono n (λ a. (if a == b then 1 else 0) + count a bs) (λ a. count a (b ∷ bs))
        (λ a. ground arith) in
    omega (
      arith,
      parts,
      sum-add n (λ a. if a == b then 1 else 0) (λ a. count a bs),
      sum-one n b,
      length-sum n bs low.1,
      low.0,
    )

module _ (v : View) (lists : ℕ → List Ptr) (loose : Ptr) (h : SegmentHeap) (m : Bytes)
    (inv : HeapInv v lists loose h m) where
  open inv use {laid, held, binned}

  -- Each block of a bin lies in a segment, at an address of its own.
  count-covered : (i : ℕ) (a : Ptr) → count a (lists i) ≤ covered h.segments a
  unfolding within
  count-covered i a = elim (Bool-cases (count a (lists i) == 0)) [
    | inl none_there ↦ ground arith
    | inr some_there ↦
        let (c, at, _, _) =
          member v loose h.segments laid i (lists i) (binned.once i) a (ground arith) in
        let g = laid.home a c at in
        let s = laid.shape a c at in
        grind (
          arith,
          member-covered c.home h.segments a g.among,
          binned.once i a,
          in_bin-once i (v a),
          g.from,
          g.to,
          s.big,
        )
  ]

  -- The fuel of the walks through a bin, `total_size` and one, is more than the number of its blocks.
  pub bins-short : (i : ℕ) → length (lists i) < total_size h.segments + 1
  bins-short i =
      let low =
        All-counted (λ x. x < word) (lists i)
          (λ x more.
            let (c, at, _, _) = member v loose h.segments laid i (lists i) (binned.once i) x more in
            let s = laid.shape x c at in omega (arith, s.in_space)) in
      omega (
        arith,
        length-sum word (lists i) low,
        sum_mono word (λ a. count a (lists i)) (covered h.segments) (count-covered i),
        sum-covered word h.segments,
      )

-- A search that finds nothing has seen every block of the bin.
fit_in_bin_complete :
    (fuel prev node total : ℕ) (m : Bytes) (bs : List Ptr)
    → Linked m prev node bs
    → length bs < fuel
    → fit_in_bin fuel node total m ≡ none
    → (b : Ptr) → 0 < count b bs
    → size_at b m < total
unfolding fit_in_bin
fit_in_bin_complete zero prev node total m bs l short e b more = absurd (omega arith)
fit_in_bin_complete (suc fuel) prev node total m [] l short e b more = absurd (omega arith)
fit_in_bin_complete (suc fuel) prev node total m (x ∷ bs) l short e b more =
    let back : block_of_node node ≡ x = omega (arith, l.0) in
    let go : (node == null) ≡ false = ground (arith, l.0) in
    elim (Bool-cases (leb total (size_at x m))) [
      | inl big ↦ absurd (ground (arith, (rw (go, back, big) at e)))
      | inr small ↦ elim (Bool-cases (b == x)) [
        | inl eq ↦
            let same : x ≡ b = ground arith in
            subst (λ y. size_at y m < total) same (ground (arith, small))
        | inr eq ↦
            fit_in_bin_complete fuel node (node_next node m) total m bs l.3 (omega arith)
              (rw (go, back, small) at e) b (ground arith)
      ]
    ]

nothing-Linked : (m : Bytes) (b : Ptr) (bs : List Ptr) → Linked m null null bs → count b bs ≡ 0
nothing-Linked m b [] l = refl
nothing-Linked m b (x ∷ bs) l = absurd (omega (arith, l.0))

fit_from_complete :
    (fuel total : ℕ) (m : Bytes) (heads : List Ptr) (f : ℕ → List Ptr)
    → ((i : ℕ) → Linked m null (get_or heads i null) (f i))
    → ((i : ℕ) → length (f i) < fuel)
    → fit_from fuel heads total m ≡ none
    → (i : ℕ) (b : Ptr) → 0 < count b (f i)
    → size_at b m < total
unfolding fit_from
fit_from_complete fuel total m [] f links short e i b more =
    absurd (omega (arith, nothing-Linked m b (f i) (links i)))
fit_from_complete fuel total m (n ∷ heads) f links short e i b more =
    elim (Option-cases (fit_in_bin fuel n total m)) [
      | inl missed ↦ here i missed more (λ j there.
          fit_from_complete fuel total m heads (λ k. f (suc k)) (λ k. links (suc k))
            (λ k. short (suc k)) (rw (missed, fit_from) at e) j b there)
      | inr (x, hit) ↦ absurd (ground (arith, (rw (hit, fit_from) at e)))
    ]
  where
    here :
        (j : ℕ)
        → fit_in_bin fuel n total m ≡ none
        → 0 < count b (f j)
        → ((k : ℕ) → 0 < count b (f (suc k)) → size_at b m < total)
        → size_at b m < total
    here zero missed there later =
        fit_in_bin_complete fuel null n total m (f 0) (links 0) (short 0) missed b there
    here (suc j) missed there later = later j there

digits_mono : (k a b : ℕ) → a ≤ b → digits_below k a ≤ digits_below k b
unfolding digits_below
digits_mono zero a b h = omega arith
digits_mono (suc k) a b h = ground (arith, digits_mono k (a / 2) (b / 2))

index_mono :
    (a b : ℕ)
    → a ≤ b
    → min (if ltb 6 a then a - 6 else 0) 17 ≤ min (if ltb 6 b then b - 6 else 0) 17
index_mono a b h = ground arith

free-in_bin : (i : ℕ) (c : Cell) → c.free ≡ true → bin_index c.size ≡ i → in_bin i (some c) ≡ 1
free-in_bin i c is_free e =
    let same : (bin_index c.size == i) ≡ true = ground (arith, e) in rw (is_free, same) refl

-- Larger sizes have no earlier bins.
pub bin_index_mono : (a b : ℕ) → a ≤ b → bin_index a ≤ bin_index b
unfolding bin_index bit_width
bin_index_mono a b h = index_mono (digits_below 64 a) (digits_below 64 b) (digits_mono 64 a b h)

-- The loops of `findFit` end within the fuel that the sizes of the segments give, and have then seen
-- every block that could serve: null means that no free block has the wanted size.
pub find_fit_complete :
    (v : View) (lists : ℕ → List Ptr) (h : SegmentHeap) (m : Bytes) (total : ℕ)
    → HeapInv v lists null h m
    → find_fit total h m ≡ none
    → (b : Ptr) (c : Cell) → v b ≡ some c
    → c.free ≡ true
    → c.size < total
unfolding find_fit
find_fit_complete v lists h m total inv e b c at is_free = elim (le-or-lt total c.size) [
  | inr less ↦ less
  | inl big ↦
      let j : ℕ = bin_index total in
      let later = bin_index_mono total c.size big in
      let same : j + (bin_index c.size - j) ≡ bin_index c.size = omega (arith, later) in
      let there : count b (lists (j + (bin_index c.size - j))) ≡ 1 =
        inv.binned.once (j + (bin_index c.size - j)) b
        ∙ ap (in_bin (j + (bin_index c.size - j))) at
        ∙ free-in_bin (j + (bin_index c.size - j)) c is_free (sym same) in
      let found =
        fit_from_complete (total_size h.segments + 1) total m (drop j h.bins) (λ i. lists (j + i))
          (λ i.
            subst (λ n. Linked m null n (lists (j + i))) (sym (get_or-drop j i h.bins))
              (inv.binned.linked (j + i)))
          (λ i. bins-short v lists null h m inv (j + i)) e (bin_index c.size - j) b
          (omega (arith, there)) in
      absurd (omega (arith, found, (inv.held b c at).size))
]
