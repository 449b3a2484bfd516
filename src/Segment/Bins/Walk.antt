-- ===== src/Segment/Bins/Walk.antt =====
-- The searches over the bins, against the lists of blocks that the bins link.
use m_alloc.Base.{
  ℕ, zero, suc, ◌+◌, ◌%◌, ◌<◌, ◌≡◌, refl, arith, true, false, ◌==◌, leb, if◌then◌else◌, List, [],
  ◌∷◌, ◌++◌, Option, none, some, Option-cases, Bool-cases, inl, inr, length, max, ◌∙◌, sym,
}
use m_alloc.Memory.{Ptr, Bytes, null}
use m_alloc.Header.{word}
use m_alloc.Segment.Tag.{size_at, node_of, block_of_node}
use m_alloc.Segment.Bins.{node_next, fit_in_bin, fit_from}
use m_alloc.Segment.Ops.{bin_usage, heap_usage}

-- From the node the links lead through these blocks to the null pointer.
abbrev pub Links : Bytes → Ptr → List Ptr → Type 0
Links m node [] = node ≡ null
Links m node (b ∷ bs) = (node ≡ node_of b) × Links m (node_next node m) bs

-- The same for each bin, none of which is longer than `fuel`.
abbrev pub Bins : ℕ → Bytes → List Ptr → List (List Ptr) → Type 0
Bins fuel m [] [] = Unit {0}
Bins fuel m [] (l ∷ ls) = ⊥
Bins fuel m (h ∷ hs) [] = ⊥
Bins fuel m (h ∷ hs) (l ∷ ls) = Links m h l × (length l < fuel) × Bins fuel m hs ls

-- The first block of at least the wanted size.
unfoldable pub first_fit : ℕ → Bytes → List Ptr → Option Ptr
first_fit total m [] = none
first_fit total m (b ∷ bs) = if leb total (size_at b m) then some b else first_fit total m bs

abbrev pub all_blocks : List (List Ptr) → List Ptr
all_blocks [] = []
all_blocks (l ∷ ls) = l ++ all_blocks ls

fit_in_bin-first :
    (fuel node total : ℕ) (m : Bytes) (bs : List Ptr)
    → Links m node bs
    → length bs < fuel
    → fit_in_bin fuel node total m ≡ first_fit total m bs
unfolding fit_in_bin first_fit
fit_in_bin-first zero node total m bs links short = absurd (omega arith)
fit_in_bin-first (suc fuel) node total m [] links short = ground arith
fit_in_bin-first (suc fuel) node total m (b ∷ bs) links short =
    let back : block_of_node node ≡ b = omega (arith, links.0) in
    ground (arith, fit_in_bin-first fuel (node_next node m) total m bs links.1 (omega arith))

first_fit-append :
    (total : ℕ) (m : Bytes) (xs ys : List Ptr)
    → first_fit total m (xs ++ ys)
      ≡ elim (first_fit total m xs) [ some b ↦ some b | none ↦ first_fit total m ys ]
unfolding first_fit
first_fit-append total m [] ys = refl
first_fit-append total m (x ∷ xs) ys = elim (Bool-cases (leb total (size_at x m))) [
  | inl e ↦ rw e refl
  | inr e ↦ rw e (first_fit-append total m xs ys)
]

-- With fuel for the longest bin, the search of `findFit` returns the first block that is large
-- enough, in the order of the bins and of their links, and none if there is none.
pub fit_from-first :
    (fuel total : ℕ) (m : Bytes) (heads : List Ptr) (ls : List (List Ptr))
    → Bins fuel m heads ls
    → fit_from fuel heads total m ≡ first_fit total m (all_blocks ls)
unfolding fit_from first_fit
fit_from-first fuel total m [] [] bins = refl
fit_from-first fuel total m [] (l ∷ ls) bins = absurd bins
fit_from-first fuel total m (h ∷ hs) [] bins = absurd bins
fit_from-first fuel total m (h ∷ hs) (l ∷ ls) bins = elim (Option-cases (first_fit total m l)) [
  | inl e ↦
      let here : fit_in_bin fuel h total m ≡ none =
        fit_in_bin-first fuel h total m l bins.0 bins.1 ∙ e in
      let tail : first_fit total m (l ++ all_blocks ls) ≡ first_fit total m (all_blocks ls) =
        first_fit-append total m l (all_blocks ls) ∙ rw e refl in
      rw (here, fit_from) (fit_from-first fuel total m hs ls bins.2 ∙ sym tail)
  | inr (b, e) ↦
      let here : fit_in_bin fuel h total m ≡ some b =
        fit_in_bin-first fuel h total m l bins.0 bins.1 ∙ e in
      let tail : first_fit total m (l ++ all_blocks ls) ≡ some b =
        first_fit-append total m l (all_blocks ls) ∙ rw e refl in
      rw (here, fit_from) (sym tail)
]

pair_eq {ℓ κ} :
    {A : Type ℓ} {B : Type κ} {a a' : A} {b b' : B}
    → a ≡ a'
    → b ≡ b'
    → ◌≡◌ {A = A × B} (a, b) (a', b')
pair_eq p q = λ i. (p i, q i)

-- The bytes of all the blocks, and of the largest.
unfoldable pub bytes_of : Bytes → List Ptr → ℕ
bytes_of m [] = 0
bytes_of m (b ∷ bs) = size_at b m + bytes_of m bs

unfoldable pub largest_of : Bytes → List Ptr → ℕ
largest_of m [] = 0
largest_of m (b ∷ bs) = max (size_at b m) (largest_of m bs)

bin_usage-sums :
    (fuel node : ℕ) (m : Bytes) (bs : List Ptr) (free largest : ℕ)
    → Links m node bs
    → length bs < fuel
    → free + bytes_of m bs < word
    → bin_usage fuel node m (free, largest) ≡ (free + bytes_of m bs, max largest (largest_of m bs))
unfolding bin_usage bytes_of largest_of
bin_usage-sums zero node m bs free largest links short fits = absurd (omega arith)
bin_usage-sums (suc fuel) node m [] free largest links short fits =
    let end : (node == null) ≡ true = ground arith in rw end (pair_eq (omega arith) (omega arith))
bin_usage-sums (suc fuel) node m (b ∷ bs) free largest links short fits =
    let back : block_of_node node ≡ b = omega (arith, links.0) in
    let more : (node == null) ≡ false = ground arith in
    let small : (free + size_at b m) % word ≡ free + size_at b m = omega arith in
    rw (more, back, small)
      (bin_usage-sums fuel (node_next node m) m bs (free + size_at b m) (max largest (size_at b m))
          links.1 (omega arith) (omega arith)
        ∙ pair_eq (omega arith) (omega arith))

bytes-append :
    (m : Bytes) (xs ys : List Ptr)
    → (bytes_of m (xs ++ ys) ≡ bytes_of m xs + bytes_of m ys)
      × (largest_of m (xs ++ ys) ≡ max (largest_of m xs) (largest_of m ys))
unfolding bytes_of largest_of
bytes-append m [] ys = (omega arith, omega arith)
bytes-append m (x ∷ xs) ys =
    let more = bytes-append m xs ys in (omega (arith, more.0), omega (arith, more.1))

-- `externalFragmentation` adds up the sizes of all the blocks in the bins, and finds the largest.
pub heap_usage-sums :
    (fuel : ℕ) (m : Bytes) (heads : List Ptr) (ls : List (List Ptr)) (free largest : ℕ)
    → Bins fuel m heads ls
    → free + bytes_of m (all_blocks ls) < word
    → heap_usage fuel heads m (free, largest)
      ≡ (free + bytes_of m (all_blocks ls), max largest (largest_of m (all_blocks ls)))
unfolding heap_usage bytes_of largest_of
heap_usage-sums fuel m [] [] free largest bins fits = pair_eq (omega arith) (omega arith)
heap_usage-sums fuel m [] (l ∷ ls) free largest bins fits = absurd bins
heap_usage-sums fuel m (h ∷ hs) [] free largest bins fits = absurd bins
heap_usage-sums fuel m (h ∷ hs) (l ∷ ls) free largest bins fits =
    let here = bytes-append m l (all_blocks ls) in
    let head = bin_usage-sums fuel h m l free largest bins.0 bins.1 (omega (arith, here.0)) in
    rw head (
      heap_usage-sums fuel m hs ls (free + bytes_of m l) (max largest (largest_of m l)) bins.2
        (omega (arith, here.0))
      ∙ pair_eq (omega (arith, here.0)) (omega (arith, here.1)))
