-- ===== src/Segment/Heap/Search.antt =====
-- `findFit` under the invariant: what it returns is a free block that is large enough.
use m_alloc.Base.{
  ℕ, zero, suc, ◌+◌, ◌≤◌, ◌<◌, ◌≡◌, refl, arith, true, false, sym, ap, ◌∙◌, inl, inr, subst, some,
  List, [], ◌∷◌, ◌==◌, Bool-cases, Option-cases, leb, get_or, drop,
}
use mathlib.Core.Option.{some-injective}
use m_alloc.Memory.{Ptr, Bytes, null}
use m_alloc.Segment.Tag.{block_of_node, size_at, bin_index}
use m_alloc.Segment.Bins.{SegmentHeap, node_next, fit_in_bin, fit_from}
use m_alloc.Segment.Bins.Front.{Linked}
use m_alloc.Segment.Ops.{find_fit, total_size}
use m_alloc.Segment.Heap.{Cell, View, HeapInv, count}
use m_alloc.Segment.Heap.Members.{member}

-- What one bin's search returns is in the bin and large enough.
fit_in_bin_sound :
    (fuel prev node total : ℕ) (m : Bytes) (bs : List Ptr) (b : Ptr)
    → Linked m prev node bs
    → fit_in_bin fuel node total m ≡ some b
    → (0 < count b bs) × (total ≤ size_at b m)
unfolding fit_in_bin
fit_in_bin_sound zero prev node total m bs b l e = absurd (ground (arith, e))
fit_in_bin_sound (suc fuel) prev node total m [] b l e = absurd (ground (arith, l, e))
fit_in_bin_sound (suc fuel) prev node total m (x ∷ bs) b l e =
    let back : block_of_node node ≡ x = omega (arith, l.0) in
    let more : (node == null) ≡ false = ground (arith, l.0) in
    elim (Bool-cases (leb total (size_at x m))) [
      | inl big ↦
          let is : x ≡ b = some-injective x b (rw (more, back, big) at e) in
          (ground (arith, is), subst (λ y. total ≤ size_at y m) is (ground (arith, big)))
      | inr small ↦
          let (more', size) =
            fit_in_bin_sound fuel node (node_next node m) total m bs b l.3
              (rw (more, back, small) at e) in
          (ground (arith, more'), size)
    ]

fit_from_sound :
    (fuel total : ℕ) (m : Bytes) (heads : List Ptr) (f : ℕ → List Ptr) (b : Ptr)
    → ((i : ℕ) → Linked m null (get_or heads i null) (f i))
    → fit_from fuel heads total m ≡ some b
    → (i : ℕ) × (0 < count b (f i)) × (total ≤ size_at b m)
unfolding fit_from
fit_from_sound fuel total m [] f b links e = absurd (ground (arith, e))
fit_from_sound fuel total m (n ∷ heads) f b links e =
    elim (Option-cases (fit_in_bin fuel n total m)) [
      | inl missed ↦
          let (i, more, size) =
            fit_from_sound fuel total m heads (λ i. f (suc i)) b (λ i. links (suc i))
              (rw (missed, fit_from) at e) in
          (suc i, more, size)
      | inr (x, hit) ↦
          let is : x ≡ b = some-injective x b (rw (hit, fit_from) at e) in
          let (more, size) =
            fit_in_bin_sound fuel null n total m (f 0) b (links 0) (hit ∙ ap some is) in
          (0, more, size)
    ]

pub get_or-drop : (j i : ℕ) (xs : List Ptr) → get_or (drop j xs) i null ≡ get_or xs (j + i) null
get_or-drop zero i xs = ap (λ (k : ℕ). get_or xs k null) (omega arith)
get_or-drop (suc j) i [] = refl
get_or-drop (suc j) i (x ∷ xs) =
    let next : suc j + i ≡ suc (j + i) = omega arith in rw next (get_or-drop j i xs)

-- What `findFit` returns is a free block of at least the wanted size.
pub find_fit-free :
    (v : View) (lists : ℕ → List Ptr) (h : SegmentHeap) (m : Bytes) (total : ℕ) (b : Ptr)
    → HeapInv v lists null h m
    → find_fit total h m ≡ some b
    → (c : Cell) × (v b ≡ some c) × (c.free ≡ true) × (total ≤ c.size)
unfolding find_fit
find_fit-free v lists h m total b inv e =
    let j : ℕ = bin_index total in
    let (i, more, size) =
      fit_from_sound (total_size h.segments + 1) total m (drop j h.bins) (λ i. lists (j + i)) b
        (λ i.
          subst (λ n. Linked m null n (lists (j + i))) (sym (get_or-drop j i h.bins))
            (inv.binned.linked (j + i)))
        e in
    let (c, at, is_free, _) =
      member v null h.segments inv.laid (j + i) (lists (j + i)) (inv.binned.once (j + i)) b more in
    (c, at, is_free, omega (arith, size, (inv.held b c at).size))
