-- ===== src/Segment/Bins/Unlink.antt =====
-- The links that `removeFree` writes: a bin's list without a block that has another before it.
pub mod Remove
use m_alloc.Base.{
  ◌+◌, ◌<◌, ◌≡◌, refl, sym, subst, arith, ◌==◌, if_intro, if◌then◌else◌, List, [], ◌∷◌, ◌++◌, All,
  All-mono, inl, inr, ◌∙◌, true,
}
use m_alloc.Memory.{Ptr, Bytes, null, load64, store64}
use m_alloc.Memory.Laws.{Apart, load64-store64}
use m_alloc.Header.{word}
use m_alloc.Segment.Tag.{node_of}
use m_alloc.Segment.Bins.{node_prev, node_next}
use m_alloc.Segment.Bins.Front.{Linked, Separate, Linked-spared, elsewhere}

-- From `prev` and `node` the links lead through these blocks to `prev'` and `node'`.
abbrev pub Segment : Bytes → Ptr → Ptr → List Ptr → Ptr → Ptr → Type 0
Segment m prev node [] prev' node' = (prev ≡ prev') × (node ≡ node')
Segment m prev node (b ∷ bs) prev' node' =
    (node ≡ node_of b)
    × (node < word)
    × (node_prev node m ≡ prev)
    × Segment m node (node_next node m) bs prev' node'

-- The two link words of a block are the same in two memories.
abbrev pub SameLinks : Bytes → Bytes → Ptr → Type 0
SameLinks m m' x =
    (load64 (node_of x) m' ≡ load64 (node_of x) m)
    × (load64 (node_of x + 8) m' ≡ load64 (node_of x + 8) m)

pub Linked-split :
    (m : Bytes) (prev node : Ptr) (xs ys : List Ptr)
    → Linked m prev node (xs ++ ys)
    → (prev' : Ptr) × (node' : Ptr) × Segment m prev node xs prev' node' × Linked m prev' node' ys
Linked-split m prev node [] ys l = (prev, node, (refl, refl), l)
Linked-split m prev node (x ∷ xs) ys l =
    let (p, n, s, r) = Linked-split m node (node_next node m) xs ys l.3 in
    (p, n, (l.0, l.1, l.2, s), r)

pub Segment-join :
    (m : Bytes) (prev node : Ptr) (xs ys : List Ptr) (prev' node' : Ptr)
    → Segment m prev node xs prev' node'
    → Linked m prev' node' ys
    → Linked m prev node (xs ++ ys)
Segment-join m prev node [] ys prev' node' s l =
    subst (λ p. Linked m p node ys) (sym s.0) (subst (λ n. Linked m prev' n ys) (sym s.1) l)
Segment-join m prev node (x ∷ xs) ys prev' node' s l =
    (s.0, s.1, s.2, Segment-join m node (node_next node m) xs ys prev' node' s.3 l)

Segment-spared :
    (m m' : Bytes) (prev node : Ptr) (xs : List Ptr) (prev' node' : Ptr)
    → All (SameLinks m m') xs
    → Segment m prev node xs prev' node'
    → Segment m' prev node xs prev' node'
Segment-spared m m' prev node [] prev' node' same s = s
Segment-spared m m' prev node (x ∷ xs) prev' node' same s =
    let at : node ≡ node_of x = s.0 in
    (
      s.0,
      s.1,
      subst (λ n. load64 n m' ≡ load64 n m) (sym at) same.0.0 ∙ s.2,
      subst (λ t. Segment m' node t xs prev' node')
          (sym (subst (λ n. load64 (n + 8) m' ≡ load64 (n + 8) m) (sym at) same.0.1))
          (Segment-spared m m' node (node_next node m) xs prev' node' same.1 s.3),
    )

-- The parts of separate blocks are separate, and from each other.
pub Separate-split :
    (xs ys : List Ptr)
    → Separate (xs ++ ys)
    → Separate ys × All (λ x. All (λ y. Apart (node_of y) 16 (node_of x) 16) ys) xs
Separate-split [] ys s = (s, tt)
Separate-split (x ∷ xs) ys s =
    let (right, rest) = Separate-split xs ys s.1 in (right, (All-right xs s.0, rest))
  where
    All-right :
        (zs : List Ptr)
        → All (λ y. Apart (node_of y) 16 (node_of x) 16) (zs ++ ys)
        → All (λ y. Apart (node_of y) 16 (node_of x) 16) ys
    All-right [] h = h
    All-right (z ∷ zs) h = All-right zs h.1

-- The first of the later blocks is told another way back.
unfoldable retarget : Ptr → Ptr → Bytes → Bytes
retarget next back m = if next == null then m else store64 next back m

retarget-away :
    (next back q : Ptr) (m : Bytes)
    → Apart q 8 next 8
    → load64 q (retarget next back m) ≡ load64 q m
unfolding retarget
retarget-away next back q m h =
    if_intro (λ m'. load64 q m' ≡ load64 q m) (next == null) (λ _. refl)
      (λ _. elsewhere q next back m h)

retarget-Linked :
    (m : Bytes) (prev back next : Ptr) (ys : List Ptr)
    → back < word
    → Separate ys
    → Linked m prev next ys
    → Linked (retarget next back m) back next ys
unfolding retarget
retarget-Linked m prev back next [] fits apart l = l
retarget-Linked m prev back next (y ∷ ys) fits apart l =
    if_intro (λ m'. Linked m' back next (y ∷ ys)) (next == null)
      (λ end. absurd (ground (arith, l.0)))
      (λ _. (
        l.0,
        l.1,
        load64-store64 next back m ∙ omega arith,
        subst (λ t. Linked m1 next t ys)
            (sym (elsewhere (next + 8) next back m (inr (omega arith))))
            (Linked-spared m m1 next (node_next next m) ys
              (All-mono (λ x. Apart (node_of x) 16 (node_of y) 16) (SameLinks m m1) ys spared
                apart.0)
              l.3),
      ))
  where
    m1 : Bytes
    m1 = store64 next back m

    spared : (x : Ptr) → Apart (node_of x) 16 (node_of y) 16 → SameLinks m m1 x
    spared x h = (
      elsewhere (node_of x) next back m (ground (arith, l.0)),
      elsewhere (node_of x + 8) next back m (ground (arith, l.0)),
    )

-- What `removeFree` does to the memory before it clears the flag: the two neighbours' links.
bridged : Ptr → Ptr → Ptr → Bytes → Bytes
bridged prev next node m = retarget next prev (store64 (prev + 8) next m)

module _ (a b : Ptr) (m : Bytes) (zs ys : List Ptr) (apart : Separate (zs ++ a ∷ b ∷ ys))
    (prev : Ptr) (links : Linked m prev (node_of a) (a ∷ b ∷ ys)) where
  unfoldable next : Ptr
  next = node_next (node_of b) m

  -- After the write to the left neighbour.
  unfoldable m1 : Bytes
  m1 = store64 (node_of a + 8) next m

  right : Separate (a ∷ b ∷ ys)
  right = (Separate-split zs (a ∷ b ∷ ys) apart).0

  b_at : node_next (node_of a) m ≡ node_of b
  b_at = links.3.0

  b_links : Linked m (node_of a) (node_of b) (b ∷ ys)
  b_links = subst (λ n. Linked m (node_of a) n (b ∷ ys)) b_at links.3

  next-small : (bs : List Ptr) (back n : Ptr) → Linked m back n bs → n < word
  next-small [] back n l = omega (arith, l)
  next-small (x ∷ bs) back n l = l.1

  spared : (x : Ptr) → Apart (node_of x) 16 (node_of a) 16 → SameLinks m m1 x
  unfolding m1
  spared x h = (
    elsewhere (node_of x) (node_of a + 8) next m (ground arith),
    elsewhere (node_of x + 8) (node_of a + 8) next m (ground arith),
  )

  tail-Linked : Linked (retarget next (node_of a) m1) (node_of a) next ys
  unfolding next
  tail-Linked = retarget-Linked m1 (node_of b) (node_of a) next ys links.1 right.1.1 (
      Linked-spared m m1 (node_of b) next ys
        (All-mono (λ x. Apart (node_of x) 16 (node_of a) 16) (SameLinks m m1) ys spared right.0.1)
        b_links.3)

  -- The write to the right neighbour spares what comes before it.
  before :
      (x : Ptr)
      → (bs : List Ptr) → Linked m (node_of b) next bs
      → All (λ y. Apart (node_of y) 16 (node_of x) 16) bs
      → SameLinks m1 (retarget next (node_of a) m1) x
  unfolding retarget
  before x [] l h = let end : (next == null) ≡ true = ground arith in rw end (refl, refl)
  before x (y ∷ bs) l h = (
    retarget-away next (node_of a) (node_of x) m1 (ground (arith, l.0, h.0)),
    retarget-away next (node_of a) (node_of x + 8) m1 (ground (arith, l.0, h.0)),
  )

  b_links_at : Linked m (node_of b) next ys
  unfolding next
  b_links_at = b_links.3

  middle-Linked : Linked (retarget next (node_of a) m1) prev (node_of a) (a ∷ ys)
  unfolding m1
  middle-Linked =
      let a_same = before a ys b_links_at right.0.1 in
      (
        refl,
        links.1,
        a_same.0 ∙ elsewhere (node_of a) (node_of a + 8) next m (inl (omega arith)) ∙ links.2,
        subst (λ t. Linked (retarget next (node_of a) m1) (node_of a) t ys)
            (sym (
              a_same.1
              ∙ load64-store64 (node_of a + 8) next m
              ∙ omega (arith, next-small ys (node_of b) next b_links_at)))
            tail-Linked,
      )

  whole-Linked :
      (start : Ptr)
      → (first : Ptr) → Segment m start first zs prev (node_of a)
      → Linked (retarget next (node_of a) m1) start first (zs ++ a ∷ ys)
  whole-Linked start first s =
      Segment-join _ start first zs (a ∷ ys) prev (node_of a)
        (Segment-spared m _ start first zs prev (node_of a)
          (All-mono _ (SameLinks m (retarget next (node_of a) m1)) zs far
            (Separate-split zs (a ∷ b ∷ ys) apart).1)
          s)
        middle-Linked
    where
      far :
          (x : Ptr)
          → All (λ y. Apart (node_of y) 16 (node_of x) 16) (a ∷ b ∷ ys)
          → SameLinks m (retarget next (node_of a) m1) x
      far x h =
          let near = spared x (ground (arith, h.0)) in
          let late = before x ys b_links_at h.1.1 in (late.0 ∙ near.0, late.1 ∙ near.1)
