-- ===== src/Segment/Bins/Front.antt =====
-- `insertFree`: the doubly linked list of a bin with a new block in front.
use m_alloc.Base.{
  ℕ, ◌+◌, ◌%◌, ◌<◌, ◌≡◌, refl, sym, subst, arith, ◌==◌, if_intro, List, [], ◌∷◌, All, All-mono, inl,
  inr, ◌∙◌,
}
use m_alloc.Memory.{Ptr, Bytes, null, write_le, load64, store64}
use m_alloc.Memory.Laws.{Apart, load64-store64, read_le-write_le}
use m_alloc.Header.{word}
use m_alloc.Segment.Tag.{node_of}
use m_alloc.Segment.Bins.{node_prev, node_next, set_node_prev, set_node_next, link_front}

-- From the node the links lead through the blocks to null, and each block leads back.
abbrev pub Linked : Bytes → Ptr → Ptr → List Ptr → Type 0
Linked m prev node [] = node ≡ null
Linked m prev node (b ∷ bs) =
    (node ≡ node_of b)
    × (node < word)
    × (node_prev node m ≡ prev)
    × Linked m node (node_next node m) bs

-- The nodes of the blocks, of sixteen bytes each, do not meet.
abbrev pub Separate : List Ptr → Type 0
Separate [] = Unit {0}
Separate (b ∷ bs) = All (λ x. Apart (node_of x) 16 (node_of b) 16) bs × Separate bs

pub elsewhere : (q p v : ℕ) (m : Bytes) → Apart q 8 p 8 → load64 q (store64 p v m) ≡ load64 q m
elsewhere q p v m h = read_le-write_le 8 q 8 p v m h

-- Writes that spare the nodes spare the list.
pub Linked-spared :
    (m m' : Bytes) (prev node : Ptr) (bs : List Ptr)
    → All
        (λ x.
          (load64 (node_of x) m' ≡ load64 (node_of x) m)
          × (load64 (node_of x + 8) m' ≡ load64 (node_of x + 8) m))
        bs
    → Linked m prev node bs
    → Linked m' prev node bs
Linked-spared m m' prev node [] same l = l
Linked-spared m m' prev node (b ∷ bs) same l =
    let at : node ≡ node_of b = l.0 in
    (
      l.0,
      l.1,
      subst (λ n. load64 n m' ≡ load64 n m) (sym at) same.0.0 ∙ l.2,
      subst (λ t. Linked m' node t bs)
          (sym (subst (λ n. load64 (n + 8) m' ≡ load64 (n + 8) m) (sym at) same.0.1))
          (Linked-spared m m' node (node_next node m) bs same.1 l.3),
    )

module _ (b : Ptr) (old : Ptr) (m : Bytes) (bs : List Ptr) (fits : node_of b < word)
    (apart : Separate (b ∷ bs)) (links : Linked m null old bs) where
  node : Ptr
  node = node_of b

  fresh : Bytes
  fresh = set_node_next node old (set_node_prev node null m)

  fresh-next : node_next node fresh ≡ old
  unfolding fresh
  fresh-next = load64-store64 (node + 8) old (set_node_prev node null m) ∙ small bs links
    where
      small : (xs : List Ptr) → Linked m null old xs → old % word ≡ old
      small [] l = omega (arith, l)
      small (x ∷ xs) l = omega (arith, l.1)

  fresh-prev : node_prev node fresh ≡ null
  unfolding fresh
  fresh-prev =
      elsewhere node (node + 8) old _ (inl (omega arith)) ∙ load64-store64 node null m ∙ refl

  fresh-spares :
      (x : Ptr)
      → Apart (node_of x) 16 (node_of b) 16
      → (load64 (node_of x) fresh ≡ load64 (node_of x) m)
        × (load64 (node_of x + 8) fresh ≡ load64 (node_of x + 8) m)
  unfolding fresh node
  fresh-spares x h = (
    elsewhere (node_of x) (node + 8) old _ (ground arith)
        ∙ elsewhere (node_of x) node null m (ground arith),
    elsewhere (node_of x + 8) (node + 8) old _ (ground arith)
        ∙ elsewhere (node_of x + 8) node null m (ground arith),
  )

  spared :
      (xs : List Ptr)
      → All (λ x. Apart (node_of x) 16 (node_of b) 16) xs
      → All
          (λ x.
            (load64 (node_of x) fresh ≡ load64 (node_of x) m)
            × (load64 (node_of x + 8) fresh ≡ load64 (node_of x + 8) m))
          xs
  spared xs h = All-mono (λ x. Apart (node_of x) 16 (node_of b) 16) _ xs fresh-spares h

module _ (b x : Ptr) (m : Bytes) (xs : List Ptr) (fits : node_of b < word)
    (apart : Separate (b ∷ x ∷ xs)) (links : Linked m null (node_of x) (x ∷ xs)) where
  first : Bytes
  first = fresh b (node_of x) m (x ∷ xs) fits apart links

  second : Bytes
  second = store64 (node_of x) (node_of b) first

  away :
      (y : Ptr)
      → Apart (node_of y) 16 (node_of x) 16
      → (load64 (node_of y) second ≡ load64 (node_of y) first)
        × (load64 (node_of y + 8) second ≡ load64 (node_of y + 8) first)
  unfolding second
  away y h = (
    elsewhere (node_of y) (node_of x) (node_of b) first (ground arith),
    elsewhere (node_of y + 8) (node_of x) (node_of b) first (ground arith),
  )

  flip : Apart (node_of b) 16 (node_of x) 16
  flip = ground (arith, apart.0.0)

  rest-Linked : Linked second (node_of x) (node_next (node_of x) m) xs
  unfolding first fresh
  rest-Linked =
      Linked-spared first second (node_of x) (node_next (node_of x) m) xs
        (All-mono (λ y. Apart (node_of y) 16 (node_of x) 16) _ xs away apart.1.0)
        (Linked-spared m first (node_of x) (node_next (node_of x) m) xs
          (spared b (node_of x) m (x ∷ xs) fits apart links xs apart.0.1) links.3)

  second-Linked : Linked second null (node_of b) (b ∷ x ∷ xs)
  unfolding node first fresh second write_le
  second-Linked =
      let b_away = away b flip in
      let b_next = b_away.1 ∙ fresh-next b (node_of x) m (x ∷ xs) fits apart links in
      let x_next : node_next (node_of x) second ≡ node_next (node_of x) m =
        elsewhere (node_of x + 8) (node_of x) (node_of b) first (inr (omega arith))
        ∙ (fresh-spares b (node_of x) m (x ∷ xs) fits apart links x apart.0.0).1 in
      (
        refl,
        fits,
        b_away.0 ∙ fresh-prev b (node_of x) m (x ∷ xs) fits apart links,
        subst (λ t. Linked second (node_of b) t (x ∷ xs)) (sym b_next)
            (
              refl,
              links.1,
              load64-store64 (node_of x) (node_of b) first ∙ omega arith,
              subst (λ t. Linked second (node_of x) t xs) (sym x_next) rest-Linked,
            ),
      )

  front-Linked : Linked (link_front (node_of b) (node_of x) m) null (node_of b) (b ∷ x ∷ xs)
  unfolding link_front node first fresh second
  front-Linked =
      let next : node_next (node_of b) first ≡ node_of x =
        fresh-next b (node_of x) m (x ∷ xs) fits apart links in
      if_intro (λ m'. Linked m' null (node_of b) (b ∷ x ∷ xs)) (node_next (node_of b) first == null)
        (λ end. absurd (ground (arith, next)))
        (λ more.
          subst (λ t. Linked (store64 t (node_of b) first) null (node_of b) (b ∷ x ∷ xs)) (sym next)
            second-Linked)

only-Linked :
    (b old : Ptr) (m : Bytes)
    → node_of b < word
    → Linked m null old []
    → Linked (link_front (node_of b) old m) null (node_of b) (b ∷ [])
unfolding link_front node fresh
only-Linked b old m fits links =
    let next : node_next (node_of b) (fresh b old m [] fits (tt, tt) links) ≡ old =
      fresh-next b old m [] fits (tt, tt) links in
    if_intro (λ m'. Linked m' null (node_of b) (b ∷ []))
      (node_next (node_of b) (fresh b old m [] fits (tt, tt) links) == null)
      (λ end. (refl, fits, fresh-prev b old m [] fits (tt, tt) links, next ∙ links))
      (λ more. absurd (ground (arith, next, links)))

-- Where the nodes do not meet, `insertFree` puts the block's node in front of the bin: the links lead
-- to it first and then through the blocks as before, and each block leads back to the one before it.
pub link_front-Linked :
    (b old : Ptr) (m : Bytes) (bs : List Ptr)
    → node_of b < word
    → Separate (b ∷ bs)
    → Linked m null old bs
    → Linked (link_front (node_of b) old m) null (node_of b) (b ∷ bs)
link_front-Linked b old m [] fits apart links = only-Linked b old m fits links
link_front-Linked b old m (x ∷ xs) fits apart links =
    let head : old ≡ node_of x = links.0 in
    subst (λ o. Linked (link_front (node_of b) o m) null (node_of b) (b ∷ x ∷ xs)) (sym head)
      (front-Linked b x m xs fits apart (subst (λ o. Linked m null o (x ∷ xs)) head links))
