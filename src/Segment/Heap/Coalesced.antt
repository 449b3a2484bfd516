-- ===== src/Segment/Heap/Coalesced.antt =====
-- No two free blocks are neighbours: what `deallocate` joins for.
use m_alloc.Base.{◌+◌, ◌≡◌, ◌≢◌, arith, true, false, sym, ap, ◌∙◌, inl, inr, subst, some, refl}
use m_alloc.Memory.{Ptr}
use m_alloc.Segment.Heap.{Cell, View, put}
use m_alloc.Segment.Heap.Flip.{flip, put-cases, some-injective}

abbrev pub Coalesced : View → Type 0
Coalesced v =
    (b d : Ptr) (c e : Cell)
    → v b ≡ some c
    → v d ≡ some e
    → c.last ≡ false
    → b + c.size ≡ d
    → c.free ≡ true
    → e.free ≡ true
    → ⊥

-- The block behind a block, and the block before an address, are in use.
abbrev pub After : View → Ptr → Cell → Type 0
After v b c = (e : Cell) → c.last ≡ false → v (b + c.size) ≡ some e → e.free ≡ true → ⊥

abbrev pub Before : View → Ptr → Type 0
Before v b =
    (x : Ptr) (k : Cell) → v x ≡ some k → k.last ≡ false → x + k.size ≡ b → k.free ≡ true → ⊥

-- A block that is free and was so before, in the same place.
pub record WasFree (v : View) (x : Ptr) (e : Cell) : Type 0 where
  pub cell : Cell
  pub there : v x ≡ some cell
  pub is_free : cell.free ≡ true
  pub size : cell.size ≡ e.size
  pub last : cell.last ≡ e.last

abbrev pub NoMoreFree : View → View → Type 0
NoMoreFree v v' = (x : Ptr) (e : Cell) → v' x ≡ some e → e.free ≡ true → WasFree v x e

pub NoMoreFree-trans : (v v' v'' : View) → NoMoreFree v v' → NoMoreFree v' v'' → NoMoreFree v v''
NoMoreFree-trans v v' v'' one two x e at free =
    let k = two x e at free in
    let k' = one x k.cell k.there k.is_free in
    record {
      cell = k'.cell;
      there = k'.there;
      is_free = k'.is_free;
      size = k'.size ∙ k.size;
      last = k'.last ∙ k.last;
    }

pub Coalesced-fewer : (v v' : View) → NoMoreFree v v' → Coalesced v → Coalesced v'
Coalesced-fewer v v' fewer whole b d c e b_at d_at more meets b_free d_free =
    let k = fewer b c b_at b_free in
    let k' = fewer d e d_at d_free in
    whole b d k.cell k'.cell k.there k'.there (k.last ∙ more) (ap (λ s. b + s) k.size ∙ meets)
      k.is_free k'.is_free

pub same_free : (v : View) (x : Ptr) (e : Cell) → v x ≡ some e → e.free ≡ true → WasFree v x e
same_free v x e at free = record { cell = e; there = at; is_free = free; size = refl; last = refl }

-- Taking a block, or marking it in use, makes no block free.
pub used-NoMoreFree : (v : View) (b : Ptr) (c : Cell) → NoMoreFree v (put v b (some (flip false c)))
unfolding flip
used-NoMoreFree v b c x e at free = elim (put-cases v b x (some (flip false c)) e at) [
  | inl (_, same) ↦
      absurd
        (ground (arith, free, ap (λ (k : Cell). k.free) (some-injective (flip false c) e same)))
  | inr (_, was) ↦ same_free v x e was free
]

-- A block whose neighbours are in use may become free.
pub freed-Coalesced :
    (v : View) (b : Ptr) (c : Cell)
    → Coalesced v
    → After v b c
    → Before v b
    → b + c.size ≢ b
    → Coalesced (put v b (some (flip true c)))
unfolding flip
freed-Coalesced v b c whole after before moves x y k e x_at y_at more meets x_free y_free =
    elim (put-cases v b x (some (flip true c)) k x_at) [
      | inl (x_is, same) ↦
          let k_is = some-injective (flip true c) k same in
          let size = ap (λ (g : Cell). g.size) k_is in
          let last = ap (λ (g : Cell). g.last) k_is in
          let y_is : y ≡ b + c.size = omega (arith, x_is, size, meets) in
          elim (put-cases v b y (some (flip true c)) e y_at) [
            | inl (y_b, _) ↦ moves (sym y_is ∙ y_b)
            | inr (_, y_was) ↦ after e (last ∙ more) (subst (λ z. v z ≡ some e) y_is y_was) y_free
          ]
      | inr (_, x_was) ↦ elim (put-cases v b y (some (flip true c)) e y_at) [
        | inl (y_b, _) ↦ before x k x_was more (meets ∙ y_b) x_free
        | inr (_, y_was) ↦ whole x y k e x_was y_was more meets x_free y_free
      ]
    ]
