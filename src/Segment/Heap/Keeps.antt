-- ===== src/Segment/Heap/Keeps.antt =====
-- What an operation of src/SegmentHeap.cpp leaves of the blocks in use: their place, size and payload.
use m_alloc.Base.{
  ℕ, ◌+◌, ◌-◌, ◌≡◌, ◌≢◌, refl, arith, Bool, true, false, sym, ap, ◌∙◌, subst, Option, some, List,
  get_or,
}
use m_alloc.Memory.{Ptr, Bytes, null}
use m_alloc.Memory.Laws.{SameOn, SameOn-trans}
use m_alloc.SystemMemory.{Region}
use m_alloc.Segment.Tag.{node_of}
use m_alloc.Segment.Bins.{SegmentHeap}
use m_alloc.Segment.Bins.Front.{Linked-spared}
use m_alloc.Segment.Bins.Unlink.{SameLinks}
use m_alloc.Segment.Heap.{Cell, View, Laid, Binned, put, in_bin}
use m_alloc.Segment.Heap.Members.{All-counted, SameLinks-range, member}
use m_alloc.Segment.Heap.Flip.{flip, put-away, some-injective}
use m_alloc.Segment.Heap.Marks.{Frame}

-- A block in use that is so still, of the same size and with the same payload.
pub record Kept (v' : View) (m m' : Bytes) (x : Ptr) (e : Cell) : Type 0 where
  pub cell : Cell
  pub there : v' x ≡ some cell
  pub in_use : cell.free ≡ false
  pub size : cell.size ≡ e.size
  pub payload : SameOn (x + 16) (e.size - 16) m m'

-- Every block in use but one is kept.
abbrev pub Keeps : View → Bytes → View → Bytes → Ptr → Type 0
Keeps v m v' m' b = (x : Ptr) (e : Cell) → v x ≡ some e → e.free ≡ false → x ≢ b → Kept v' m m' x e

pub Kept-trans :
    (v' v'' : View) (m m' m'' : Bytes) (x : Ptr) (e : Cell)
    → (k : Kept v' m m' x e) → Kept v'' m' m'' x k.cell
    → Kept v'' m m'' x e
Kept-trans v' v'' m m' m'' x e k k' = record {
  cell = k'.cell;
  there = k'.there;
  in_use = k'.in_use;
  size = k'.size ∙ k.size;
  payload =
      SameOn-trans (x + 16) (e.size - 16) m m' m'' k.payload
        (subst (λ s. SameOn (x + 16) (s - 16) m' m'') k.size k'.payload);
}

pub Kept-self :
    {v : View} {m : Bytes} (x : Ptr) (e : Cell) → v x ≡ some e → e.free ≡ false → Kept v m m x e
Kept-self x e at in_use = record {
  cell = e;
  there = at;
  in_use = in_use;
  size = refl;
  payload = λ _ _ _. refl;
}

-- A block in use is not where a free one is.
pub used_differs :
    (v : View) (x y : Ptr) (e d : Cell)
    → v x ≡ some e
    → e.free ≡ false
    → v y ≡ some d
    → d.free ≡ true
    → x ≢ y
used_differs v x y e d x_at in_use y_at is_free same =
    let cells = some-injective e d (sym x_at ∙ subst (λ z. v z ≡ some d) (sym same) y_at) in
    ground (arith, in_use, is_free, ap (λ (k : Cell). k.free) cells)

-- Marking a block keeps the others.
pub marked-Keeps :
    (f : Bool) (v : View) (loose : Ptr) (segments : List Region) (m m' : Bytes) (b : Ptr) (c : Cell)
    → Laid v loose segments
    → v b ≡ some c
    → Frame v b m m'
    → Keeps v m (put v b (some (flip f c))) m' b
marked-Keeps f v loose segments m m' b c laid at frame x e x_at in_use ne = record {
  cell = e;
  there = put-away v b x (some (flip f c)) ne ∙ x_at;
  in_use = in_use;
  size = refl;
  payload =
      let xb = laid.apart x b e c x_at at in
      let bx = laid.apart b x c e at x_at in
      let x_shape = laid.shape x e x_at in
      let b_shape = laid.shape b c at in
      frame (x + 16) (e.size - 16) (grind (arith, xb, bx, x_shape.big, b_shape.big))
        (λ y d y_at is_free.
          let differ = used_differs v x y e d x_at in_use y_at is_free in
          let xy = laid.apart x y e d x_at y_at in
          let yx = laid.apart y x d e y_at x_at in
          let y_shape = laid.shape y d y_at in
          grind (arith, xy, yx, differ, x_shape.big, y_shape.big));
}

-- A block in use is in no bin.
pub used-in_bin :
    (i : ℕ) (o : Option Cell) (k : Cell) → o ≡ some k → k.free ≡ false → in_bin i o ≡ 0
used-in_bin i o k at in_use = ap (in_bin i) at ∙ gone
  where
    gone : in_bin i (some k) ≡ 0
    gone = ground (arith, in_use)

-- The bins do not see a change of blocks in use, nor of memory away from the links of free blocks.
pub Binned-same :
    (v v' : View) (lists : ℕ → List Ptr) (loose : Ptr) (h : SegmentHeap) (m m' : Bytes)
    → Laid v loose h.segments
    → Binned v lists h.bins m
    → ((i : ℕ) (x : Ptr) → in_bin i (v' x) ≡ in_bin i (v x))
    → ((x : Ptr) (c : Cell) → v x ≡ some c → c.free ≡ true → SameOn (node_of x) 16 m m')
    → Binned v' lists h.bins m'
Binned-same v v' lists loose h m m' laid binned same spared = record {
  all = binned.all;
  linked = λ i.
      Linked-spared m m' null (get_or h.bins i null) (lists i)
        (All-counted (SameLinks m m') (lists i) (λ x more.
          let (c, at, is_free, _) =
            member v loose h.segments laid i (lists i) (binned.once i) x more in
          SameLinks-range m m' x (spared x c at is_free)))
        (binned.linked i);
  once = λ i x. binned.once i x ∙ sym (same i x);
}
