-- ===== src/Segment/Heap/Beyond.antt =====
-- Memory that no segment holds.
use m_alloc.Base.{◌+◌, ◌≤◌, ◌<◌, ◌≡◌, ◌⊎◌, arith, ap, ◌∙◌, inl, inr, some, List, [], ◌∷◌}
use m_alloc.Memory.{Ptr, Bytes}
use m_alloc.SystemMemory.{Region, within, covered}
use m_alloc.Large.Ownership.{Listed}
use m_alloc.Segment.Heap.{Cell, View, Laid}
use m_alloc.Segment.Heap.Marks.{Frame}

-- It is as it was.
abbrev pub Beyond : List Region → Bytes → Bytes → Type 0
Beyond segments m m' = (a : Ptr) → covered segments a ≡ 0 → m' a ≡ m a

pub Beyond-trans :
    (segments : List Region) (m m' m'' : Bytes)
    → Beyond segments m m'
    → Beyond segments m' m''
    → Beyond segments m m''
Beyond-trans segments m m' m'' one two a out = two a out ∙ one a out

-- A listed region counts where it lies.
pub member-covered :
    (s : Region) (live : List Region) (a : Ptr)
    → Listed s live
    → within s.base s.size a ≤ covered live a
unfolding covered
member-covered s [] a h = absurd h
member-covered s (r ∷ live) a (inl e) =
    let same = ap (λ (g : Region). within g.base g.size a) e in omega (arith, same)
member-covered s (r ∷ live) a (inr h) = omega (arith, member-covered s live a h)

-- No block reaches there.
pub off_block :
    (v : View) (loose : Ptr) (segments : List Region) (b : Ptr) (c : Cell) (a : Ptr)
    → Laid v loose segments
    → v b ≡ some c
    → covered segments a ≡ 0
    → (a < b) ⊎ (b + c.size ≤ a)
unfolding within
off_block v loose segments b c a laid at out =
    let g = laid.home b c at in
    let counted = member-covered c.home segments a g.among in
    grind (arith, counted, out, g.from, g.to)

pub marked-Beyond :
    (v : View) (loose : Ptr) (segments : List Region) (m m' : Bytes) (b : Ptr) (c : Cell)
    → Laid v loose segments
    → v b ≡ some c
    → Frame v b m m'
    → Beyond segments m m'
marked-Beyond v loose segments m m' b c laid at frame a out =
    frame a 1
      (let s = laid.shape b c at in
        grind (arith, off_block v loose segments b c a laid at out, s.big))
      (λ x d x_at _.
        let s = laid.shape x d x_at in
        grind (arith, off_block v loose segments x d a laid x_at out, s.big))
      a (omega arith) (omega arith)
