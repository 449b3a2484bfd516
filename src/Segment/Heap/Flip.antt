-- ===== src/Segment/Heap/Flip.antt =====
-- Marking a block free or in use leaves the layout of the blocks alone.
use m_alloc.Base.{
  ◌+◌, ◌-◌, ◌≡◌, ◌≢◌, refl, arith, Bool, true, false, sym, ap, ◌∙◌, inl, inr, subst, Option, some,
  none, ◌⊎◌, List, ◌==◌, Bool-cases,
}
use m_alloc.Memory.{Ptr}
use m_alloc.SystemMemory.{Region}
use m_alloc.Large.Ownership.{Listed}
use m_alloc.Segment.Heap.{Home, Cell, View, Laid, put}

pub some-injective {ℓ} : {A : Type ℓ} (c d : A) → some c ≡ some d → c ≡ d
some-injective c d e = ap (λ o. elim o [ none ↦ c | some x ↦ x ]) e

pub put-here : (v : View) (b : Ptr) (o : Option Cell) → put v b o b ≡ o
put-here v b o = let same : (b == b) ≡ true = ground arith in rw same refl

pub put-away : (v : View) (b x : Ptr) (o : Option Cell) → x ≢ b → put v b o x ≡ v x
put-away v b x o ne = let other : (x == b) ≡ false = ground (arith, ne) in rw other refl

-- Where a block of a changed view comes from.
pub put-cases :
    (v : View) (b x : Ptr) (o : Option Cell) (d : Cell)
    → put v b o x ≡ some d
    → ((x ≡ b) × (o ≡ some d)) ⊎ ((x ≢ b) × (v x ≡ some d))
put-cases v b x o d at = elim (Bool-cases (x == b)) [
  | inl e ↦
      let same : x ≡ b = ground arith in
      inl (same, sym (put-here v b o) ∙ subst (λ y. put v b o y ≡ some d) same at)
  | inr e ↦ let other : x ≢ b = ground arith in inr (other, sym (put-away v b x o other) ∙ at)
]

-- Cells that agree but for the mark.
pub record Alike (c d : Cell) : Type 0 where
  pub size : c.size ≡ d.size
  pub first : c.first ≡ d.first
  pub last : c.last ≡ d.last
  pub prev : c.prev ≡ d.prev
  pub home : c.home ≡ d.home

-- A block's place depends on its size, its ends and its segment.
pub moved_home :
    (segments : List Region) (b : Ptr) (c d : Cell)
    → Home segments b c
    → c.size ≡ d.size
    → c.first ≡ d.first
    → c.last ≡ d.last
    → c.home ≡ d.home
    → Home segments b d
moved_home segments b c d r size first last home =
    let base = ap (λ (g : Region). g.base) home in
    let length = ap (λ (g : Region). g.size) home in
    record {
      among = subst (λ g. Listed g segments) home r.among;
      from = omega (arith, r.from, base);
      to = omega (arith, r.to, base, length, size);
      starts = λ e. omega (arith, r.starts (first ∙ e), base);
      ends = λ e. omega (arith, r.ends (last ∙ e), base, length, size);
    }

module _ (v v' : View) (loose : Ptr) (segments : List Region) (laid : Laid v loose segments)
    (old : (x : Ptr) (d : Cell) → v' x ≡ some d → (c : Cell) × (v x ≡ some c) × Alike c d)
    (new : (x : Ptr) (c : Cell) → v x ≡ some c → (d : Cell) × (v' x ≡ some d) × Alike c d) where
  pub Laid-alike : Laid v' loose segments
  Laid-alike = record {
    shape = λ b d at.
        let (c, was, like) = old b d at in
        let s = laid.shape b c was in
        record {
          big = omega (arith, s.big, like.size);
          whole = omega (arith, s.whole, like.size);
          aligned = s.aligned;
          non_null = s.non_null;
          in_space = omega (arith, s.in_space, like.size);
        };
    apart = λ b d c e at at' lt.
        let (c', was, like) = old b c at in
        let (e', was', _) = old d e at' in
        omega (arith, laid.apart b d c' e' was was' lt, like.size);
    next = λ b d at more.
        let (c, was, like) = old b d at in
        let n = laid.next b c was (like.last ∙ more) in
        let (n', there, alike) = new (b + c.size) n.cell n.there in
        record {
          cell = n';
          there = subst (λ s. v' (b + s) ≡ some n') like.size there;
          not_first = sym alike.first ∙ n.not_first;
          home = sym alike.home ∙ n.home ∙ like.home;
          back = λ ne. sym alike.prev ∙ n.back (λ e. ne (omega (arith, like.size, e))) ∙ like.size;
        };
    prev = λ b d at more ne.
        let (c, was, like) = old b d at in
        let p = laid.prev b c was (like.first ∙ more) ne in
        let (p', there, alike) = new (b - c.prev) p.cell p.there in
        record {
          cell = p';
          below = omega (arith, p.below, like.prev);
          there = subst (λ s. v' (b - s) ≡ some p') like.prev there;
          size = sym alike.size ∙ p.size ∙ like.prev;
          not_last = sym alike.last ∙ p.not_last;
        };
    home = λ b d at.
        let (c, was, like) = old b d at in
        let r = laid.home b c was in
        moved_home segments b c d r like.size like.first like.last like.home;
    rooted = λ s among.
        let r = laid.rooted s among in
        let (d, there, like) = new s.base r.cell r.there in
        record { cell = d; there = there; home = sym like.home ∙ r.home };
  }

unfoldable pub flip : Bool → Cell → Cell
flip f c = record c { free = f }

pub flip-Laid :
    (v : View) (b : Ptr) (c : Cell) (f : Bool) (loose : Ptr) (segments : List Region)
    → v b ≡ some c
    → Laid v loose segments
    → Laid (put v b (some (flip f c))) loose segments
unfolding flip
flip-Laid v b c f loose segments at laid =
    Laid-alike v (put v b (some (flip f c))) loose segments laid old new
  where
    like : Alike c (flip f c)
    like = record { size = refl; first = refl; last = refl; prev = refl; home = refl }

    self : (d : Cell) → Alike d d
    self d = record { size = refl; first = refl; last = refl; prev = refl; home = refl }

    old :
        (x : Ptr) (d : Cell)
        → put v b (some (flip f c)) x ≡ some d
        → (e : Cell) × (v x ≡ some e) × Alike e d
    old x d there = elim (put-cases v b x (some (flip f c)) d there) [
      | inl (e, same) ↦ (
        c,
        subst (λ y. v y ≡ some c) (sym e) at,
        subst (Alike c) (some-injective (flip f c) d same) like,
      )
      | inr (_, was) ↦ (d, was, self d)
    ]

    new :
        (x : Ptr) (d : Cell)
        → v x ≡ some d
        → (e : Cell) × (put v b (some (flip f c)) x ≡ some e) × Alike d e
    new x d was = elim (Bool-cases (x == b)) [
      | inl e ↦
          let same : x ≡ b = ground arith in
          (
            flip f c,
            subst (λ y. put v b (some (flip f c)) y ≡ some (flip f c)) (sym same)
                (put-here v b (some (flip f c))),
            subst (λ y. Alike y (flip f c))
                (some-injective c d (sym at ∙ subst (λ y. v y ≡ some d) same was)) like,
          )
      | inr e ↦ (d, put-away v b x (some (flip f c)) (ground arith) ∙ was, self d)
    ]
