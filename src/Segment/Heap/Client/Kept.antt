-- ===== src/Segment/Heap/Client/Kept.antt =====
-- Every call of a caller keeps the medium tier's invariant, and the caller's payloads.
use m_alloc.Base.{
  ℕ, zero, suc, ◌+◌, ◌<◌, ◌≤◌, ◌≡◌, ◌≢◌, ◌⊎◌, inl, inr, refl, arith, sym, ◌∙◌, subst, true, false,
  ◌&&◌, leb, ltb, List, [], ◌∷◌, Option, none, some, All, All-mono, All-both, Option-cases,
}
use m_alloc.Memory.{Ptr, Bytes, null}
use m_alloc.Memory.Laws.{SameOn}
use m_alloc.Header.{word}
use m_alloc.SystemMemory.{Os, Documented, World, within}
use m_alloc.Pool.Invariant.{Share}
use m_alloc.Segment.Tag.{payload_of, block_of}
use m_alloc.Segment.Bins.{SegmentHeap}
use m_alloc.Segment.Ops.{segment_allocate, total_for}
use m_alloc.Segment.Heap.{Cell, View, HeapInv}
use m_alloc.Segment.Heap.Flip.{some-injective}
use m_alloc.Segment.Heap.Tags.{Tagged-same}
use m_alloc.Segment.Heap.Keeps.{Kept, Binned-same, used_differs}
use m_alloc.Segment.Heap.Beyond.{member-covered}
use m_alloc.Segment.Heap.Owned.{SegmentInv}
use m_alloc.Segment.Heap.Allocate.{AllocateResult, segment_allocate-AllocateResult, total_for-16}
use m_alloc.Segment.Heap.Deallocate.{segment_deallocate-Freed}
use m_alloc.Segment.Heap.Client.{
  Client, Call, ask, give_back, fill_in, pick, overwrite, handed, returned, written, call, calls,
  Disjoint, Sound, Loan, Fits,
}

-- A payload of a block in use that is large enough, with what the caller left there.
pub record Alive (v : View) (m : Bytes) (e : Loan) : Type 0 where
  pub block : Ptr
  pub payload : e.at ≡ payload_of block
  pub cell : Cell
  pub there : v block ≡ some cell
  pub in_use : cell.free ≡ false
  pub room : e.size + 16 ≤ cell.size
  pub same : SameOn e.at e.size e.copy m

abbrev AllAlive : View → Bytes → List Loan → Type 0
AllAlive v m = All (Alive v m)

abbrev Distinct : List Loan → Type 0
Distinct [] = Unit
Distinct (x ∷ xs) = All (λ e. e.at ≢ x.at) xs × Distinct xs

pub record ClientInv (others : Share) (s : Client) : Type 0 where
  pub view : View
  pub lists : ℕ → List Ptr
  pub inv : SegmentInv view lists others s.heap s.world
  pub alive : AllAlive view s.world.bytes s.held
  pub distinct : Distinct s.held

-- What is picked is away from what all were away from.
pick-Away :
    (i : ℕ) (held left : List Loan) (x : Loan) (p : Ptr)
    → pick i held ≡ some (x, left)
    → All (λ e. e.at ≢ p) held
    → (x.at ≢ p) × All (λ e. e.at ≢ p) left
unfolding pick
pick-Away i [] left x p bad away = absurd (ground (arith, bad))
pick-Away zero (y ∷ ys) left x p e away =
    subst (λ (g : Loan × List Loan). (g.0.at ≢ p) × All (λ e. e.at ≢ p) g.1)
      (some-injective (y, ys) (x, left) e) away
pick-Away (suc i) (y ∷ ys) left x p e away = elim (Option-cases (pick i ys)) [
  | inl missed ↦ absurd (ground (arith, (rw missed at e)))
  | inr ((z, zs), found) ↦
      let (one, all) = pick-Away i ys zs z p found away.1 in
      subst (λ (g : Loan × List Loan). (g.0.at ≢ p) × All (λ e. e.at ≢ p) g.1)
        (some-injective (z, y ∷ zs) (x, left) (rw found at e)) (one, (away.0, all))
]

-- A payload picked from the caller's.
pick-Distinct :
    (v : View) (m : Bytes) (i : ℕ) (held left : List Loan) (x : Loan)
    → pick i held ≡ some (x, left)
    → AllAlive v m held
    → Distinct held
    → Alive v m x × AllAlive v m left × All (λ e. e.at ≢ x.at) left × Distinct left
unfolding pick
pick-Distinct v m i [] left x bad alive distinct = absurd (ground (arith, bad))
pick-Distinct v m zero (y ∷ ys) left x e alive distinct =
    let same = some-injective (y, ys) (x, left) e in
    subst
      (λ (g : Loan × List Loan).
        Alive v m g.0 × AllAlive v m g.1 × All (λ e. e.at ≢ g.0.at) g.1 × Distinct g.1)
      same (alive.0, alive.1, distinct.0, distinct.1)
pick-Distinct v m (suc i) (y ∷ ys) left x e alive distinct = elim (Option-cases (pick i ys)) [
  | inl missed ↦ absurd (ground (arith, (rw missed at e)))
  | inr ((z, zs), found) ↦
      let (one, all, others, apart) = pick-Distinct v m i ys zs z found alive.1 distinct.1 in
      let (y_ne, all_ne) = pick-Away i ys zs z y.at found distinct.0 in
      let same = some-injective (z, y ∷ zs) (x, left) (rw found at e) in
      subst
        (λ (g : Loan × List Loan).
          Alive v m g.0 × AllAlive v m g.1 × All (λ e. e.at ≢ g.0.at) g.1 × Distinct g.1)
        same (one, (alive.0, all), ((λ e. y_ne (sym e)), others), (all_ne, apart))
]

-- What was alive is so still where its block is kept.
Kept-Alive :
    (v v' : View) (m m' : Bytes) (e : Loan) (a : Alive v m e)
    → Kept v' m m' a.block a.cell
    → Alive v' m' e
Kept-Alive v v' m m' e a k = record {
  block = a.block;
  payload = a.payload;
  cell = k.cell;
  there = k.there;
  in_use = k.in_use;
  room = omega (arith, a.room, k.size);
  same = λ q lo hi.
      k.payload q (omega (arith, a.payload, lo)) (omega (arith, a.payload, a.room, hi))
      ∙ a.same q lo hi;
}

module _ (os : Os) (doc : Documented os) (others : Share) where
  handed-Inv :
      (s : Client) (i : ClientInv others s) (bytes : ℕ)
      → bytes + 31 < word
      → (o : Option Ptr × SegmentHeap × World)
      → AllocateResult i.view others s.heap s.world (total_for bytes) o
      → ClientInv others (handed bytes s.held o)
  unfolding handed
  handed-Inv s i bytes fits (none, h, w) u = record {
    view = u.view;
    lists = u.lists;
    inv = u.inv;
    alive =
        All-mono (Alive i.view s.world.bytes) (Alive u.view w.bytes) s.held
          (λ e a.
            Kept-Alive i.view u.view s.world.bytes w.bytes e a
              (u.keeps a.block a.cell a.there a.in_use))
          i.alive;
    distinct = i.distinct;
  }
  handed-Inv s i bytes fits (some p, h, w) c = record {
    view = c.view;
    lists = c.lists;
    inv = c.inv;
    alive = (
      record {
        block = c.block;
        payload = c.payload;
        cell = c.cell;
        there = c.there;
        in_use = c.in_use;
        room = omega (arith, c.enough, total_for-16 bytes fits);
        same = λ _ _ _. refl;
      },
      All-mono (Alive i.view s.world.bytes) (Alive c.view w.bytes) s.held
          (λ e a.
            Kept-Alive i.view c.view s.world.bytes w.bytes e a
              (c.keeps a.block a.cell a.there a.in_use))
          i.alive,
    );
    distinct = (
      All-mono (Alive i.view s.world.bytes) (λ e. e.at ≢ p) s.held
          (λ e a same.
            let at : a.block ≡ c.block = omega (arith, same, a.payload, c.payload) in
            ground
              (arith, a.in_use, c.fresh a.cell (subst (λ y. i.view y ≡ some a.cell) at a.there)))
          i.alive,
      i.distinct,
    );
  }

  returned-Inv :
      (s : Client) (i : ClientInv others s) (k : ℕ) → ClientInv others (returned s (pick k s.held))
  returned-Inv s i k = elim (Option-cases (pick k s.held)) [
    | inl e ↦ rw e i
    | inr ((x, left), e) ↦
        let (a, alive, others_ne, distinct) =
          pick-Distinct i.view s.world.bytes k s.held left x e i.alive i.distinct in
        let back : block_of x.at ≡ a.block = omega (arith, a.payload) in
        let f =
          segment_deallocate-Freed i.view i.lists others s.heap s.world i.inv x.at a.cell
            (subst (λ y. i.view y ≡ some a.cell) (sym back) a.there) a.in_use in
        rw e (record {
          view = f.view;
          lists = f.lists;
          inv = f.inv;
          alive =
              All-both (Alive i.view s.world.bytes) (λ g. g.at ≢ x.at) (Alive f.view _) left
                (λ g b ne. Kept-Alive i.view f.view s.world.bytes _ g b (
                  f.keeps b.block b.cell b.there b.in_use
                    (λ same. ne (omega (arith, same, back, a.payload, b.payload)))))
                alive others_ne;
          distinct = distinct;
        })
  ]

  -- What a caller writes to a block in use spares the tags, and the links of free blocks.
  overwritten-Inv :
      (s : Client) (i : ClientInv others s) (e : Loan) (f : Bytes)
      → Alive i.view s.world.bytes e
      → SegmentInv i.view i.lists others s.heap
          (record s.world { bytes = overwrite e.at e.size f s.world.bytes })
  overwritten-Inv s i e f a =
      let heap = i.inv.heap in
      record {
        heap = record {
          laid = heap.laid;
          held = λ x c at.
              Tagged-same s.world.bytes _ x c
                (λ q lo hi.
                  let xb = heap.laid.apart x a.block c a.cell at a.there in
                  let bx = heap.laid.apart a.block x a.cell c a.there at in
                  let s_x = heap.laid.shape x c at in
                  let out : (leb e.at q && ltb q (e.at + e.size)) ≡ false =
                    grind (arith, xb, bx, s_x.big, a.room, a.payload, lo, hi) in
                  rw out refl)
                (heap.held x c at);
          binned =
              Binned-same i.view i.view i.lists null s.heap s.world.bytes _ heap.laid heap.binned
                (λ _ _. refl)
                (λ x c at is_free q lo hi.
                  let ne = used_differs i.view a.block x a.cell c a.there a.in_use at is_free in
                  let xb = heap.laid.apart x a.block c a.cell at a.there in
                  let bx = heap.laid.apart a.block x a.cell c a.there at in
                  let s_x = heap.laid.shape x c at in
                  let out : (leb e.at q && ltb q (e.at + e.size)) ≡ false =
                    grind (arith, ne, xb, bx, s_x.big, a.room, a.payload, lo, hi) in
                  rw out refl);
        };
        coalesced = i.inv.coalesced;
        listed = i.inv.listed;
        non_empty = i.inv.non_empty;
        live = i.inv.live;
        single = i.inv.single;
      }

  spared :
      (s : Client) (i : ClientInv others s) (x : Loan) (f : Bytes) (g : Loan)
      → Alive i.view s.world.bytes x
      → Alive i.view s.world.bytes g
      → g.at ≢ x.at
      → Alive i.view (overwrite x.at x.size f s.world.bytes) g
  spared s i x f g a b ne = record {
    block = b.block;
    payload = b.payload;
    cell = b.cell;
    there = b.there;
    in_use = b.in_use;
    room = b.room;
    same = λ q lo hi.
        let laid = i.inv.heap.laid in
        let ab = laid.apart a.block b.block a.cell b.cell a.there b.there in
        let ba = laid.apart b.block a.block b.cell a.cell b.there a.there in
        let out : (leb x.at q && ltb q (x.at + x.size)) ≡ false =
          grind (arith, ab, ba, ne, a.room, b.room, a.payload, b.payload, lo, hi) in
        rw out (b.same q lo hi);
  }

  written-Inv :
      (s : Client) (i : ClientInv others s) (k : ℕ) (f : Bytes)
      → ClientInv others (written s f (pick k s.held))
  written-Inv s i k f = elim (Option-cases (pick k s.held)) [
    | inl e ↦ rw e i
    | inr ((x, left), e) ↦
        let (a, alive, others_ne, distinct) =
          pick-Distinct i.view s.world.bytes k s.held left x e i.alive i.distinct in
        rw e (record {
          view = i.view;
          lists = i.lists;
          inv = overwritten-Inv s i x f a;
          alive = (
            record {
              block = a.block;
              payload = a.payload;
              cell = a.cell;
              there = a.there;
              in_use = a.in_use;
              room = a.room;
              same = λ q lo hi.
                  let hit : (leb x.at q && ltb q (x.at + x.size)) ≡ true = ground (arith, lo, hi) in
                  rw hit refl;
            },
            All-both (Alive i.view s.world.bytes) (λ g. g.at ≢ x.at) (Alive i.view _) left
                (λ g b ne. spared s i x f g a b ne) alive others_ne,
          );
          distinct = (others_ne, distinct);
        })
  ]

  call-ClientInv :
      (c : Call) (s : Client) → Fits c → ClientInv others s → ClientInv others (call os c s)
  unfolding call
  call-ClientInv (ask bytes) s fits i =
      handed-Inv s i bytes fits (segment_allocate os bytes s.heap s.world) (
        segment_allocate-AllocateResult os doc i.view i.lists others s.heap s.world i.inv bytes
          fits)
  call-ClientInv (give_back k) s fits i = returned-Inv s i k
  call-ClientInv (fill_in k f) s fits i = written-Inv s i k f

  pub calls-ClientInv :
      (cs : List Call) (s : Client)
      → All Fits cs
      → ClientInv others s
      → ClientInv others (calls os cs s)
  unfolding calls
  calls-ClientInv [] s fits i = i
  calls-ClientInv (c ∷ cs) s fits i =
      calls-ClientInv cs (call os c s) fits.1 (call-ClientInv c s fits.0 i)

alive-Disjoint :
    (v : View) (lists : ℕ → List Ptr) (h : SegmentHeap) (m : Bytes) (held : List Loan)
    → HeapInv v lists null h m
    → AllAlive v m held
    → Distinct held
    → Disjoint held
unfolding Disjoint
alive-Disjoint v lists h m [] inv alive distinct = tt
alive-Disjoint v lists h m (x ∷ xs) inv alive distinct = (
  All-both (Alive v m) (λ e. e.at ≢ x.at) (λ e. (x.at + x.size ≤ e.at) ⊎ (e.at + e.size ≤ x.at)) xs
      (λ e a ne.
        let b = alive.0 in
        let ab = inv.laid.apart a.block b.block a.cell b.cell a.there b.there in
        let ba = inv.laid.apart b.block a.block b.cell a.cell b.there a.there in
        let other : a.block ≢ b.block = λ same. ne (omega (arith, same, a.payload, b.payload)) in
        grind (arith, ab, ba, other, a.room, b.room, a.payload, b.payload))
      alive.1 distinct.0,
  alive-Disjoint v lists h m xs inv alive.1 distinct.1,
)

pub ClientInv-Disjoint : (others : Share) (s : Client) → ClientInv others s → Disjoint s.held
ClientInv-Disjoint others s i =
    alive-Disjoint i.view i.lists s.heap s.world.bytes s.held i.inv.heap i.alive i.distinct

pub ClientInv-Sound :
    (others : Share) (s : Client) → ClientInv others s → All (Sound s.world) s.held
unfolding within
ClientInv-Sound others s i =
    All-mono (Alive i.view s.world.bytes) (Sound s.world) s.held
      (λ e a.
        let g = i.inv.heap.laid.home a.block a.cell a.there in
        let shape = i.inv.heap.laid.shape a.block a.cell a.there in
        record {
          non_null = omega (arith, a.payload);
          aligned = omega (arith, a.payload, shape.aligned);
          mapped = λ q lo hi.
              let counted = member-covered a.cell.home s.heap.segments q g.among in
              let shared = i.inv.live q in
              let once = i.inv.single q in
              grind (arith, counted, shared, once, g.from, g.to, a.room, a.payload, lo, hi);
          same = a.same;
        })
      i.alive
