-- ===== src/Segment/Heap/Client.antt =====
-- A caller of `SegmentHeap::allocate` and `deallocate`, of any number of calls, which writes what it
-- likes to its payloads in between and frees only what it has.
pub mod Kept
pub mod Safe
use m_alloc.Base.{
  ℕ, zero, suc, ◌+◌, ◌%◌, ◌<◌, ◌≤◌, ◌≡◌, ◌⊎◌, Bool, ◌&&◌, leb, ltb, if◌then◌else◌, List, [], ◌∷◌,
  Option, none, some, All,
}
use m_alloc.Memory.{Ptr, Bytes}
use m_alloc.Memory.Laws.{SameOn}
use m_alloc.Header.{word}
use m_alloc.SystemMemory.{Os, World, covered}
use m_alloc.Segment.Bins.{SegmentHeap, empty_heap}
use m_alloc.Segment.Ops.{segment_allocate, segment_deallocate}

-- A payload that the caller holds, with the size that it asked for, and what the payload was when it
-- was given out or last written.
pub record Loan : Type 0 where
  pub at : Ptr
  pub size : ℕ
  pub copy : Bytes

pub record Client : Type 0 where
  pub heap : SegmentHeap
  pub world : World
  pub held : List Loan

pub data Call : Type 0 where
  ask : ℕ → Call
  give_back : ℕ → Call
  fill_in : ℕ → Bytes → Call

-- An element of the list by its position, and the others.
unfoldable pub pick {ℓ} : {A : Type ℓ} → ℕ → List A → Option (A × List A)
pick i [] = none
pick zero (x ∷ xs) = some (x, xs)
pick (suc i) (x ∷ xs) =
    let rest = pick i xs in elim rest [ none ↦ none | some (y, ys) ↦ some (y, x ∷ ys) ]

-- The bytes of one payload replaced.
abbrev pub overwrite : Ptr → ℕ → Bytes → Bytes → Bytes
overwrite p n f m q = if leb p q && ltb q (p + n) then f q else m q

unfoldable pub handed : ℕ → List Loan → Option Ptr × SegmentHeap × World → Client
handed bytes held (none, h, w) = record { heap = h; world = w; held = held }
handed bytes held (some p, h, w) = record {
  heap = h;
  world = w;
  held = record { at = p; size = bytes; copy = w.bytes } ∷ held;
}

abbrev pub returned : Client → Option (Loan × List Loan) → Client
returned s none = s
returned s (some (loan, left)) =
    let r = segment_deallocate loan.at s.heap s.world in
    record { heap = r.0; world = r.1; held = left }

abbrev pub written : Client → Bytes → Option (Loan × List Loan) → Client
written s f none = s
written s f (some (loan, left)) = record {
  heap = s.heap;
  world = record s.world { bytes = overwrite loan.at loan.size f s.world.bytes };
  held = record loan { copy = f } ∷ left;
}

-- A position that the caller has no payload at stands for no call.
unfoldable pub call : Os → Call → Client → Client
unfolding handed pick
call os (ask bytes) s = handed bytes s.held (segment_allocate os bytes s.heap s.world)
call os (give_back i) s = returned s (pick i s.held)
call os (fill_in i f) s = written s f (pick i s.held)

-- The size asked for, with header and rounding, does not wrap.
abbrev pub Fits : Call → Type 0
Fits (ask bytes) = bytes + 31 < word
Fits (give_back i) = Unit
Fits (fill_in i f) = Unit

-- The calls in order, the first one first.
unfoldable pub calls : Os → List Call → Client → Client
unfolding call
calls os [] s = s
calls os (c ∷ cs) s = calls os cs (call os c s)

-- A caller with nothing, and a tier with no segment.
abbrev pub fresh_client : World → Client
fresh_client w = record { heap = empty_heap; world = w; held = [] }

-- No two payloads share a byte.
unfoldable pub Disjoint : List Loan → Type 0
Disjoint [] = Unit
Disjoint (x ∷ xs) = All (λ e. (x.at + x.size ≤ e.at) ⊎ (e.at + e.size ≤ x.at)) xs × Disjoint xs

-- A payload is not null and aligned, all of it is mapped, and it is what it was when it was given out
-- or last written.
pub record Sound (w : World) (e : Loan) : Type 0 where
  pub non_null : 0 < e.at
  pub aligned : e.at % 16 ≡ 0
  pub mapped : (a : Ptr) → e.at ≤ a → a < e.at + e.size → covered w.mapped a ≡ 1
  pub same : SameOn e.at e.size e.copy w.bytes
