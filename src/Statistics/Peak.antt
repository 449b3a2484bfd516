-- ===== src/Statistics/Peak.antt =====
-- `updatePeak` as its atomic operations, run by any number of threads in any order.
use m_alloc.Base.{ℕ, ◌≤◌, ◌<◌, ◌≡◌, List, [], ◌∷◌, arith, All}
use native.Mathlib.Nat.{le_refl, le_trans}

-- Where a thread stands: before its load, at the test of the loop with the peak that it last saw,
-- or behind the loop.
pub data Phase : Type 0 where
  loading : ℕ → Phase
  testing : (current peak : ℕ) → Phase
  finished : ℕ → Phase

-- One atomic operation of a thread, with the shared peak before and after it.
pub data Move : ℕ → Phase → ℕ → Phase → Type 0 where
  load : (shared current : ℕ) → Move shared (loading current) shared (testing current shared)
  leave :
      (shared current peak : ℕ)
      → current ≤ peak
      → Move shared (testing current peak) shared (finished current)
  exchange :
      (shared current peak : ℕ)
      → peak < current
      → shared ≡ peak
      → Move shared (testing current peak) current (finished current)
  -- compare_exchange_weak may fail even where the values are equal.
  retry :
      (shared current peak : ℕ)
      → peak < current
      → Move shared (testing current peak) shared (testing current shared)

-- A thread is where its past allows, given the shared peak.
abbrev pub Allowed : ℕ → Phase → Type 0
Allowed shared (loading current) = Unit {0}
Allowed shared (testing current peak) = peak ≤ shared
Allowed shared (finished current) = current ≤ shared

Move-grows : {s s' : ℕ} {p p' : Phase} → Move s p s' p' → Allowed s p → s ≤ s'
Move-grows (load s c) a = le_refl s
Move-grows (leave s c p h) a = le_refl s
Move-grows (exchange s c p h e) a = omega arith
Move-grows (retry s c p h) a = le_refl s

Move-Allowed : {s s' : ℕ} {p p' : Phase} → Move s p s' p' → Allowed s p → Allowed s' p'
Move-Allowed (load s c) a = le_refl s
Move-Allowed (leave s c p h) a = le_trans h a
Move-Allowed (exchange s c p h e) a = le_refl c
Move-Allowed (retry s c p h) a = le_refl s

Allowed-mono : (s s' : ℕ) (p : Phase) → s ≤ s' → Allowed s p → Allowed s' p
Allowed-mono s s' (loading c) h a = tt
Allowed-mono s s' (testing c p) h a = le_trans a h
Allowed-mono s s' (finished c) h a = le_trans a h

-- The shared peak and the threads; a step is a move of one of them.
pub data Step : ℕ → List Phase → ℕ → List Phase → Type 0 where
  here : {s s' : ℕ} {p p' : Phase} {ps : List Phase} → Move s p s' p' → Step s (p ∷ ps) s' (p' ∷ ps)
  there :
      {s s' : ℕ} {q : Phase} {ps ps' : List Phase} → Step s ps s' ps' → Step s (q ∷ ps) s' (q ∷ ps')

pub data Steps (s : ℕ) (ps : List Phase) : ℕ → List Phase → Type 0 where
  none_yet : Steps s ps s ps
  one_more :
      {s' s'' : ℕ} {ps' ps'' : List Phase}
      → Steps s ps s' ps'
      → Step s' ps' s'' ps''
      → Steps s ps s'' ps''

AllAllowed-mono : (s s' : ℕ) (ps : List Phase) → s ≤ s' → All (Allowed s) ps → All (Allowed s') ps
AllAllowed-mono s s' [] h a = tt
AllAllowed-mono s s' (p ∷ ps) h a = (Allowed-mono s s' p h a.0, AllAllowed-mono s s' ps h a.1)

Step-Allowed :
    {s s' : ℕ} {ps ps' : List Phase}
    → Step s ps s' ps'
    → All (Allowed s) ps
    → (s ≤ s') × All (Allowed s') ps'
Step-Allowed (here {s} {s'} {ps = ps} m) a =
    let up = Move-grows m a.0 in (up, (Move-Allowed m a.0, AllAllowed-mono s s' ps up a.1))
Step-Allowed (there {s} {s'} {q = q} st) a =
    let (up, rest) = Step-Allowed st a.1 in (up, (Allowed-mono s s' q up a.0, rest))

-- In every interleaving the shared peak never falls, and a thread that has left the loop finds it
-- at least as high as the sum that it reported, whatever the others did.
pub Steps-Allowed :
    {s : ℕ} {ps : List Phase} {s' : ℕ} {ps' : List Phase}
    → Steps s ps s' ps'
    → All (Allowed s) ps
    → (s ≤ s') × All (Allowed s') ps'
Steps-Allowed none_yet a = (le_refl _, a)
Steps-Allowed (one_more sts st) a =
    let (up, mid) = Steps-Allowed sts a in
    let (more, end) = Step-Allowed st mid in (le_trans up more, end)
