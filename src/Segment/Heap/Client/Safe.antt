-- ===== src/Segment/Heap/Client/Safe.antt =====
-- What callers of the medium tier may rely on.
use m_alloc.Base.{ℕ, zero, suc, ◌≤◌, ◌≡◌, refl, arith, List, [], none, All, get_or, replicate}
use m_alloc.Memory.{Ptr, null}
use m_alloc.SystemMemory.{Os, Documented, World, covered}
use m_alloc.Large.Ownership.{NonEmpty}
use m_alloc.Pool.Invariant.{Share}
use m_alloc.Segment.Tag.{bin_count}
use m_alloc.Segment.Bins.{empty_heap}
use m_alloc.Segment.Heap.Owned.{SegmentInv}
use m_alloc.Segment.Heap.Client.{Call, calls, fresh_client, Disjoint, Sound, Fits}
use m_alloc.Segment.Heap.Client.Kept.{
  ClientInv, calls-ClientInv, ClientInv-Disjoint, ClientInv-Sound,
}

pub get_or-replicate : (n i : ℕ) → get_or (replicate n null) i null ≡ null
get_or-replicate zero i = refl
get_or-replicate (suc n) zero = refl
get_or-replicate (suc n) (suc i) = get_or-replicate n i

-- The constructed tier.
pub empty_heap-SegmentInv :
    (others : Share) (w : World)
    → NonEmpty w.mapped
    → ((a : Ptr) → others a ≤ covered w.mapped a)
    → ((a : Ptr) → covered w.mapped a ≤ 1)
    → SegmentInv (λ _. none) (λ _. []) others empty_heap w
unfolding covered
empty_heap-SegmentInv others w non_empty held single = record {
  coalesced = λ b d c e bad _ _ _ _ _. absurd (ground (arith, bad));
  heap = record {
    laid = record {
      shape = λ b c bad. absurd (ground (arith, bad));
      apart = λ b d c e bad _ _. absurd (ground (arith, bad));
      next = λ b c bad _. absurd (ground (arith, bad));
      prev = λ b c bad _ _. absurd (ground (arith, bad));
      home = λ b c bad. absurd (ground (arith, bad));
      rooted = λ s bad. absurd bad;
    };
    held = λ b c bad. absurd (ground (arith, bad));
    binned = record { all = refl; linked = λ i. get_or-replicate bin_count i; once = λ _ _. refl };
  };
  listed = λ s bad. absurd bad;
  non_empty = non_empty;
  live = λ a. omega (arith, held a);
  single = single;
}

-- However a caller mixes `allocate` of sizes up to 2 ^ 64 - 32, where the size with header and
-- rounding does not wrap, `deallocate` of payloads that it holds, and writes of any bytes to them,
-- from the constructed tier in a world whose mappings are not empty and do not meet: no two of the
-- payloads that it then holds share a byte, and each is not null, is aligned, is mapped throughout
-- for the size asked for, and has the bytes that it had when it was given out or last written.
pub calls_safe :
    (os : Os)
    → Documented os
    → (cs : List Call) (w : World) → All Fits cs
    → NonEmpty w.mapped
    → ((a : Ptr) → covered w.mapped a ≤ 1)
    → Disjoint (calls os cs (fresh_client w)).held
      × All (Sound (calls os cs (fresh_client w)).world) (calls os cs (fresh_client w)).held
calls_safe os doc cs w fits non_empty single =
    let start : ClientInv (λ _. 0) (fresh_client w) = record {
      view = λ _. none;
      lists = λ _. [];
      inv = empty_heap-SegmentInv (λ _. 0) w non_empty (λ a. omega arith) single;
      alive = tt;
      distinct = tt;
    } in
    let end = calls-ClientInv os doc (λ _. 0) cs (fresh_client w) fits start in
    (
      ClientInv-Disjoint (λ _. 0) (calls os cs (fresh_client w)) end,
      ClientInv-Sound (λ _. 0) (calls os cs (fresh_client w)) end,
    )
