-- ===== src/Large/Release.antt =====
-- Freeing in the large tier: exactly the payload's mapping goes.
use m_alloc.Base.{
  ◌+◌, ◌-◌, ◌≤◌, ◌<◌, ◌≡◌, ◌≢◌, refl, sym, Bool, true, false, ◌==◌, List, [], ◌∷◌, Option, none,
  some, arith, inl, inr, Option-cases, Bool-cases, subst, All,
}
use mathlib.Core.Option.{some-injective}
use m_alloc.Memory.{Ptr}
use m_alloc.SystemMemory.{Region, World, within, covered, sys_unmap, drop_mapping}
use m_alloc.Pool.Invariant.{Share}
use m_alloc.Large.{Registry, payload_offset, find, erase, large_deallocate}
use m_alloc.Large.Registry.{regions, Keyed, find-fresh, covered-erase, find-erase, find-Keyed}
use m_alloc.Large.Ownership.{Listed, LargeInv, starts-within, drop_mapping-covered}

-- What freeing a registered payload leaves: the payload is gone, the others are not, and exactly
-- its mapping is given back.
pub record Released (rest : Share) (p : Ptr) (r : Region) (rs : Registry) (w : World)
    (rs' : Registry) (w' : World) : Type 0 where
  pub inv : LargeInv rest rs' w'
  pub gone : find p rs' ≡ none
  pub kept : (q : Ptr) → p ≢ q → find q rs' ≡ find q rs
  pub unmapped : (a : Ptr) → covered w'.mapped a + within r.base r.size a ≡ covered w.mapped a
  pub bytes_same : w'.bytes ≡ w.bytes

-- `LargeAllocator::deallocate` reports and changes nothing for a pointer that is not registered,
-- and otherwise succeeds.
abbrev pub FreeResult : Share → Ptr → Registry → World → Bool × Registry × World → Type 0
FreeResult rest p rs w (true, rs', w') =
    (r : Region) × (find p rs ≡ some r) × Released rest p r rs w rs' w'
FreeResult rest p rs w (false, rs', w') = (find p rs ≡ none) × (rs' ≡ rs) × (w' ≡ w)

find-Listed :
    (p : Ptr) (rs : Registry) (r : Region) (live : List Region)
    → All (λ e. Listed e.1 live) rs
    → find p rs ≡ some r
    → Listed r live
unfolding find
find-Listed p [] r live all e = cc
find-Listed p ((k, s) ∷ rs) r live all e = elim (Bool-cases (k == p)) [
  | inl hit ↦ subst (λ x. Listed x live) (some-injective s r (rw hit at e)) all.0
  | inr miss ↦ find-Listed p rs r live all.1 (rw miss at e)
]

erase-All {ℓ} :
    (P : Ptr × Region → Type ℓ) (p : Ptr) (rs : Registry) → All P rs → All P (erase p rs)
unfolding erase
erase-All P p [] all = tt
erase-All P p ((k, r) ∷ rs) all = elim (Bool-cases (k == p)) [
  | inl hit ↦ rw hit all.1
  | inr miss ↦ rw miss (all.0, erase-All P p rs all.1)
]

-- A region other than the one given back stays a live mapping.
pub drop_mapping-Listed :
    (s r : Region) (live : List Region)
    → Listed s live
    → s.base ≢ r.base
    → Listed s (drop_mapping r.base live)
unfolding drop_mapping
drop_mapping-Listed s r [] h ne = absurd h
drop_mapping-Listed s r (x ∷ live) h ne = elim (Bool-cases (x.base == r.base)) [
  | inl hit ↦ rw hit (elim h [ inl e ↦ absurd (ground arith) | inr more ↦ more ])
  | inr miss ↦
      rw miss (elim h [ inl e ↦ inl e | inr more ↦ inr (drop_mapping-Listed s r live more ne) ])
]

pub drop_mapping-All {ℓ} :
    (P : Region → Type ℓ) (p : Ptr) (live : List Region) → All P live → All P (drop_mapping p live)
unfolding drop_mapping
drop_mapping-All P p [] all = tt
drop_mapping-All P p (x ∷ live) all = elim (Bool-cases (x.base == p)) [
  | inl hit ↦ rw hit all.1
  | inr miss ↦ rw miss (all.0, drop_mapping-All P p live all.1)
]

still-Listed :
    (r : Region) (es : Registry) (live : List Region)
    → Keyed es
    → covered (regions es) r.base ≡ 0
    → All (λ e. Listed e.1 live) es
    → All (λ e. Listed e.1 (drop_mapping r.base live)) es
unfolding regions covered
still-Listed r [] live keyed none_here all = tt
still-Listed r ((k, s) ∷ es) live keyed none_here all = (
  drop_mapping-Listed s r live all.0 (λ e. absurd (ground (arith, starts-within s keyed.0.1))),
  still-Listed r es live keyed.1 (omega arith) all.1,
)

module _ (rest : Share) (p : Ptr) (rs : Registry) (w : World) (inv : LargeInv rest rs w) where
  released :
      (r : Region)
      → find p rs ≡ some r
      → Released rest p r rs w (erase p rs) (record w { mapped = drop_mapping r.base w.mapped })
  released r e = record {
    inv = record {
      keyed = keyed;
      listed = still-Listed r (erase p rs) w.mapped keyed vacant (erase-All _ p rs inv.listed);
      non_empty = drop_mapping-All _ r.base w.mapped inv.non_empty;
      live = λ a. omega (arith, inv.live a, back a, covered-erase p rs r a e);
      single = λ a. omega (arith, inv.single a, back a);
    };
    gone = find-fresh p (erase p rs) keyed (rw start vacant);
    kept = λ q ne. find-erase p q rs ne;
    unmapped = back;
    bytes_same = refl;
  }
    where
      is : (p ≡ r.base + payload_offset) × (0 < r.size) × (1 ≤ covered (regions rs) r.base)
      is = find-Keyed p rs r inv.keyed e

      start : p - payload_offset ≡ r.base
      start = omega (arith, is.0)

      keyed : Keyed (erase p rs)
      keyed = erase-All _ p rs inv.keyed

      vacant : covered (regions (erase p rs)) r.base ≡ 0
      vacant = omega (
        arith,
        covered-erase p rs r r.base e,
        starts-within r is.1,
        inv.live r.base,
        inv.single r.base,
      )

      back :
          (a : Ptr)
          → covered (drop_mapping r.base w.mapped) a + within r.base r.size a ≡ covered w.mapped a
      back a =
          drop_mapping-covered r w.mapped a (find-Listed p rs r w.mapped inv.listed e) inv.non_empty
            is.1 (inv.single r.base)

  -- `LargeAllocator::deallocate` gives a registered payload's mapping back and forgets it, and for
  -- any other pointer answers false and changes nothing.
  pub large_deallocate-FreeResult : FreeResult rest p rs w (large_deallocate p rs w)
  unfolding large_deallocate sys_unmap
  large_deallocate-FreeResult = elim (Option-cases (find p rs)) [
    | inl e ↦ rw (e, large_deallocate) (e, refl, refl)
    | inr (r, e) ↦
        let size_pos : (r.size == 0) ≡ false = ground (arith, find-Keyed p rs r inv.keyed e) in
        subst (λ o. FreeResult rest p rs w (after_find o)) (sym e)
          (rw size_pos (r, e, released r e))
  ]
    where
      after_find : Option Region → Bool × Registry × World
      after_find o = elim o [ none ↦ (false, rs, w) | some r ↦ (true, erase p rs, sys_unmap r w) ]
