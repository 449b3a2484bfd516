-- ===== src/Large/Ownership.antt =====
-- The large tier's mappings: each belongs to one payload.
use native.Mathlib.Decide.{ℕ_discrete}
use m_alloc.Base.{
  ℕ, ◌+◌, ◌-◌, ◌%◌, ◌≤◌, ◌<◌, ◌≡◌, ◌≢◌, refl, false, ◌==◌, List, [], ◌∷◌, Option, none, some, arith,
  ◌⊎◌, inl, inr, All, All-mono,
}
use m_alloc.Memory.{Ptr}
use m_alloc.Header.{word}
use m_alloc.SystemMemory.{
  Region, World, Os, Documented, within, covered, sys_map, is_valid, round_to_pages, drop_mapping,
}
use m_alloc.SystemMemory.Fresh.{Mapped, MapResult, sys_map_lem, within-once}
use m_alloc.Pool.Invariant.{Share}
use m_alloc.Large.{
  Registry, payload_offset, find, emplace, register, large_allocate, large_capacity,
}
use m_alloc.Large.Registry.{regions, Keyed, find-fresh}

-- The region is one of the live mappings.
abbrev pub Listed : Region → List Region → Type 0
Listed r [] = ⊥
Listed r (s ∷ ss) = (r ≡ s) ⊎ Listed r ss

abbrev pub NonEmpty : List Region → Type 0
NonEmpty = All (λ r. 0 < r.size)

pub starts-covered :
    (r : Region) (rs : List Region) → Listed r rs → 0 < r.size → 1 ≤ covered rs r.base
unfolding covered within
starts-covered r [] h pos = absurd h
starts-covered r (s ∷ ss) (inl e) pos = ground arith
starts-covered r (s ∷ ss) (inr h) pos = omega (arith, starts-covered r ss h pos)

pub starts-within : (r : Region) → 0 < r.size → within r.base r.size r.base ≡ 1
unfolding within
starts-within r pos = ground arith

-- Unmapping a live mapping gives back exactly its addresses.
pub drop_mapping-covered :
    (r : Region) (rs : List Region) (a : Ptr)
    → Listed r rs
    → NonEmpty rs
    → 0 < r.size
    → covered rs r.base ≤ 1
    → covered (drop_mapping r.base rs) a + within r.base r.size a ≡ covered rs a
unfolding covered drop_mapping
drop_mapping-covered r [] a h ne pos one = absurd h
drop_mapping-covered r (s ∷ ss) a (inl e) ne pos one = ground arith
drop_mapping-covered r (s ∷ ss) a (inr h) ne pos one = elim (ℕ_discrete s.base r.base) [
  | yes same ↦ absurd (ground (arith, starts-covered r ss h pos, starts-within s ne.0))
  | no other ↦ ground (arith, drop_mapping-covered r ss a h ne.1 pos (omega arith))
]

-- Part of a mapping.
within-tail : (p n a : ℕ) → within (p + 16) (n - 16) a ≡ 1 → within p n a ≡ 1
unfolding within
within-tail p n a h = ground arith

pub record LargeInv (rest : Share) (rs : Registry) (w : World) : Type 0 where
  pub keyed : Keyed rs
  pub listed : All (λ e. Listed e.1 w.mapped) rs
  pub non_empty : NonEmpty w.mapped
  pub live : (a : Ptr) → covered (regions rs) a + rest a ≤ covered w.mapped a
  pub single : (a : Ptr) → covered w.mapped a ≤ 1

-- What an allocation of `bytes` gives: a payload that is aligned, holds the bytes, was not in the
-- registry and lies in no earlier mapping.
pub record Registered (os : Os) (bytes : ℕ) (rest : Share) (rs : Registry) (w : World) (p : Ptr)
    (rs' : Registry) (w' : World) : Type 0 where
  pub inv : LargeInv rest rs' w'
  pub aligned : p % 16 ≡ 0
  pub above : 16 < p
  pub fresh : find p rs ≡ none
  pub kept : (q : Ptr) → p ≢ q → find q rs' ≡ find q rs
  pub capacity : large_capacity p rs' ≡ round_to_pages os (bytes + payload_offset) - payload_offset
  pub enough : bytes ≤ large_capacity p rs'
  pub in_space : p + large_capacity p rs' < word
  pub apart : (a : Ptr) → within p (large_capacity p rs') a ≡ 1 → covered w.mapped a ≡ 0

abbrev pub LargeResult : Os → ℕ → Share → Registry → World → Option Ptr × Registry × World → Type 0
LargeResult os bytes rest rs w (some p, rs', w') = Registered os bytes rest rs w p rs' w'
LargeResult os bytes rest rs w (none, rs', w') =
    (rs' ≡ rs) × (w'.bytes ≡ w.bytes) × (w'.mapped ≡ w.mapped)

module _ (os : Os) (doc : Documented os) (bytes : ℕ) (rest : Share) (rs : Registry)
    (w : World) where
  registered :
      (r : Region) (w' : World)
      → LargeInv rest rs w
      → Mapped os doc (bytes + payload_offset) w r w'
      → Registered os bytes rest rs w
          (r.base + payload_offset)
          ((r.base + payload_offset, r) ∷ rs)
          w'
  unfolding find large_capacity regions covered
  registered r w' inv new = record {
    inv = record {
      keyed = ((refl, omega (arith, new.big)), inv.keyed);
      listed = (
        rw new.listed (inl refl),
        All-mono (λ e. Listed e.1 w.mapped) (λ e. Listed e.1 w'.mapped) rs
            (λ e h. rw new.listed (inr h)) inv.listed,
      );
      non_empty = rw new.listed (omega (arith, new.big), inv.non_empty);
      live = λ a. rw new.listed (omega (arith, inv.live a));
      single = λ a. rw new.listed (within-once r.base r.size a _ (new.alone a) (inv.single a));
    };
    aligned = omega (arith, new.base_16);
    above = omega (arith, new.non_null);
    fresh =
        let e : r.base + payload_offset - payload_offset ≡ r.base = omega arith in
        find-fresh (r.base + payload_offset) rs inv.keyed (rw e start_free);
    kept = λ q ne. ground arith;
    capacity = rw head_capacity (omega (arith, new.rounded));
    enough = rw head_capacity (omega (arith, new.big));
    in_space = rw head_capacity (omega (arith, new.big, new.in_space));
    apart = λ a h. new.alone a (within-tail r.base r.size a (rw head_capacity at h));
  }
    where
      head_capacity :
          large_capacity (r.base + payload_offset) ((r.base + payload_offset, r) ∷ rs)
          ≡ r.size - payload_offset
      head_capacity = ground arith

      start_free : covered (regions rs) r.base ≡ 0
      start_free =
          omega
            (arith, inv.live r.base, new.alone r.base (starts-within r (omega (arith, new.big))))

  register-LargeResult :
      (r : Region) (w' : World)
      → LargeInv rest rs w
      → MapResult os doc (bytes + payload_offset) w (r, w')
      → LargeResult os bytes rest rs w (register rs (r, w'))
  unfolding register emplace is_valid
  register-LargeResult r w' inv (inl (e, b, m)) = rw e (refl, b, m)
  register-LargeResult r w' inv (inr new) =
      let done = registered r w' inv new in rw (valid, done.fresh, emplace) done
    where
      valid : (r.size == 0) ≡ false
      valid = ground (arith, new.big)

  -- `LargeAllocator::allocate` of a size that does not wrap gives a fresh, aligned payload with
  -- room for the bytes, or null with the registry, memory and the mappings as they were.
  pub large_allocate-LargeResult :
      LargeInv rest rs w
      → bytes + payload_offset + os.page_size < word
      → LargeResult os bytes rest rs w (large_allocate os bytes rs w)
  unfolding large_allocate
  large_allocate-LargeResult inv fits =
      let e : (bytes + payload_offset) % word ≡ bytes + payload_offset = omega arith in
      rw e (
        register-LargeResult (sys_map os (bytes + payload_offset) w).0
          (sys_map os (bytes + payload_offset) w).1 inv
          (sys_map_lem os doc (bytes + payload_offset) w (omega arith) fits))
