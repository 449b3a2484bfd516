-- ===== src/Tests/Kernel.antt =====
-- An operating system for the tests: it maps above everything that is mapped, while there is room.
use m_alloc.Base.{
  ℕ, ◌+◌, ◌*◌, ◌/◌, ◌≤◌, ◌<◌, ◌≡◌, refl, List, [], ◌∷◌, Option, none, some, arith, ltb,
  if◌then◌else◌, max,
}
use m_alloc.Memory.{Ptr}
use m_alloc.Header.{word}
use m_alloc.SystemMemory.{Region, World, Os, Documented, within, covered}

-- The first page above all the regions.
abbrev pub top : List Region → ℕ
top [] = 1
top (r ∷ rs) = max (top rs) ((r.base + r.size) / 4096 + 1)

above-free : (rs : List Region) (a : Ptr) → top rs * 4096 ≤ a → covered rs a ≡ 0
unfolding covered within
above-free [] a h = refl
above-free (r ∷ rs) a h = ground (arith, above-free rs a)

top-pos : (rs : List Region) → 1 ≤ top rs
top-pos [] = omega arith
top-pos (r ∷ rs) = omega (arith, top-pos rs)

abbrev pub place : List Region → ℕ → Option Ptr
place live len = if ltb (top live * 4096 + len) word then some (top live * 4096) else none

abbrev pub flat_os : Os
flat_os = record { page_size = 4096; mmap = λ n live len. place live len }

place-eq :
    (live : List Region) (len : ℕ) (p : Ptr)
    → place live len ≡ some p
    → (p ≡ top live * 4096) × (p + len < word)
place-eq live len p e = ground arith

place-apart :
    (live : List Region) (len : ℕ) (p : Ptr)
    → place live len ≡ some p
    → (a : Ptr) → within p len a ≡ 1
    → covered live a ≡ 0
unfolding within
place-apart live len p e a h = above-free live a (ground (arith, place-eq live len p e))

pub flat_os-Documented : Documented flat_os
flat_os-Documented = record {
  page_small = omega arith;
  page_16 = refl;
  page_pos = omega arith;
  at_page = λ n live len p e. omega (arith, place-eq live len p e);
  non_null = λ n live len p e. omega (arith, place-eq live len p e, top-pos live);
  in_space = λ n live len p e. (place-eq live len p e).1;
  apart = λ n live len p e. place-apart live len p e;
}

abbrev pub fresh_world : World
fresh_world = record { bytes = λ _. 0; mapped = []; calls = 0 }
