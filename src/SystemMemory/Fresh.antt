-- ===== src/SystemMemory/Fresh.antt =====
-- A mapping that `SystemMemory::map` returns.
use m_alloc.Base.{
  ℕ, ◌+◌, ◌*◌, ◌/◌, ◌%◌, ◌≤◌, ◌<◌, ◌≡◌, refl, false, ◌∷◌, arith, Option-cases, inl, inr, ◌⊎◌, ◌==◌,
  ap,
}
use m_alloc.Memory.{Ptr, fill}
use m_alloc.Header.{word}
use m_alloc.SystemMemory.{
  Region, no_region, World, Os, Documented, within, covered, round_to_pages, sys_map, add_mapping,
}

-- An address of a fresh mapping is in no other, so mappings stay disjoint.
pub within-once : (p n a c : ℕ) → (within p n a ≡ 1 → c ≡ 0) → c ≤ 1 → within p n a + c ≤ 1
unfolding within
within-once p n a c h le = ground arith

pub mul_16 : (n d : ℕ) → 0 < d → n % d ≡ 0 → d % 16 ≡ 0 → n % 16 ≡ 0
mul_16 n d pos whole d16 =
    let q : ℕ = n / d in
    let t : ℕ = d / 16 in
    let n_eq : n ≡ q * d = grind arith in
    let d_eq : d ≡ 16 * t = omega arith in
    let e : q * d ≡ q * (16 * t) = ap (λ (x : ℕ). q * x) d_eq in omega arith

module _ (os : Os) (doc : Documented os) where
  open doc use {page_pos, page_16, at_page, apart}

  -- Rounding gives the least whole number of pages that holds the size.
  pub round_to_pages_least :
      (size : ℕ)
      → size + os.page_size < word
      → (size ≤ round_to_pages os size)
        × (round_to_pages os size < size + os.page_size)
        × (round_to_pages os size % os.page_size ≡ 0)
  unfolding round_to_pages
  round_to_pages_least size h = (grind arith, grind arith, grind arith)

  -- What a successful mapping of a size gives the caller.
  pub record Mapped (size : ℕ) (w : World) (r : Region) (w' : World) : Type 0 where
    pub big : size ≤ r.size
    pub rounded : r.size ≡ round_to_pages os size
    pub base_16 : r.base % 16 ≡ 0
    pub size_16 : r.size % 16 ≡ 0
    pub non_null : 0 < r.base
    pub in_space : r.base + r.size < word
    pub listed : w'.mapped ≡ r ∷ w.mapped
    pub alone : (a : Ptr) → within r.base r.size a ≡ 1 → covered w.mapped a ≡ 0
    pub filled : w'.bytes ≡ fill r.base 0 r.size w.bytes

  -- The alternatives of `SystemMemory::map`: a fresh mapping, or an empty span with memory and the
  -- live mappings as they were.
  abbrev pub MapResult : ℕ → World → Region × World → Type 0
  MapResult size w (r, w') =
      ((r ≡ no_region) × (w'.bytes ≡ w.bytes) × (w'.mapped ≡ w.mapped)) ⊎ Mapped size w r w'

  pub sys_map_lem :
      (size : ℕ) (w : World)
      → 0 < size
      → size + os.page_size < word
      → MapResult size w (sys_map os size w)
  unfolding sys_map add_mapping
  sys_map_lem size w pos h =
      elim (Option-cases (os.mmap w.calls w.mapped (round_to_pages os size))) [
        | inl e ↦ rw (nonzero, e) (inl (refl, refl, refl))
        | inr (p, e) ↦
            rw (nonzero, e)
              (inr (record {
                big = (round_to_pages_least size h).0;
                rounded = refl;
                base_16 = mul_16 p os.page_size page_pos (at_page _ _ _ p e) page_16;
                size_16 =
                    mul_16 (round_to_pages os size) os.page_size page_pos
                      (round_to_pages_least size h).2 page_16;
                non_null = doc.non_null _ _ _ p e;
                in_space = doc.in_space _ _ _ p e;
                listed = refl;
                alone = apart _ _ _ p e;
                filled = refl;
              }))
      ]
    where
      nonzero : (size == 0) ≡ false
      nonzero = ground arith
