-- ===== src/Pool/Shared.antt =====
-- The shards of all the classes in one address space.
use m_alloc.Base.{
  ℕ, zero, suc, ◌+◌, ◌-◌, ◌≤◌, ◌<◌, ◌≡◌, ◌≢◌, refl, List, [], ◌∷◌, All, arith, length, get_or, true,
  false, ◌==◌, if◌then◌else◌, ap, ◌∙◌, subst, set, length-set, get_or-set_self, get_or-set_ne,
}
use native.Mathlib.Decide.{ℕ_discrete}
use m_alloc.Memory.{Ptr}
use m_alloc.Memory.Laws.{SameOn}
use m_alloc.SizeClass.{class_count}
use m_alloc.SystemMemory.{World, covered}
use m_alloc.FreeList.Chain.{IsFreeList-same}
use m_alloc.Pool.{Shard, Pools, empty_shard, block_stride}
use m_alloc.Pool.Invariant.{Share, ShardInv}

-- How many runs of the shards hold the address.
unfoldable pub run_total : Pools → Share
run_total [] a = 0
run_total (s ∷ ss) a = covered s.runs a + run_total ss a

pub run_total-get :
    (ps : Pools) (i : ℕ) (a : Ptr) → covered (get_or ps i empty_shard).runs a ≤ run_total ps a
unfolding run_total covered
run_total-get [] i a = omega arith
run_total-get (s ∷ ss) zero a = omega arith
run_total-get (s ∷ ss) (suc i) a = omega (arith, run_total-get ss i a)

-- Replacing one shard changes the total by the difference of its runs.
pub run_total-set :
    (ps : Pools) (i : ℕ) (s : Shard) (a : Ptr)
    → i < length ps
    → run_total (set ps i s) a + covered (get_or ps i empty_shard).runs a
      ≡ run_total ps a + covered s.runs a
unfolding run_total
run_total-set [] i s a h = elim h [ ]
run_total-set (p ∷ ps) zero s a h = omega arith
run_total-set (p ∷ ps) (suc i) s a h = omega (arith, run_total-set ps i s a (omega arith))

-- Two shards have different runs.
pub run_total-two :
    (ps : Pools) (i j : ℕ) (a : Ptr)
    → i ≢ j
    → covered (get_or ps i empty_shard).runs a + covered (get_or ps j empty_shard).runs a
      ≤ run_total ps a
unfolding run_total covered
run_total-two [] i j a h = omega arith
run_total-two (s ∷ ss) zero zero a h = absurd (h refl)
run_total-two (s ∷ ss) zero (suc j) a h = omega (arith, run_total-get ss j a)
run_total-two (s ∷ ss) (suc i) zero a h = omega (arith, run_total-get ss i a)
run_total-two (s ∷ ss) (suc i) (suc j) a h = omega (arith, run_total-two ss i j a (omega arith))

-- What the others hold, from where class `i` stands: `rest`, and the runs of the other classes.
abbrev pub others_of : Pools → Share → ℕ → Share
others_of ps rest i a = run_total ps a - covered (get_or ps i empty_shard).runs a + rest a

abbrev pub ClassInv : (ℕ → List Ptr) → (ℕ → Share) → Share → Pools → World → ℕ → Type 0
ClassInv frees own rest ps w i =
    ShardInv (block_stride i) (frees i) (own i) (others_of ps rest i) (get_or ps i empty_shard) w

-- `frees i` and `own i` are the free blocks and the blocks in use of class `i`, and `rest` what the
-- other tiers hold of the live mappings.
pub record PoolsInv (frees : ℕ → List Ptr) (own : ℕ → Share) (rest : Share) (ps : Pools) (w : World)
    : Type 0 where
  pub classes : (i : ℕ) → i < class_count → ClassInv frees own rest ps w i
  pub size : length ps ≡ class_count

-- A function changed at one class.
abbrev pub at_class {ℓ} : {A : Type ℓ} → ℕ → A → (ℕ → A) → ℕ → A
at_class i v f j = if i == j then v else f j

ShardInv-others :
    {stride : ℕ} {frees : List Ptr} {own others others' : Share} {s : Shard} {w : World}
    → ((a : Ptr) → others' a ≤ others a)
    → ShardInv stride frees own others s w
    → ShardInv stride frees own others' s w
ShardInv-others less inv = record {
  list = inv.list;
  frees_16 = inv.frees_16;
  cursor_16 = inv.cursor_16;
  cursor_le = inv.cursor_le;
  end_lt = inv.end_lt;
  split = inv.split;
  runs_live = λ a. omega (arith, inv.runs_live a, less a);
  single = inv.single;
}

module _ (frees : ℕ → List Ptr) (own : ℕ → Share) (rest : Share) (ps : Pools) (w w' : World) (i : ℕ)
    (frees' : List Ptr) (own' : Share) (s' : Shard) where
  changed_class :
      PoolsInv frees own rest ps w
      → i < class_count
      → ShardInv (block_stride i) frees' own' (others_of ps rest i) s' w'
      → ShardInv
          (block_stride i)
          frees'
          own'
          (others_of (set ps i s') rest i)
          (get_or (set ps i s') i empty_shard)
          w'
  changed_class inv top new = rw (get_or-set_self ps i s' empty_shard (omega (arith, inv.size))) (
      ShardInv-others
        (λ a. omega (
          arith,
          run_total-set ps i s' a (omega (arith, inv.size)),
          run_total-get ps i a,
          ap (λ s. covered s.runs a)
              (get_or-set_self ps i s' empty_shard (omega (arith, inv.size))),
        ))
        new)

  other_class :
      PoolsInv frees own rest ps w
      → i < class_count
      → ShardInv (block_stride i) frees' own' (others_of ps rest i) s' w'
      → (j : ℕ) → j < class_count
      → i ≢ j
      → All (λ x. SameOn x 8 w.bytes w'.bytes) (frees j)
      → ClassInv frees own rest (set ps i s') w' j
  other_class inv top new j jtop ne same = rw e record {
    list = IsFreeList-same w.bytes w'.bytes _ (frees j) same old.list;
    frees_16 = old.frees_16;
    cursor_16 = old.cursor_16;
    cursor_le = old.cursor_le;
    end_lt = old.end_lt;
    split = old.split;
    runs_live = λ a. omega (
      arith,
      new.runs_live a,
      run_total-set ps i s' a (omega (arith, inv.size)),
      run_total-get ps i a,
      run_total-get (set ps i s') j a,
      ap (λ s. covered s.runs a) e,
    );
    single = new.single;
  }
    where
      old : ClassInv frees own rest ps w j
      old = inv.classes j jtop

      e : get_or (set ps i s') j empty_shard ≡ get_or ps j empty_shard
      e = get_or-set_ne ps i j s' empty_shard ne

  -- One class changed as its own invariant says, and the free blocks of the others untouched.
  pub update-PoolsInv :
      PoolsInv frees own rest ps w
      → i < class_count
      → ShardInv (block_stride i) frees' own' (others_of ps rest i) s' w'
      → ((j : ℕ) → j < class_count → i ≢ j → All (λ x. SameOn x 8 w.bytes w'.bytes) (frees j))
      → PoolsInv (at_class i frees' frees) (at_class i own' own) rest (set ps i s') w'
  update-PoolsInv inv top new same = record { classes = each; size = length-set ps i s' ∙ inv.size }
    where
      each :
          (j : ℕ)
          → j < class_count
          → ClassInv (at_class i frees' frees) (at_class i own' own) rest (set ps i s') w' j
      each j jtop = elim (ℕ_discrete i j) [
        | yes e ↦
            let hit : (i == j) ≡ true = ground arith in
            rw hit (
              subst
                (λ k.
                  ShardInv (block_stride k) frees' own' (others_of (set ps i s') rest k)
                    (get_or (set ps i s') k empty_shard) w')
                e (changed_class inv top new))
        | no ne ↦
            let miss : (i == j) ≡ false = ground arith in
            rw miss (other_class inv top new j jtop ne (same j jtop ne))
      ]
