-- ===== src/Pool/Take.antt =====
-- `takeBlock`: a block that nobody holds, or null when the system has no memory.
use m_alloc.Base.{
  ℕ, ◌+◌, ◌-◌, ◌%◌, ◌≤◌, ◌<◌, ◌≡◌, refl, List, [], ◌∷◌, Option, none, some, arith, inl, inr, ◌⊎◌,
  Bool-cases, true, false, ◌||◌, ltb, ◌==◌, sym, subst, ◌∙◌,
}
use native.Mathlib.Nat.{le_trans, le_refl, le-add_left}
use m_alloc.Memory.{Ptr, null}
use m_alloc.Memory.Laws.{fill-outside}
use m_alloc.Header.{word}
use m_alloc.SystemMemory.{Region, World, Os, Documented, within, covered, is_valid}
use m_alloc.SystemMemory.{sys_map}
use m_alloc.SystemMemory.Fresh.{Mapped, MapResult, sys_map_lem, within-once}
use m_alloc.FreeList.{FreeList, pop}
use m_alloc.FreeList.Chain.{IsFreeList, cover}
use m_alloc.FreeList.Stack.{pop-cons, pop-nil}
use m_alloc.Pool.{
  Shard, refill, bump, take_fresh, take_block, take_popped, run_size, adopt_run, bump_after,
}
use m_alloc.Pool.Invariant.{Share, ShardInv, with_block}

-- Memory that is mapped keeps its bytes.
abbrev pub Spares : World → World → Type 0
Spares w w' = (a : Ptr) → 0 < covered w.mapped a → w'.bytes a ≡ w.bytes a

-- What is mapped stays mapped.
abbrev pub Grows : World → World → Type 0
Grows w w' = (a : Ptr) → covered w.mapped a ≤ covered w'.mapped a

pub Spares-trans : (u v w : World) → Grows u v → Spares u v → Spares v w → Spares u w
Spares-trans u v w g h k a held = k a (le_trans held (g a)) ∙ h a held

pub Grows-trans : (u v w : World) → Grows u v → Grows v w → Grows u w
Grows-trans u v w g h a = le_trans (g a) (h a)

-- An address that a block of the small tier may have.
pub record IsBlock (b : Ptr) : Type 0 where
  pub aligned : b % 16 ≡ 0
  pub non_null : 0 < b
  pub in_space : b < word

-- A block that was taken: where it lies, and who owns what afterwards.
pub record Took (stride : ℕ) (own others : Share) (w : World) (b : Ptr) (s' : Shard) (w' : World)
    : Type 0 where
  pub rest : List Ptr
  pub inv : ShardInv stride rest (with_block stride b own) others s' w'
  pub block : IsBlock b
  pub spares : Spares w w'
  pub grows : Grows w w'

-- The bump region has no room for a block, and the system was asked for a run and gave none.
pub record NoMemory (os : Os) (stride : ℕ) (s' : Shard) (w' : World) : Type 0 where
  pub asked : World
  pub short : (s'.bump_cursor ≡ null) ⊎ (s'.bump_end - s'.bump_cursor < stride)
  pub no_run : is_valid (sys_map os run_size asked).0 ≡ false
  pub answer : (sys_map os run_size asked).1 ≡ w'

-- No block: the free list is empty, there is no memory, and what is mapped and owned is as before.
pub record Refused (os : Os) (stride : ℕ) (own others : Share) (w : World) (s' : Shard) (w' : World)
    : Type 0 where
  pub no_memory : NoMemory os stride s' w'
  pub inv : ShardInv stride [] own others s' w'
  pub bytes_same : w'.bytes ≡ w.bytes
  pub mapped_same : w'.mapped ≡ w.mapped

abbrev pub TakeResult : Os → ℕ → Share → Share → World → Option Ptr × Shard × World → Type 0
TakeResult os stride own others w (some b, s', w') = Took stride own others w b s' w'
TakeResult os stride own others w (none, s', w') = Refused os stride own others w s' w'

module _ (os : Os) (stride : ℕ) (own others : Share) (big : 16 ≤ stride)
    (s16 : stride % 16 ≡ 0) where
  bump-Took :
      (s : Shard) (w0 w : World) (frees : List Ptr)
      → ShardInv stride frees own others s w
      → 0 < s.bump_cursor
      → stride ≤ s.bump_end - s.bump_cursor
      → Spares w0 w
      → Grows w0 w
      → TakeResult os stride own others w0 (bump stride s w)
  unfolding bump within
  bump-Took s w0 w frees inv pos room spares grows = record {
    rest = frees;
    inv = record {
      list = inv.list;
      frees_16 = inv.frees_16;
      cursor_16 = omega (arith, inv.cursor_16);
      cursor_le = omega arith;
      end_lt = inv.end_lt;
      split = λ a. moved a (inv.split a);
      runs_live = inv.runs_live;
      single = inv.single;
    };
    block = record {
      aligned = inv.cursor_16;
      non_null = pos;
      in_space = omega (arith, inv.end_lt);
    };
    spares = spares;
    grows = grows;
  }
    where
      moved :
          (a : Ptr)
          → cover stride frees a + own a + within s.bump_cursor (s.bump_end - s.bump_cursor) a
            ≤ covered s.runs a
          → cover stride frees a
              + (own a + within s.bump_cursor stride a)
              + within (s.bump_cursor + stride) (s.bump_end - (s.bump_cursor + stride)) a
            ≤ covered s.runs a
      moved a h = ground arith

-- The invariant depends on the links of the free blocks alone, and on what is mapped.
pub ShardInv-world :
    {stride : ℕ} {frees : List Ptr} {own others : Share} {s : Shard} {w w' : World}
    → w'.bytes ≡ w.bytes
    → w'.mapped ≡ w.mapped
    → ShardInv stride frees own others s w
    → ShardInv stride frees own others s w'
ShardInv-world b m inv = record {
  list = rw b inv.list;
  frees_16 = inv.frees_16;
  cursor_16 = inv.cursor_16;
  cursor_le = inv.cursor_le;
  end_lt = inv.end_lt;
  split = inv.split;
  runs_live = rw m inv.runs_live;
  single = rw m inv.single;
}

popped :
    {stride : ℕ} {own others : Share} (s : Shard) (w : World) (x : Ptr) (xs : List Ptr)
    (f : FreeList)
    → ShardInv stride (x ∷ xs) own others s w
    → IsFreeList w.bytes f xs
    → ShardInv stride xs (with_block stride x own) others (record s { free_list = f }) w
unfolding cover
popped s w x xs f inv left = record {
  list = left;
  frees_16 = inv.frees_16.1;
  cursor_16 = inv.cursor_16;
  cursor_le = inv.cursor_le;
  end_lt = inv.end_lt;
  split = λ a. omega (arith, inv.split a);
  runs_live = inv.runs_live;
  single = inv.single;
}

outside_of_covered : (p n a c : ℕ) → 0 < c → (within p n a ≡ 1 → c ≡ 0) → (a < p) ⊎ (p + n ≤ a)
unfolding within
outside_of_covered p n a c pos h = ground arith

module _ (os : Os) (doc : Documented os) (stride : ℕ) (own others : Share) where
  -- A new run: the free list is empty, and the run is not yet carved.
  refilled :
      (s : Shard) (w w' : World) (r : Region)
      → Mapped os doc run_size w r w'
      → ShardInv stride [] own others s w
      → 8 ≤ stride
      → ShardInv stride [] own others
          (record s { bump_cursor = r.base; bump_end = r.base + r.size; runs = r ∷ s.runs })
          w'
  unfolding covered cover
  refilled s w w' r new inv big = record {
    list = record { chain = inv.list.chain; count = inv.list.count };
    frees_16 = tt;
    cursor_16 = new.base_16;
    cursor_le = omega arith;
    end_lt = new.in_space;
    split = λ a.
        let e : r.base + r.size - r.base ≡ r.size = omega arith in
        rw e (omega (arith, inv.split a));
    runs_live = λ a. rw new.listed (omega (arith, inv.runs_live a));
    single = λ a. rw new.listed (within-once r.base r.size a _ (new.alone a) (inv.single a));
  }

  Mapped-Spares : (w w' : World) (r : Region) → Mapped os doc run_size w r w' → Spares w w'
  Mapped-Spares w w' r new a held = rw new.filled (
      fill-outside r.base 0 r.size a w.bytes
        (outside_of_covered r.base r.size a _ held (new.alone a)))

  after_map :
      (s : Shard) (w w' : World) (r : Region)
      → MapResult os doc run_size w (r, w')
      → ShardInv stride [] own others s w
      → 16 ≤ stride
      → stride ≤ run_size
      → stride % 16 ≡ 0
      → (s.bump_cursor ≡ null) ⊎ (s.bump_end - s.bump_cursor < stride)
      → ((r.size == 0) ≡ true → NoMemory os stride s w')
      → TakeResult os stride own others w (bump_after stride (adopt_run s (r, w')))
  unfolding bump_after adopt_run is_valid covered
  after_map s w w' r (inl (e, b, m)) inv big small s16 short no_memory = rw e (record {
    no_memory = no_memory (ground (arith, e));
    inv = ShardInv-world b m inv;
    bytes_same = b;
    mapped_same = m;
  })
  after_map s w w' r (inr new) inv big small s16 short no_memory = rw valid (
      bump-Took os stride own others big s16 _ w w' [] (refilled s w w' r new inv (omega arith))
        new.non_null (omega (arith, new.big)) (Mapped-Spares w w' r new)
        (λ a. rw new.listed (le-add_left _ _)))
    where
      valid : (r.size == 0) ≡ false
      valid = ground (arith, new.big)

  fresh-TakeResult :
      (s : Shard) (w : World)
      → ShardInv stride [] own others s w
      → 16 ≤ stride
      → stride ≤ run_size
      → stride % 16 ≡ 0
      → TakeResult os stride own others w (take_fresh os stride s w)
  unfolding take_fresh refill is_valid
  fresh-TakeResult s w inv big small s16 =
      elim (Bool-cases ((s.bump_cursor == null) || ltb (s.bump_end - s.bump_cursor) stride)) [
        | inl short ↦ rw short (
            after_map s w (sys_map os run_size w).1 (sys_map os run_size w).0
              (sys_map_lem os doc run_size w (omega arith) (omega (arith, doc.page_small))) inv big
              small s16 (ground arith)
              (λ invalid. record {
                asked = w;
                short = ground arith;
                no_run = rw invalid refl;
                answer = refl;
              }))
        | inr room ↦ rw room (
            bump-Took os stride own others big s16 s w w [] inv (ground arith) (ground arith)
              (λ a h. refl) (λ a. le_refl _))
      ]

  -- `takeBlock` in a shard whose memory is owned as the invariant says.
  pub take_block-TakeResult :
      (s : Shard) (w : World) (frees : List Ptr)
      → ShardInv stride frees own others s w
      → 16 ≤ stride
      → stride ≤ run_size
      → stride % 16 ≡ 0
      → TakeResult os stride own others w (take_block os stride s w)
  unfolding take_block
  take_block-TakeResult s w [] inv big small s16 =
      rw (pop-nil s.free_list w.bytes inv.list) (fresh-TakeResult s w inv big small s16)
  take_block-TakeResult s w (x ∷ xs) inv big small s16 =
      let (got, left) = pop-cons s.free_list w.bytes x xs inv.list in
      subst
        (λ r.
          TakeResult os stride own others w
            (take_popped os stride s w (r, (pop s.free_list w.bytes).1)))
        (sym got)
        (record {
          rest = xs;
          inv = popped s w x xs (pop s.free_list w.bytes).1 inv left;
          block = record {
            aligned = inv.frees_16.0;
            non_null = inv.list.chain.1;
            in_space = inv.list.chain.2;
          };
          spares = λ a h. refl;
          grows = λ a. le_refl _;
        })
