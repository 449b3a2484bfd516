-- ===== src/Impl/Moving.antt =====
-- How `reallocate` ends, on each of its branches.
use m_alloc.Base.{ℕ, ◌+◌, ◌<◌, ◌≤◌, ◌≡◌, ◌≢◌, true, false, ◌⊎◌, min}
use m_alloc.Memory.{Ptr, null}
use m_alloc.Config.{Error, Result, ok, err, invalid_pointer}
use m_alloc.Impl.{State, Env, Run, done, aborted, set_bytes}
use m_alloc.Impl.Allocate.{one_at_least}
use m_alloc.Impl.Reallocate.{allocation_size}
use m_alloc.Impl.Handing.{Handed, Reported, refusal}
use m_alloc.Impl.Giving.{Broken}
use m_alloc.Impl.Returning.{Returned, Failed}

-- The state in which the old block is given back, and what was copied before.
pub record Copied (p q : Ptr) (n : ℕ) (s t : State) : Type 0 where
  pub middle : State
  -- The new block was handed out.
  pub handed : Handed n q s middle
  pub same : t ≡ set_bytes t.world.bytes middle
  pub moved :
      (i : ℕ) → i < min (allocation_size p s) n → t.world.bytes (q + i) ≡ middle.world.bytes (p + i)
  pub spared :
      (a : Ptr)
      → (a < q) ⊎ (q + min (allocation_size p s) n ≤ a)
      → t.world.bytes a ≡ middle.world.bytes a

-- A call for a live block and a size that is not 0.
pub record Asked (p : Ptr) (n : ℕ) : Type 0 where
  pub non_null : p ≢ null
  pub some_size : n ≢ 0

-- The ways to fail, each with the error and the state that it leaves. In `left_over` the new block
-- has been handed out and stays so.
pub data Stopped (env : Env) (p : Ptr) (n : ℕ) (s s' : State) : Error → Type 0 where
  refused :
      (p ≡ null) ⊎ (Asked p n × (allocation_size p s ≢ 0))
      → Reported (refusal (one_at_least n)) null s s'
      → Stopped env p n s s' (refusal (one_at_least n))
  unfreed : {e : Error} → p ≢ null → n ≡ 0 → Failed env p s e s' → Stopped env p n s s' e
  unknown :
      Asked p n
      → allocation_size p s ≡ 0
      → Reported invalid_pointer p s s'
      → Stopped env p n s s' invalid_pointer
  left_over :
      {e : Error} {t : State} (q : Ptr)
      → Asked p n
      → Copied p q n s t
      → Failed env p t e s'
      → Stopped env p n s s' e

-- Broken guards of the old block, found when it is given back.
pub data Tripped (p : Ptr) (n : ℕ) (s s' : State) : Type 0 where
  at_once : p ≢ null → n ≡ 0 → Broken p s s' → Tripped p n s s'
  after_copy :
      {t : State} (q : Ptr) → Asked p n → Copied p q n s t → Broken p t s' → Tripped p n s s'

-- The ways to succeed.
pub data Resized (env : Env) (p : Ptr) (n : ℕ) (s s' : State) : Ptr → Type 0 where
  new : {q : Ptr} → p ≡ null → Handed (one_at_least n) q s s' → Resized env p n s s' q
  gone : p ≢ null → n ≡ 0 → Returned env p s s' → Resized env p n s s' null
  moved :
      {q : Ptr} {t : State}
      → Asked p n
      → allocation_size p s ≢ 0
      → Copied p q n s t
      → Returned env p t s'
      → Resized env p n s s' q

abbrev pub ReallocOutcome : Env → Ptr → ℕ → State → Run (Result Ptr) → Type 0
ReallocOutcome env p n s (done (ok q) s') = Resized env p n s s' q
ReallocOutcome env p n s (done (err e) s') =
    Stopped env p n s s' e × (s.config.abort_on_error ≡ false)
ReallocOutcome env p n s (aborted s') =
    (((e : Error) × Stopped env p n s s' e) ⊎ Tripped p n s s') × (s.config.abort_on_error ≡ true)

module _ (env : Env) (p : Ptr) (n : ℕ) (s : State) where
  abbrev Outcome : Run (Result Ptr) → Type 0
  Outcome r = ReallocOutcome env p n s r
