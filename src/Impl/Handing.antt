-- ===== src/Impl/Handing.antt =====
-- How `allocate` and `alignedAllocate` end, and what they leave of statistics, registry and reports.
use m_alloc.Base.{
  ℕ, ◌+◌, ◌≡◌, refl, Bool, true, false, not, ◌||◌, if◌then◌else◌, leb, ltb, if_intro, arith, ◌∷◌,
  subst, sym,
}
use m_alloc.Memory.{Ptr, null}
use m_alloc.Config.{Error, Result, ok, err, out_of_memory, size_overflow, invalid_alignment}
use m_alloc.Header.{default_alignment, is_power_of_two}
use m_alloc.Statistics.{record_allocation}
use m_alloc.Debug.{track, guarded_size, guarded_user}
use m_alloc.Impl.{
  State, Env, Run, done, aborted, and_then, Cmd, report, fail, or_fail, max_request, max_alignment,
}
use m_alloc.Impl.Raw.{RawAllocation, raw_allocate}
use m_alloc.Impl.Allocate.{
  one_at_least, hand_out, finish, guarded, allocate_sized, allocate, aligned_user, place_shim,
  aligned_sized, aligned_allocate,
}
use m_alloc.Impl.Frame.{
  RawOutcome, raw_allocate-Outcome, Frame, Frame-refl, Frame-trans, memory-Frame,
}

-- An error that was reported with a pointer, and changed nothing else that is recorded.
pub record Reported (e : Error) (p : Ptr) (s s' : State) : Type 0 where
  pub config : s'.config ≡ s.config
  pub stats : s'.stats ≡ s.stats
  pub tracker : s'.tracker ≡ s.tracker
  pub reports :
      s'.reports ≡ record { error = e; ptr = p; to_handler = s.config.has_handler } ∷ s.reports

-- A block that was handed out: it is counted with its size, and registered if that is wanted.
pub record Handed (size : ℕ) (p : Ptr) (s s' : State) : Type 0 where
  pub config : s'.config ≡ s.config
  pub reserved : ℕ
  pub stats : s'.stats ≡ record_allocation size reserved s.stats
  pub tracker :
      s'.tracker ≡ (if s.config.enable_leak_tracking then track p size s.tracker else s.tracker)
  pub reports : s'.reports ≡ s.reports

-- The ends of a call that may fail with `e`: it aborts on an error exactly if it is told to.
abbrev pub AllocOutcome : ℕ → Error → State → Run (Result Ptr) → Type 0
AllocOutcome size e s (done (ok p) s') = Handed size p s s'
AllocOutcome size e s (done (err e') s') =
    (e' ≡ e) × Reported e null s s' × (s.config.abort_on_error ≡ false)
AllocOutcome size e s (aborted s') = Reported e null s s' × (s.config.abort_on_error ≡ true)

pub report-Reported :
    (e : Error) (p : Ptr) (s t : State)
    → Frame s t
    → Reported e p s (record t {
      reports = record { error = e; ptr = p; to_handler = t.config.has_handler } ∷ t.reports;
    })
report-Reported e p s t f = record {
  config = f.config;
  stats = f.stats;
  tracker = f.tracker;
  reports = cc;
}

fail-Outcome :
    (size : ℕ) (e : Error) (s t : State) → Frame s t → AllocOutcome size e s (fail e null t)
unfolding report
fail-Outcome size e s t f =
    if_intro (λ (r : Run (Unit {0})). AllocOutcome size e s (and_then r (λ _ u. done (err e) u)))
      t.config.abort_on_error (λ a. (report-Reported e null s t f, cc))
      (λ a. (refl, report-Reported e null s t f, cc))

hand_out-Handed :
    (user size reserved : ℕ) (s t : State)
    → Frame s t
    → Handed size user s (hand_out user size reserved t)
unfolding hand_out
hand_out-Handed user size reserved s t f = record {
  config = ground arith;
  reserved = reserved;
  stats = ground arith;
  tracker = ground arith;
  reports = ground arith;
}

-- A raw allocation and what follows it on success.
after_raw :
    (size : ℕ) (s : State) (k : RawAllocation → Cmd (Result Ptr)) (r : Result RawAllocation × State)
    → RawOutcome s r
    → ((raw : RawAllocation) (t : State) → Frame s t → AllocOutcome size out_of_memory s (k raw t))
    → AllocOutcome size out_of_memory s (or_fail null k r.0 r.1)
after_raw size s k (ok raw, t) f next = next raw t f
after_raw size s k (err e, t) f next =
    subst (λ e'. AllocOutcome size out_of_memory s (fail e' null t)) (sym f.0)
      (fail-Outcome size out_of_memory s t f.1)

allocate_sized-Outcome :
    (env : Env) (size : ℕ) (s : State)
    → AllocOutcome size out_of_memory s (allocate_sized env size s)
unfolding allocate_sized guarded
allocate_sized-Outcome env size s =
    if_intro (AllocOutcome size out_of_memory s) s.config.enable_guard_bytes
      (λ on.
        after_raw size s (guarded size) (raw_allocate env (guarded_size size) s)
          (raw_allocate-Outcome env (guarded_size size) s) with_guards)
      (λ off.
        after_raw size s (λ raw. finish raw.user size raw.reserved) (raw_allocate env size s)
          (raw_allocate-Outcome env size s)
          (λ raw t f. hand_out-Handed raw.user size raw.reserved s t f))
  where
    with_guards :
        (raw : RawAllocation) (t : State)
        → Frame s t
        → AllocOutcome size out_of_memory s (guarded size raw t)
    with_guards raw t f =
        hand_out-Handed (guarded_user raw.user) size raw.reserved s _ (Frame-trans f memory-Frame)

-- The error that a call fails with.
abbrev pub refusal : ℕ → Error
refusal size = if ltb max_request size then size_overflow else out_of_memory

-- A call behind the test of its size.
sized-Outcome :
    (n : ℕ) (c : Cmd (Result Ptr)) (s : State)
    → AllocOutcome n out_of_memory s (c s)
    → AllocOutcome n (refusal n) s ((if ltb max_request n then fail size_overflow null else c) s)
sized-Outcome n c s o = tested (ltb max_request n)
  where
    tested :
        (b : Bool)
        → AllocOutcome n
            (if b then size_overflow else out_of_memory)
            s
            ((if b then fail size_overflow null else c) s)
    tested true = fail-Outcome n size_overflow s s (Frame-refl s)
    tested false = o

pub allocate-Outcome :
    (env : Env) (size : ℕ) (s : State)
    → AllocOutcome (one_at_least size) (refusal (one_at_least size)) s (allocate env size s)
unfolding allocate
allocate-Outcome env size s =
    sized-Outcome (one_at_least size) (allocate_sized env (one_at_least size)) s
      (allocate_sized-Outcome env (one_at_least size) s)

aligned_sized-Outcome :
    (env : Env) (alignment size : ℕ) (s : State)
    → AllocOutcome size out_of_memory s (aligned_sized env alignment size s)
unfolding aligned_sized place_shim
aligned_sized-Outcome env alignment size s =
    after_raw size s (place_shim alignment size) (raw_allocate env (size + alignment) s)
      (raw_allocate-Outcome env (size + alignment) s) shim
  where
    shim :
        (raw : RawAllocation) (t : State)
        → Frame s t
        → AllocOutcome size out_of_memory s (place_shim alignment size raw t)
    shim raw t f =
        hand_out-Handed (aligned_user raw.user alignment) size raw.reserved s _
          (Frame-trans f memory-Frame)

-- The test of the alignment.
abbrev pub unsupported : ℕ → Bool
unsupported alignment = not (is_power_of_two alignment) || ltb max_alignment alignment

pub aligned_allocate-Outcome :
    (env : Env) (alignment size : ℕ) (s : State)
    → AllocOutcome
        (one_at_least size)
        (if unsupported alignment then invalid_alignment else refusal (one_at_least size))
        s
        (aligned_allocate env alignment size s)
unfolding aligned_allocate
aligned_allocate-Outcome env alignment size s = tested (unsupported alignment)
  where
    n : ℕ
    n = one_at_least size

    supported : AllocOutcome n (refusal n) s (
        (if leb alignment default_alignment
            then allocate env size
            else if ltb max_request n
            then fail size_overflow null
            else aligned_sized env alignment n)
          s)
    supported =
        if_intro (λ (c : Cmd (Result Ptr)). AllocOutcome n (refusal n) s (c s))
          (leb alignment default_alignment) (λ small. allocate-Outcome env size s)
          (λ big.
            sized-Outcome n (aligned_sized env alignment n) s
              (aligned_sized-Outcome env alignment n s))

    tested :
        (b : Bool)
        → AllocOutcome n (if b then invalid_alignment else refusal n) s (
            (if b
                then fail invalid_alignment null
                else if leb alignment default_alignment
                then allocate env size
                else if ltb max_request n
                then fail size_overflow null
                else aligned_sized env alignment n)
              s)
    tested true = fail-Outcome n invalid_alignment s s (Frame-refl s)
    tested false = supported
