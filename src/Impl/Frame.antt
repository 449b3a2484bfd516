-- ===== src/Impl/Frame.antt =====
-- What the raw operations leave alone: configuration, statistics, registry and reports.
use m_alloc.Base.{ℕ, ◌≡◌, refl, Option, none, some, Option-cases, inl, inr, ◌∙◌}
use m_alloc.Base.{leb, if_intro, ◌+◌}
use m_alloc.Memory.{Ptr}
use m_alloc.Config.{Result, ok, err, out_of_memory}
use m_alloc.Header.{small_max, medium_max, header_size}
use m_alloc.Impl.Raw.{
  RawAllocation, raw_small, raw_medium, raw_large, raw_allocate, take_medium, take_large,
}
use m_alloc.Header.{Tier, header_of, read_header, tier_value}
use m_alloc.Impl.{State, Slot, Env}
use m_alloc.Pool.{Pools}
use m_alloc.Segment.Bins.{SegmentHeap}
use m_alloc.Large.{Registry}
use m_alloc.SystemMemory.{World}
use m_alloc.Impl.Raw.{thread_cache, take_small, give_small, give_back, mark_freed, raw_deallocate}

pub record Frame (s s' : State) : Type 0 where
  pub config : s'.config ≡ s.config
  pub stats : s'.stats ≡ s.stats
  pub tracker : s'.tracker ≡ s.tracker
  pub reports : s'.reports ≡ s.reports

pub Frame-refl : (s : State) → Frame s s
Frame-refl s = record { config = refl; stats = refl; tracker = refl; reports = refl }

-- A change of the tiers, the caches and the memory.
pub memory-Frame :
    {s : State} {pools : Pools} {segments : SegmentHeap} {large : Registry} {caches : ℕ → Slot}
    {w : World}
    → Frame s
        (record s { pools = pools; segments = segments; large = large; caches = caches; world = w })
memory-Frame = record { config = refl; stats = refl; tracker = refl; reports = refl }

pub Frame-trans : {s t u : State} → Frame s t → Frame t u → Frame s u
Frame-trans f g = record {
  config = g.config ∙ f.config;
  stats = g.stats ∙ f.stats;
  tracker = g.tracker ∙ f.tracker;
  reports = g.reports ∙ f.reports;
}

pub take_small-Frame : (env : Env) (i : ℕ) (s : State) → Frame s (take_small env i s).1
unfolding take_small
take_small-Frame env i s = elim (Option-cases (thread_cache env s)) [
  | inl e ↦ rw (e, take_small) memory-Frame
  | inr (c, e) ↦ rw (e, take_small) memory-Frame
]

give_small-Frame : (env : Env) (i : ℕ) (b : Ptr) (s : State) → Frame s (give_small env i b s)
unfolding give_small
give_small-Frame env i b s = elim (Option-cases (thread_cache env s)) [
  | inl e ↦ rw (e, give_small) memory-Frame
  | inr (c, e) ↦ rw (e, give_small) memory-Frame
]

give_back-Frame :
    (env : Env) (raw : Ptr) (s : State) (t : Option Tier) → Frame s (give_back env raw t s).1
unfolding give_back
give_back-Frame env raw s (some Tier.small) = Frame-trans (same) (give_small-Frame env _ _ _)
  where
    same : Frame s (mark_freed raw s)
    same = memory-Frame
give_back-Frame env raw s (some Tier.medium) = memory-Frame
give_back-Frame env raw s (some Tier.large) = memory-Frame
give_back-Frame env raw s (some Tier.aligned_shim) = Frame-refl s
give_back-Frame env raw s (some Tier.debug_shim) = Frame-refl s
give_back-Frame env raw s none = Frame-refl s

pub raw_deallocate-Frame :
    (env : Env) (raw : Ptr) (s : State) → Frame s (raw_deallocate env raw s).1
unfolding raw_deallocate
raw_deallocate-Frame env raw s =
    give_back-Frame env raw s (tier_value (read_header (header_of raw) s.world.bytes))

-- A raw allocation fails for lack of memory alone.
abbrev pub RawOutcome : State → Result RawAllocation × State → Type 0
RawOutcome s (ok raw, s') = Frame s s'
RawOutcome s (err e, s') = (e ≡ out_of_memory) × Frame s s'

raw_small-Outcome :
    (size i : ℕ) (s : State) (r : Option Ptr × State)
    → Frame s r.1
    → RawOutcome s (raw_small size i r)
unfolding raw_small
raw_small-Outcome size i s (none, t) f = (refl, f)
raw_small-Outcome size i s (some b, t) f = Frame-trans f memory-Frame

raw_medium-Outcome :
    (size : ℕ) (s : State) (r : Option Ptr × State) → Frame s r.1 → RawOutcome s (raw_medium size r)
unfolding raw_medium
raw_medium-Outcome size s (none, t) f = (refl, f)
raw_medium-Outcome size s (some b, t) f = Frame-trans f memory-Frame

raw_large-Outcome :
    (size : ℕ) (s : State) (r : Option Ptr × State) → Frame s r.1 → RawOutcome s (raw_large size r)
unfolding raw_large
raw_large-Outcome size s (none, t) f = (refl, f)
raw_large-Outcome size s (some b, t) f = Frame-trans f memory-Frame

pub raw_allocate-Outcome :
    (env : Env) (size : ℕ) (s : State) → RawOutcome s (raw_allocate env size s)
unfolding raw_allocate
raw_allocate-Outcome env size s =
    if_intro (RawOutcome s) (leb size small_max)
      (λ small. raw_small-Outcome size _ s _ (take_small-Frame env _ s))
      (λ big.
        if_intro (RawOutcome s) (leb size medium_max)
          (λ medium.
            raw_medium-Outcome size s (take_medium env (size + header_size) s) memory-Frame)
          (λ large. raw_large-Outcome size s (take_large env (size + header_size) s) memory-Frame))
