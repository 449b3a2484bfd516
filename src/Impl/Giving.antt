-- ===== src/Impl/Giving.antt =====
-- What `deallocate` asks `rawDeallocate` to free, and when that refuses.
use m_alloc.Base.{
  ◌<◌, ◌≤◌, ◌⊎◌, ◌+◌, arith, ℕ, ◌-◌, ◌≡◌, refl, true, false, Bool, if◌then◌else◌, if_intro, ◌∷◌,
  Option, none, some, ◌∙◌, Option-cases, inl, inr, subst,
}
use m_alloc.Memory.{Ptr, Bytes}
use m_alloc.Memory.Laws.{fill-outside, write_le-outside}
use m_alloc.Config.{Error, Result, ok, err, invalid_pointer, heap_corruption}
use m_alloc.Header.{header_size, set_state, Tier, tier_value, header_of, read_header}
use m_alloc.Large.{find, large_deallocate}
use m_alloc.Impl.{State, Env, Report, Run, done, aborted, and_then, Cmd, report, set_bytes}
use m_alloc.Impl.Raw.{raw_deallocate, give_back}
use m_alloc.Impl.Deallocate.{
  header_at, raw_free, poison_freed, retire_shim, guards_broken, free_tier,
}
use m_alloc.Impl.Frame.{Frame, raw_deallocate-Frame}

-- All that is recorded but the reports.
pub record Kept (s s' : State) : Type 0 where
  pub config : s'.config ≡ s.config
  pub stats : s'.stats ≡ s.stats
  pub tracker : s'.tracker ≡ s.tracker

pub Frame-Kept : {s t u : State} → Kept s t → Frame t u → Kept s u
Frame-Kept k f = record {
  config = f.config ∙ k.config;
  stats = f.stats ∙ k.stats;
  tracker = f.tracker ∙ k.tracker;
}

pub Kept-refl : (s : State) → Kept s s
Kept-refl s = record { config = refl; stats = refl; tracker = refl }

abbrev pub noted : Error → Ptr → State → Report
noted e p s = record { error = e; ptr = p; to_handler = s.config.has_handler }

-- Not in the header before a payload, nor in the payload.
abbrev pub Elsewhere : Ptr → ℕ → Ptr → Type 0
Elsewhere p n a = (a < header_of p) ⊎ (header_of p + header_size + n ≤ a)

-- The same tiers and mappings: the reports alone may have changed, and the bytes of the payload and
-- of the header before it.
pub record Ready (p : Ptr) (n : ℕ) (s t : State) : Type 0 where
  pub kept : Kept s t
  pub pools : t.pools ≡ s.pools
  pub segments : t.segments ≡ s.segments
  pub large : t.large ≡ s.large
  pub caches : t.caches ≡ s.caches
  pub mapped : t.world.mapped ≡ s.world.mapped
  pub spared : (a : Ptr) → Elsewhere p n a → t.world.bytes a ≡ s.world.bytes a

module _ (p : Ptr) (n : ℕ) (s : State) where
  Ready-refl : Ready p n s s
  Ready-refl = record {
    kept = Kept-refl s;
    pools = refl;
    segments = refl;
    large = refl;
    caches = refl;
    mapped = refl;
    spared = λ a out. refl;
  }

  set_bytes-Ready :
      (t : State) (m : Bytes)
      → ((a : Ptr) → Elsewhere p n a → m a ≡ t.world.bytes a)
      → Ready p n s t
      → Ready p n s (set_bytes m t)
  set_bytes-Ready t m same r = record {
    kept = record { config = r.kept.config; stats = r.kept.stats; tracker = r.kept.tracker };
    pools = r.pools;
    segments = r.segments;
    large = r.large;
    caches = r.caches;
    mapped = r.mapped;
    spared = λ a out. same a out ∙ r.spared a out;
  }

  poison_freed-Ready : (t : State) → Ready p n s t → Ready p n s (poison_freed p n t)
  poison_freed-Ready t r =
      if_intro (Ready p n s) t.config.enable_poisoning
        (λ on.
          set_bytes-Ready t _ (λ a out. fill-outside p _ n a t.world.bytes (ground (arith, out))) r)
        (λ off. r)

  retire_shim-Ready : (t : State) → Ready p n s t → Ready p n s (retire_shim p n t)
  unfolding set_state
  retire_shim-Ready t r =
      set_bytes-Ready (poison_freed p n t) _
        (λ a out. write_le-outside 2 (header_of p + 10) _ a _ (ground (arith, out)))
        (poison_freed-Ready t r)

abbrev pub is_shim : Option Tier → Bool
is_shim (some Tier.debug_shim) = true
is_shim (some Tier.aligned_shim) = true
is_shim other = false

-- `rawDeallocate` was called, for the pointer itself or for the block that its shim leads to, with
-- tiers as they were, and answered so.
pub record Attempt (env : Env) (p : Ptr) (s : State) (shim : Bool) (r : Result ℕ) (u : State)
    : Type 0 where
  pub raw : Ptr
  pub before : State
  pub ready : Ready p (header_at p s).payload_size s before
  pub which : raw ≡ (if shim then p - (header_at p before).offset else p)
  pub made : raw_deallocate env raw before ≡ (r, u)

pub Attempt-Kept :
    {env : Env} {p : Ptr} {s : State} {shim : Bool} {r : Result ℕ} {u : State}
    → Attempt env p s shim r u
    → Kept s u
Attempt-Kept {env = env} a =
    Frame-Kept a.ready.kept
      (subst (λ o. Frame a.before o.1) a.made (raw_deallocate-Frame env a.raw a.before))

-- The guards of the block at the pointer are broken, which was reported.
pub record Broken (p : Ptr) (s s' : State) : Type 0 where
  pub guards : guards_broken p (header_at p s).payload_size s ≡ true
  pub kept : Kept s s'
  pub reports : s'.reports ≡ noted heap_corruption p s ∷ s.reports

-- The switch over the tier.
abbrev pub TierOutcome : Env → Ptr → State → Bool → Run (Result ℕ) → Type 0
TierOutcome env p s shim (done r u) = Attempt env p s shim r u
TierOutcome env p s shim (aborted u) = Broken p s u × (s.config.abort_on_error ≡ true)

module _ (env : Env) (p : Ptr) (s : State) where
  n : ℕ
  n = (header_at p s).payload_size

  shim-Attempt :
      (t : State)
      → Ready p n s t
      → TierOutcome env p s true
          (raw_free env (p - (header_at p (retire_shim p n t)).offset) (retire_shim p n t))
  unfolding n
  shim-Attempt t r = record {
    raw = p - (header_at p (retire_shim p n t)).offset;
    before = retire_shim p n t;
    ready = retire_shim-Ready p n s t r;
    which = refl;
    made = refl;
  }

  plain-Attempt : TierOutcome env p s false (raw_free env p (poison_freed p n s))
  unfolding n
  plain-Attempt = record {
    raw = p;
    before = poison_freed p n s;
    ready = poison_freed-Ready p n s s (Ready-refl p n s);
    which = refl;
    made = refl;
  }

pub free_tier-TierOutcome :
    (env : Env) (p : Ptr) (t : Option Tier) (s : State)
    → TierOutcome env p s (is_shim t) (free_tier env p (header_at p s) t s)
unfolding free_tier report n
free_tier-TierOutcome env p (some Tier.debug_shim) s =
    if_intro
      (λ (c : Cmd (Unit {0})). TierOutcome env p s true (
        and_then (c s) (λ _ t.
          raw_free env (p - (header_at p (retire_shim p (header_at p s).payload_size t)).offset)
            (retire_shim p (header_at p s).payload_size t))))
      (guards_broken p (header_at p s).payload_size s)
      (λ broken.
        if_intro
          (λ (x : Run (Unit {0})). TierOutcome env p s true (
            and_then x (λ _ t.
              raw_free env (p - (header_at p (retire_shim p (header_at p s).payload_size t)).offset)
                (retire_shim p (header_at p s).payload_size t))))
          s.config.abort_on_error
          (λ aborts. (
            record {
              guards = broken;
              kept = record { config = refl; stats = refl; tracker = refl };
              reports = refl;
            },
            aborts,
          ))
          (λ goes_on. shim-Attempt env p s _ (record {
            kept = record { config = refl; stats = refl; tracker = refl };
            pools = refl;
            segments = refl;
            large = refl;
            caches = refl;
            mapped = refl;
            spared = λ a out. refl;
          })))
      (λ whole. shim-Attempt env p s s (Ready-refl p (header_at p s).payload_size s))
free_tier-TierOutcome env p (some Tier.aligned_shim) s =
    shim-Attempt env p s s (Ready-refl p (header_at p s).payload_size s)
free_tier-TierOutcome env p (some Tier.small) s = plain-Attempt env p s
free_tier-TierOutcome env p (some Tier.medium) s = plain-Attempt env p s
free_tier-TierOutcome env p (some Tier.large) s = plain-Attempt env p s
free_tier-TierOutcome env p none s = plain-Attempt env p s

-- A header that leads to no block: it names no tier of blocks, or the large tier, which has no
-- mapping for it.
abbrev pub NoBlock : Ptr → State → Option Tier → Type 0
NoBlock raw t (some Tier.small) = ⊥
NoBlock raw t (some Tier.medium) = ⊥
NoBlock raw t (some Tier.large) = find (header_of raw) t.large ≡ none
NoBlock raw t other = Unit

abbrev Refusal : Ptr → State → Option Tier → Result ℕ → Type 0
Refusal raw t tier (ok n) = Unit
Refusal raw t tier (err e) = (e ≡ invalid_pointer) × NoBlock raw t tier

give_back-Refusal :
    (env : Env) (raw : Ptr) (t : State) (tier : Option Tier)
    → Refusal raw t tier (give_back env raw tier t).0
unfolding give_back large_deallocate
give_back-Refusal env raw t (some Tier.small) = tt
give_back-Refusal env raw t (some Tier.medium) = tt
give_back-Refusal env raw t (some Tier.large) = elim (Option-cases (find (header_of raw) t.large)) [
  | inl e ↦ rw (e, Refusal) (refl, e)
  | inr (r, e) ↦ rw (e, Refusal) tt
]
give_back-Refusal env raw t (some Tier.aligned_shim) = (refl, tt)
give_back-Refusal env raw t (some Tier.debug_shim) = (refl, tt)
give_back-Refusal env raw t none = (refl, tt)

-- `rawDeallocate` refuses only what has no block.
pub raw_deallocate-NoBlock :
    (env : Env) (raw : Ptr) (t u : State) (e : Error)
    → raw_deallocate env raw t ≡ (err e, u)
    → (e ≡ invalid_pointer) × NoBlock raw t (tier_value (read_header (header_of raw) t.world.bytes))
unfolding raw_deallocate
raw_deallocate-NoBlock env raw t u e made =
    subst
      (λ (o : Result ℕ × State).
        Refusal raw t (tier_value (read_header (header_of raw) t.world.bytes)) o.0)
      made (give_back-Refusal env raw t (tier_value (read_header (header_of raw) t.world.bytes)))
