-- ===== src/Impl/Returning.antt =====
-- How `deallocate` ends, what it leaves of statistics, registry and reports, and that a second call
-- for the same pointer is caught.
use m_alloc.Base.{
  ℕ, ◌≡◌, ◌≢◌, refl, ap, true, false, not, ◌&&◌, ◌||◌, ◌==◌, if◌then◌else◌, if_intro, arith, inl,
  inr, ◌⊎◌, List, ◌∷◌, ◌∙◌, subst, sym,
}
use m_alloc.Memory.{Ptr, null}
use m_alloc.Config.{Error, Result, ok, err, invalid_pointer, double_free}
use m_alloc.Header.{
  BlockHeader, header_of, read_header, tier_value, has_valid_tier, state_allocated, state_freed,
}
use m_alloc.Statistics.{record_free}
use m_alloc.Debug.{is_tracked, was_freed, untrack}
use m_alloc.Debug.Registry.{IsTracker, untrack_lem}
use m_alloc.Impl.{State, Env, Report, Run, done, aborted, and_then, Cmd, report, fail, or_fail}
use m_alloc.Impl.Deallocate.{
  header_at, free_tier, take_back, free_block_at, check_header, deallocate,
}
use m_alloc.Impl.Raw.{raw_deallocate}
use m_alloc.Impl.Giving.{
  Kept, Kept-refl, noted, is_shim, Attempt, Attempt-Kept, Broken, TierOutcome,
  free_tier-TierOutcome, NoBlock, raw_deallocate-NoBlock,
}

-- A command that may report, and aborts only where it is told to.
abbrev pub Careful {ℓ} : {A : Type ℓ} → State → Run A → Type 0
Careful s (done a s') = Kept s s'
Careful s (aborted s') = Kept s s' × (s.config.abort_on_error ≡ true)

pub report-Careful : (e : Error) (p : Ptr) (s t : State) → Kept s t → Careful s (report e p t)
unfolding report
report-Careful e p s t k = if_intro (Careful s) t.config.abort_on_error (λ a. (now, cc)) (λ a. now)
  where
    now : Kept s (record t {
      reports = record { error = e; ptr = p; to_handler = t.config.has_handler } ∷ t.reports;
    })
    now = record { config = k.config; stats = k.stats; tracker = k.tracker }

-- A header of a block in use, at a pointer that is registered where that is wanted.
pub record Live (p : Ptr) (s : State) : Type 0 where
  pub registered : s.config.enable_leak_tracking ≡ true → is_tracked p s.tracker ≡ true
  pub known : has_valid_tier (header_at p s) ≡ true
  pub in_use : (header_at p s).state ≡ state_allocated

-- A call that gave the block at `p` back: it was in use, `rawDeallocate` freed it, and it is
-- counted and taken from the registry.
pub record Returned (env : Env) (p : Ptr) (s s' : State) : Type 0 where
  pub non_null : p ≢ null
  pub live : Live p s
  pub config : s'.config ≡ s.config
  pub reserved : ℕ
  pub freed : State
  pub attempt : Attempt env p s (is_shim (tier_value (header_at p s))) (ok reserved) freed
  pub left : s' ≡ take_back p (header_at p s).payload_size reserved freed
  pub stats : s'.stats ≡ record_free (header_at p s).payload_size reserved s.stats
  pub tracker :
      s'.tracker ≡ (if s.config.enable_leak_tracking then (untrack p s.tracker).1 else s.tracker)

-- Why a call fails, and with which error: the pointer is not registered, which tells a freed one
-- from others; or its header is none, or that of a freed block; or it leads to no block.
pub data Cause (env : Env) (p : Ptr) (s : State) : Error → Type 0 where
  stray :
      s.config.enable_leak_tracking ≡ true
      → is_tracked p s.tracker ≡ false
      → Cause env p s (if was_freed p s.tracker then double_free else invalid_pointer)
  headless :
      (has_valid_tier (header_at p s) ≡ false)
        ⊎ (((header_at p s).state ≢ state_allocated) × ((header_at p s).state ≢ state_freed))
      → Cause env p s invalid_pointer
  again :
      has_valid_tier (header_at p s) ≡ true
      → (header_at p s).state ≡ state_freed
      → Cause env p s double_free
  blockless :
      (u : State)
      → Live p s
      → (a : Attempt env p s (is_shim (tier_value (header_at p s))) (err invalid_pointer) u)
      → NoBlock a.raw a.before (tier_value (read_header (header_of a.raw) a.before.world.bytes))
      → Cause env p s invalid_pointer

-- A call that failed: nothing but memory and reports has changed, and the last report says why.
pub record Failed (env : Env) (p : Ptr) (s : State) (e : Error) (s' : State) : Type 0 where
  pub cause : Cause env p s e
  pub kept : Kept s s'
  pub earlier : List Report
  pub reports : s'.reports ≡ noted e p s ∷ earlier

abbrev pub FreeOutcome : Env → Ptr → State → Run (Result (Unit {0})) → Type 0
FreeOutcome env p s (done (ok u) s') = ((p ≡ null) × (s' ≡ s)) ⊎ Returned env p s s'
FreeOutcome env p s (done (err e) s') =
    (p ≢ null) × Failed env p s e s' × (s.config.abort_on_error ≡ false)
FreeOutcome env p s (aborted s') =
    (p ≢ null)
    × (((e : Error) × Failed env p s e s') ⊎ Broken p s s')
    × (s.config.abort_on_error ≡ true)

module _ (env : Env) (p : Ptr) (s : State) (ne : p ≢ null) where
  fail-FreeOutcome :
      (e : Error) (t : State) → Kept s t → Cause env p s e → FreeOutcome env p s (fail e p t)
  unfolding report
  fail-FreeOutcome e t k c =
      if_intro (λ (r : Run (Unit {0})). FreeOutcome env p s (and_then r (λ _ u. done (err e) u)))
        t.config.abort_on_error (λ a. (ne, inl (e, now), cc)) (λ a. (ne, now, cc))
    where
      now : Failed env p s e (record t {
        reports = record { error = e; ptr = p; to_handler = t.config.has_handler } ∷ t.reports;
      })
      now = record {
        cause = c;
        kept = record { config = k.config; stats = k.stats; tracker = k.tracker };
        earlier = t.reports;
        reports =
            ap (λ (c : _). record { error = e; ptr = p; to_handler = c.has_handler } ∷ t.reports)
              k.config;
      }

  module _ (live : Live p s) where
    take_back-Returned :
        (reserved : ℕ) (t : State)
        → Attempt env p s (is_shim (tier_value (header_at p s))) (ok reserved) t
        → Returned env p s (take_back p (header_at p s).payload_size reserved t)
    unfolding take_back
    take_back-Returned reserved t a =
        let k = Attempt-Kept a in
        record {
          non_null = ne;
          live = live;
          config = ground (arith, k.config);
          reserved = reserved;
          freed = t;
          attempt = a;
          left = refl;
          stats = ground (arith, k.config, k.stats);
          tracker = ground (arith, k.config, k.tracker);
        }

    free_block_at-FreeOutcome : FreeOutcome env p s (free_block_at env p (header_at p s) s)
    unfolding free_block_at
    free_block_at-FreeOutcome =
        given (free_tier env p (header_at p s) (tier_value (header_at p s)) s)
          (free_tier-TierOutcome env p (tier_value (header_at p s)) s)
      where
        given :
            (r : Run (Result ℕ))
            → TierOutcome env p s (is_shim (tier_value (header_at p s))) r
            → FreeOutcome env p s (
                and_then r (
                  or_fail p λ reserved t.
                    done (ok tt) (take_back p (header_at p s).payload_size reserved t)))
        given (done (ok reserved) t) a = inr (take_back-Returned reserved t a)
        given (done (err e) t) a =
            let (is, no_block) = raw_deallocate-NoBlock env a.raw a.before t e a.made in
            fail-FreeOutcome e t (Attempt-Kept a) (
              subst (Cause env p s) (sym is) (
                blockless t live
                  (record {
                    raw = a.raw;
                    before = a.before;
                    ready = a.ready;
                    which = a.which;
                    made = subst (λ x. raw_deallocate env a.raw a.before ≡ (err x, t)) is a.made;
                  })
                  no_block))
        given (aborted t) (broken, aborts) = (ne, inr broken, aborts)

  check_header-FreeOutcome :
      (s.config.enable_leak_tracking ≡ true → is_tracked p s.tracker ≡ true)
      → FreeOutcome env p s (check_header env p (header_at p s) s)
  unfolding check_header
  check_header-FreeOutcome reg =
      if_intro (λ (c : Cmd (Result (Unit {0}))). FreeOutcome env p s (c s))
        (not (has_valid_tier h)
          || (not (h.state == state_allocated) && not (h.state == state_freed)))
        (λ bad. fail-FreeOutcome invalid_pointer s (Kept-refl s) (headless (ground arith)))
        (λ good.
          if_intro (λ (c : Cmd (Result (Unit {0}))). FreeOutcome env p s (c s))
            (h.state == state_freed)
            (λ freed.
              fail-FreeOutcome double_free s (Kept-refl s) (again (ground arith) (ground arith)))
            (λ live.
              free_block_at-FreeOutcome
                (record { registered = reg; known = ground arith; in_use = ground arith })))
    where
      h : BlockHeader
      h = header_at p s

pub deallocate-FreeOutcome :
    (env : Env) (p : Ptr) (s : State) → FreeOutcome env p s (deallocate env p s)
unfolding deallocate
deallocate-FreeOutcome env p s =
    if_intro (FreeOutcome env p s) (p == null) (λ e. inl (ground arith, refl))
      (λ ne.
        let non_null : p ≢ null = ground arith in
        if_intro (FreeOutcome env p s)
          (s.config.enable_leak_tracking && not (is_tracked p s.tracker))
          (λ off.
            fail-FreeOutcome env p s non_null _ s (Kept-refl s)
              (stray (ground arith) (ground arith)))
          (λ fine. check_header-FreeOutcome env p s non_null (λ on. ground arith)))

Returned-Gone :
    (env : Env) (p : Ptr) (s s' : State)
    → s.config.enable_leak_tracking ≡ true
    → IsTracker s.tracker
    → Returned env p s s'
    → (s'.config.enable_leak_tracking ≡ true)
      × (is_tracked p s'.tracker ≡ false)
      × (was_freed p s'.tracker ≡ true)
Returned-Gone env p s s' on is r =
    let live : is_tracked p s.tracker ≡ true = r.live.registered on in
    let (gone, freed) = (untrack_lem p s.tracker is).3 live p in
    let moved : s'.tracker ≡ (untrack p s.tracker).1 = ground (arith, r.tracker) in
    (
      cc,
      ap (is_tracked p) moved ∙ gone ∙ ground arith,
      ap (was_freed p) moved ∙ freed ∙ ground arith,
    )

-- With tracking on, a second `deallocate` of a pointer, right after one that succeeded, is reported
-- as a double free.
pub deallocate-again :
    (env env' : Env) (p : Ptr) (s s' : State)
    → s.config.enable_leak_tracking ≡ true
    → IsTracker s.tracker
    → p ≢ null
    → deallocate env p s ≡ done (ok tt) s'
    → deallocate env' p s' ≡ fail double_free p s'
unfolding deallocate
deallocate-again env env' p s s' on is ne e =
    elim (subst (FreeOutcome env p s) e (deallocate-FreeOutcome env p s)) [
      | inl none_there ↦ absurd (ne none_there.0)
      | inr r ↦ caught (Returned-Gone env p s s' on is r)
    ]
  where
    caught :
        (s'.config.enable_leak_tracking ≡ true)
          × (is_tracked p s'.tracker ≡ false)
          × (was_freed p s'.tracker ≡ true)
        → deallocate env' p s' ≡ fail double_free p s'
    caught (track_on, gone, freed) =
        let non_null : (p == null) ≡ false = ground arith in
        let stray : (s'.config.enable_leak_tracking && not (is_tracked p s'.tracker)) ≡ true =
          ground arith in
        rw (non_null, stray, freed, deallocate) refl
