-- ===== src/Impl/Reach.antt =====
-- The states that calls of the allocator and writes of the program lead to.
use m_alloc.Base.{ℕ, ◌≡◌, ◌≢◌, refl, sym, subst, true, if_intro, inl, inr, ap, ◌∙◌, arith}
use m_alloc.Memory.{Ptr, Bytes, null}
use m_alloc.Config.{Config, Error, Result, ok, err, double_free}
use m_alloc.SystemMemory.{World}
use m_alloc.Statistics.Exact.{Balanced, recorded-Balanced, allocated, freed, recorded}
use m_alloc.Debug.{is_tracked, was_freed, holds, has_key}
use m_alloc.Debug.Registry.{IsTracker, track_lem, untrack_lem}
use m_alloc.Impl.{State, Env, done, initial, set_bytes, fail, report}
use m_alloc.Impl.Allocate.{allocate, aligned_allocate}
use m_alloc.Impl.Deallocate.{deallocate}
use m_alloc.Impl.Handing.{Handed, AllocOutcome, allocate-Outcome, aligned_allocate-Outcome}
use m_alloc.Impl.Giving.{Kept-refl}
use m_alloc.Impl.Returning.{
  Careful, report-Careful, Returned, FreeOutcome, deallocate-FreeOutcome, deallocate-again,
}

-- A call that returned, a report, or a write of the program to the byte memory, at any addresses.
-- The allocator's own objects (configuration, counters, registry) are not in that memory.
pub data Step (s : State) : State → Type 0 where
  allocates :
      (env : Env) (size : ℕ) (r : Result Ptr) {s' : State}
      → allocate env size s ≡ done r s'
      → Step s s'
  aligns :
      (env : Env) (alignment size : ℕ) (r : Result Ptr) {s' : State}
      → aligned_allocate env alignment size s ≡ done r s'
      → Step s s'
  frees :
      (env : Env) (p : Ptr) (r : Result (Unit {0})) {s' : State}
      → deallocate env p s ≡ done r s'
      → Step s s'
  refuses : (e : Error) (p : Ptr) {s' : State} → report e p s ≡ done tt s' → Step s s'
  writes : (m : Bytes) → Step s (set_bytes m s)

pub data Reach (s : State) : State → Type 0 where
  start : Reach s s
  after : {t u : State} → Reach s t → Step t u → Reach s u

-- The configuration is the one it was made with, the registry is in order and the counters are in
-- balance.
pub record InOrder (config : Config) (s : State) : Type 0 where
  pub same : s.config ≡ config
  pub tracker : IsTracker s.tracker
  pub stats : Balanced s.stats

module _ {config : Config} {s s' : State} (o : InOrder config s) where
  Handed-InOrder : (size : ℕ) (p : Ptr) → Handed size p s s' → InOrder config s'
  unfolding recorded
  Handed-InOrder size p h = record {
    same = h.config ∙ o.same;
    tracker = subst IsTracker (sym h.tracker) (
        if_intro IsTracker s.config.enable_leak_tracking
          (λ on. (track_lem p s.tracker o.tracker size).0) (λ off. o.tracker));
    stats =
        subst Balanced (sym h.stats)
          (recorded-Balanced (allocated size h.reserved) s.stats o.stats);
  }

  Returned-InOrder : (env : Env) (p : Ptr) → Returned env p s s' → InOrder config s'
  unfolding recorded
  Returned-InOrder env p h = record {
    same = h.config ∙ o.same;
    tracker = subst IsTracker (sym h.tracker) (
        if_intro IsTracker s.config.enable_leak_tracking
          (λ on. (untrack_lem p s.tracker o.tracker).1) (λ off. o.tracker));
    stats = subst Balanced (sym h.stats) (recorded-Balanced (freed _ h.reserved) s.stats o.stats);
  }

  kept-InOrder :
      s'.config ≡ s.config → s'.stats ≡ s.stats → s'.tracker ≡ s.tracker → InOrder config s'
  kept-InOrder c st tr = record {
    same = c ∙ o.same;
    tracker = subst IsTracker (sym tr) o.tracker;
    stats = subst Balanced (sym st) o.stats;
  }

  alloc-InOrder :
      (size : ℕ) (e : Error) (r : Result Ptr)
      → AllocOutcome size e s (done r s')
      → InOrder config s'
  alloc-InOrder size e (ok p) h = Handed-InOrder size p h
  alloc-InOrder size e (err e') h = kept-InOrder h.1.config h.1.stats h.1.tracker

  free-InOrder :
      (env : Env) (p : Ptr) (r : Result (Unit {0}))
      → FreeOutcome env p s (done r s')
      → InOrder config s'
  free-InOrder env p (ok u) (inl (is_null, e)) = subst (InOrder config) (sym e) o
  free-InOrder env p (ok u) (inr h) = Returned-InOrder env p h
  free-InOrder env p (err e) (ne, h, on) = kept-InOrder h.kept.config h.kept.stats h.kept.tracker

Step-InOrder : {config : Config} {s s' : State} → Step s s' → InOrder config s → InOrder config s'
Step-InOrder {s = s} (allocates env size r e) o =
    alloc-InOrder o _ _ r (subst (AllocOutcome _ _ s) e (allocate-Outcome env size s))
Step-InOrder {s = s} (aligns env alignment size r e) o =
    alloc-InOrder o _ _ r
      (subst (AllocOutcome _ _ s) e (aligned_allocate-Outcome env alignment size s))
Step-InOrder {s = s} (frees env p r e) o =
    free-InOrder o env p r (subst (FreeOutcome env p s) e (deallocate-FreeOutcome env p s))
Step-InOrder {s = s} (refuses x p e) o =
    let k = subst (Careful s) e (report-Careful x p s s (Kept-refl s)) in
    kept-InOrder o k.config k.stats k.tracker
Step-InOrder (writes m) o = record { same = o.same; tracker = o.tracker; stats = o.stats }

-- Whatever is called, and whatever the program writes to the byte memory, the configuration stays,
-- no pointer is live and freed at once, and the counters stay in balance.
pub Reach-InOrder :
    {config : Config} {s s' : State} → Reach s s' → InOrder config s → InOrder config s'
Reach-InOrder start o = o
Reach-InOrder (after path last) o = Step-InOrder last (Reach-InOrder path o)

pub initial-InOrder : (config : Config) (w : World) → InOrder config (initial config w)
unfolding is_tracked was_freed holds has_key
initial-InOrder config w = record {
  same = refl;
  tracker = record { live_once = tt; freed_once = tt; apart = λ p h. refl };
  stats = record {
    blocks = refl;
    bytes = refl;
    in_range = omega arith;
    bytes_in_range = omega arith;
  };
}

-- From a new allocator on, with tracking, a second `deallocate` of a pointer that is not null,
-- right after one that succeeded, is reported as a double free, whatever was called before and
-- whatever the program wrote to the byte memory.
pub reached-again :
    (config : Config) (w : World) (env env' : Env) (p : Ptr) (s s' : State)
    → config.enable_leak_tracking ≡ true
    → Reach (initial config w) s
    → p ≢ null
    → deallocate env p s ≡ done (ok tt) s'
    → deallocate env' p s' ≡ fail double_free p s'
reached-again config w env env' p s s' on path ne e =
    let o = Reach-InOrder path (initial-InOrder config w) in
    deallocate-again env env' p s s' (ap (λ (c : Config). c.enable_leak_tracking) o.same ∙ on)
      o.tracker ne e
