-- ===== src/Tests/Counts.antt =====
-- The statistics: a history, and two threads that raise the peak.
use m_alloc.Base.{◌≤◌, refl, List, [], ◌∷◌, arith, All}
use m_alloc.Statistics.{zero_counters}
use m_alloc.Statistics.Exact.{
  Event, allocated, freed, run, zero_totals, count_all, Agrees, run-Agrees,
}
use m_alloc.Statistics.Peak.{
  Phase, Steps, Allowed, Steps-Allowed, loading, finished, load, exchange, retry, here, there,
  none_yet, one_more,
}

abbrev history : List Event
history = allocated 100 112 ∷ allocated 50 64 ∷ freed 100 112 ∷ allocated 20 24 ∷ []

zero-Agrees : Agrees zero_totals zero_counters
zero-Agrees = record {
  allocation_count = refl;
  free_count = refl;
  active = refl;
  allocated_bytes = refl;
  freed_bytes = refl;
  requested = refl;
  reserved = refl;
  peak = refl;
  some_left = omega arith;
  bytes_left = omega arith;
  room_left = omega arith;
  allocs_fit = omega arith;
  asked_fit = omega arith;
  reserved_fit = omega arith;
}

run-Agrees_example : Agrees (count_all history zero_totals) (run history zero_counters)
run-Agrees_example = run-Agrees history zero_totals zero_counters (ground arith) zero-Agrees

-- The second thread raises the peak between the first one's load and its exchange, which fails.
abbrev before_race : List Phase
before_race = loading 30 ∷ loading 20 ∷ []

abbrev after_race : List Phase
after_race = finished 30 ∷ finished 20 ∷ []

race : Steps 10 before_race 30 after_race
race =
    one_more
      (one_more
        (one_more (one_more (one_more none_yet (here (load 10 30))) (there (here (load 10 20))))
          (there (here (exchange 10 20 10 (omega arith) refl))))
        (here (retry 20 30 10 (omega arith))))
      (here (exchange 20 30 20 (omega arith) refl))

Steps-Allowed_example : (10 ≤ 30) × All (Allowed 30) after_race
Steps-Allowed_example = Steps-Allowed race (tt, (tt, tt))
