-- ===== src/Statistics/Exact.antt =====
-- The counters over a history of allocations and frees.
use m_alloc.Base.{ℕ, ◌+◌, ◌-◌, ◌%◌, ◌≤◌, ◌<◌, ◌≡◌, List, [], ◌∷◌, arith, max}
use m_alloc.Header.{word}
use m_alloc.Statistics.{Counters, record_allocation, record_free}

-- What the allocator reports: sizes requested and reserved.
pub data Event : Type 0 where
  allocated freed : ℕ → ℕ → Event

unfoldable pub recorded : Event → Counters → Counters
recorded (allocated requested reserved) c = record_allocation requested reserved c
recorded (freed requested reserved) c = record_free requested reserved c

pub run : List Event → Counters → Counters
unfolding recorded
run [] c = c
run (e ∷ es) c = run es (recorded e c)

-- What holds of the counters whatever was reported, though they wrap.
pub record Balanced (c : Counters) : Type 0 where
  pub blocks : (c.active_allocations + c.free_count) % word ≡ c.allocation_count
  pub bytes : (c.live_requested + c.freed_bytes) % word ≡ c.allocated_bytes
  pub in_range : c.allocation_count < word
  pub bytes_in_range : c.allocated_bytes < word

pub recorded-Balanced : (e : Event) (c : Counters) → Balanced c → Balanced (recorded e c)
unfolding recorded record_allocation record_free
recorded-Balanced (allocated requested reserved) c b = ground arith
recorded-Balanced (freed requested reserved) c b = ground arith

-- Over any history the counts and the byte sums stay in balance modulo 2 ^ 64.
pub run-Balanced : (es : List Event) (c : Counters) → Balanced c → Balanced (run es c)
unfolding run
run-Balanced [] c b = b
run-Balanced (e ∷ es) c b = run-Balanced es (recorded e c) (recorded-Balanced e c b)

-- The same history in numbers that do not wrap, with the highest live sum so far.
pub record Totals : Type 0 where
  pub allocs : ℕ
  pub frees : ℕ
  pub asked : ℕ
  pub given_back : ℕ
  pub reserved : ℕ
  pub unreserved : ℕ
  pub highest : ℕ

abbrev pub live : Totals → ℕ
live t = t.asked - t.given_back

abbrev pub zero_totals : Totals
zero_totals = record {
  allocs = 0;
  frees = 0;
  asked = 0;
  given_back = 0;
  reserved = 0;
  unreserved = 0;
  highest = 0;
}

abbrev pub counted : Event → Totals → Totals
counted (allocated r s) t = record t {
  allocs = t.allocs + 1;
  asked = t.asked + r;
  reserved = t.reserved + s;
  highest = max t.highest (t.asked + r - t.given_back);
}
counted (freed r s) t = record t {
  frees = t.frees + 1;
  given_back = t.given_back + r;
  unreserved = t.unreserved + s;
}

abbrev pub count_all : List Event → Totals → Totals
count_all [] t = t
count_all (e ∷ es) t = count_all es (counted e t)

-- No more is freed than was allocated, and the sums stay below 2 ^ 64.
abbrev pub IsLegal : Event → Totals → Type 0
IsLegal (allocated r s) t = (t.allocs + 1 < word) × (t.asked + r < word) × (t.reserved + s < word)
IsLegal (freed r s) t =
    (t.frees + 1 ≤ t.allocs) × (t.given_back + r ≤ t.asked) × (t.unreserved + s ≤ t.reserved)

abbrev pub AllLegal : List Event → Totals → Type 0
AllLegal [] t = Unit {0}
AllLegal (e ∷ es) t = IsLegal e t × AllLegal es (counted e t)

pub record Agrees (t : Totals) (c : Counters) : Type 0 where
  pub allocation_count : c.allocation_count ≡ t.allocs
  pub free_count : c.free_count ≡ t.frees
  pub active : c.active_allocations ≡ t.allocs - t.frees
  pub allocated_bytes : c.allocated_bytes ≡ t.asked
  pub freed_bytes : c.freed_bytes ≡ t.given_back
  pub requested : c.live_requested ≡ live t
  pub reserved : c.live_reserved ≡ t.reserved - t.unreserved
  pub peak : c.peak_usage ≡ t.highest
  pub some_left : t.frees ≤ t.allocs
  pub bytes_left : t.given_back ≤ t.asked
  pub room_left : t.unreserved ≤ t.reserved
  pub allocs_fit : t.allocs < word
  pub asked_fit : t.asked < word
  pub reserved_fit : t.reserved < word

recorded-Agrees :
    (e : Event) (t : Totals) (c : Counters)
    → IsLegal e t
    → Agrees t c
    → Agrees (counted e t) (recorded e c)
unfolding recorded record_allocation record_free
recorded-Agrees (allocated r s) t c legal a = ground arith
recorded-Agrees (freed r s) t c legal a = ground arith

-- Over a history that frees no more than it allocated and whose sums fit 64 bits, every counter is
-- the exact count or sum, and the peak is the highest live sum that was reached.
pub run-Agrees :
    (es : List Event) (t : Totals) (c : Counters)
    → AllLegal es t
    → Agrees t c
    → Agrees (count_all es t) (run es c)
unfolding run
run-Agrees [] t c legal a = a
run-Agrees (e ∷ es) t c legal a =
    run-Agrees es (counted e t) (recorded e c) legal.1 (recorded-Agrees e t c legal.0 a)
