-- ===== src/ThreadCache/Slots.antt =====
-- How many blocks a class of the cache holds, and which one it hands out next.
use m_alloc.Base.{
  ℕ, zero, suc, ◌+◌, ◌-◌, ◌≤◌, ◌<◌, ◌≡◌, refl, arith, ◌==◌, if_intro, List, [], ◌∷◌, Option, none,
  some, length, get_or, get_or-set_self, set, drop,
}
use mathlib.Core.List.{reverse_aux}
use m_alloc.Memory.{Ptr}
use m_alloc.SystemMemory.{World, Os}
use m_alloc.Pool.{
  Pools, Shard, allocate_batch, take_batch, batch_after, take_block, block_stride, empty_shard,
}
use m_alloc.ThreadCache.{
  ThreadCache, ClassCache, capacity, batch_size, pop_slot, refill_slots, cache_allocate,
  flush_slots, cache_free,
}

length-drop {ℓ} : {A : Type ℓ} (n : ℕ) (xs : List A) → length (drop n xs) ≡ length xs - n
length-drop zero xs = omega arith
length-drop (suc n) [] = omega arith
length-drop (suc n) (x ∷ xs) = omega (arith, length-drop n xs)

length-reverse_aux {ℓ} :
    {A : Type ℓ} (xs ys : List A) → length (reverse_aux xs ys) ≡ length xs + length ys
length-reverse_aux [] ys = omega arith
length-reverse_aux (x ∷ xs) ys = omega (arith, length-reverse_aux xs (x ∷ ys))

-- No class holds more than its slots.
abbrev pub Bounded : ThreadCache → Type 0
Bounded cache = (j : ℕ) → length (get_or cache j []) ≤ capacity

pub set-Bounded :
    (cache : ThreadCache) (i : ℕ) (slots : ClassCache)
    → Bounded cache
    → length slots ≤ capacity
    → Bounded (set cache i slots)
set-Bounded [] i slots b h j = b j
set-Bounded (y ∷ cache) zero slots b h zero = h
set-Bounded (y ∷ cache) zero slots b h (suc j) = b (suc j)
set-Bounded (y ∷ cache) (suc i) slots b h zero = b 0
set-Bounded (y ∷ cache) (suc i) slots b h (suc j) = set-Bounded cache i slots (λ k. b (suc k)) h j

flush_slots-room :
    (i : ℕ) (slots : ClassCache) (pools : Pools) (w : World)
    → length slots ≤ capacity
    → length (flush_slots i slots pools w).0 < capacity
unfolding flush_slots
flush_slots-room i slots pools w h =
    if_intro (λ (r : ClassCache × Pools × World). length r.0 < capacity) (length slots == capacity)
      (λ full. omega (arith, length-drop batch_size slots)) (λ room. ground arith)

-- `free` makes room first, so that a class never holds more than its 64 slots.
pub cache_free-Bounded :
    (i : ℕ) (block : Ptr) (cache : ThreadCache) (pools : Pools) (w : World)
    → Bounded cache
    → Bounded (cache_free i block cache pools w).0
unfolding cache_free
cache_free-Bounded i block cache pools w b =
    set-Bounded cache i (block ∷ (flush_slots i (get_or cache i []) pools w).0) b
      (flush_slots-room i (get_or cache i []) pools w (b i))

batch_after-length :
    (room : ℕ) (loop : Shard → World → List Ptr × Shard × World) (r : Option Ptr × Shard × World)
    → ((s : Shard) (w : World) → length (loop s w).0 ≤ room)
    → length (batch_after loop r).0 ≤ suc room
unfolding batch_after
batch_after-length room loop (none, s, w) h = omega arith
batch_after-length room loop (some b, s, w) h = omega (arith, h s w)

take_batch-length :
    (os : Os) (room stride : ℕ) (s : Shard) (w : World)
    → length (take_batch os room stride s w).0 ≤ room
unfolding take_batch
take_batch-length os zero stride s w = omega arith
take_batch-length os (suc room) stride s w =
    batch_after-length room (take_batch os room stride) (take_block os stride s w)
      (take_batch-length os room stride)

refill_slots-room :
    (os : Os) (i : ℕ) (slots : ClassCache) (pools : Pools) (w : World)
    → length slots ≤ capacity
    → length (refill_slots os i slots pools w).0 ≤ capacity
unfolding refill_slots allocate_batch
refill_slots-room os i [] pools w h = omega (
  arith,
  length-reverse_aux (allocate_batch os i batch_size pools w).0 [],
  take_batch-length os batch_size (block_stride i) (get_or pools i empty_shard) w,
)
refill_slots-room os i (b ∷ slots) pools w h = h

pop_slot-room : (slots : ClassCache) → length (pop_slot slots).1 ≤ length slots
unfolding pop_slot
pop_slot-room [] = omega arith
pop_slot-room (b ∷ slots) = omega arith

-- `allocate` keeps every class within its 64 slots, also when it asks the pools for a batch.
pub cache_allocate-Bounded :
    (os : Os) (i : ℕ) (cache : ThreadCache) (pools : Pools) (w : World)
    → Bounded cache
    → Bounded (cache_allocate os i cache pools w).1
unfolding cache_allocate
cache_allocate-Bounded os i cache pools w b =
    let slots = (refill_slots os i (get_or cache i []) pools w).0 in
    set-Bounded cache i (pop_slot slots).1 b
      (omega (arith, pop_slot-room slots, refill_slots-room os i (get_or cache i []) pools w (b i)))

-- What was freed last is allocated next, and the pools are not asked.
pub cache_allocate-cache_free :
    (os : Os) (i : ℕ) (block : Ptr) (cache : ThreadCache) (pools : Pools) (w : World)
    → i < length cache
    → let freed = cache_free i block cache pools w in
      let taken = cache_allocate os i freed.0 freed.1 freed.2 in
      (taken.0 ≡ some block) × (taken.2 ≡ freed.1) × (taken.3 ≡ freed.2)
unfolding cache_allocate cache_free refill_slots pop_slot
cache_allocate-cache_free os i block cache pools w h =
    rw (get_or-set_self cache i (block ∷ (flush_slots i (get_or cache i []) pools w).0) [] h)
      (refl, refl, refl)
