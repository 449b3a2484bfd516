-- ===== src/Debug.antt =====
-- src/DebugLayer.hpp: guard bytes round a block, poison, and the registry of live and freed pointers.
pub mod Guards
pub mod Registry
use m_alloc.Base.{
  ℕ, zero, suc, ◌+◌, ◌-◌, ◌%◌, Bool, true, false, ◌&&◌, ◌==◌, if◌then◌else◌, List, [], ◌∷◌, length,
}
use m_alloc.Memory.{Ptr, Bytes, fill}
use m_alloc.Header.{header_size, header_of, Tier, write_header}

abbrev pub front_guard_size : ℕ
front_guard_size = 32

abbrev pub rear_guard_size : ℕ
rear_guard_size = 32

abbrev pub guard_pattern : ℕ
guard_pattern = 0xFB

abbrev pub alloc_poison : ℕ
alloc_poison = 0xCD

abbrev pub free_poison : ℕ
free_poison = 0xDD

abbrev pub guarded_size : ℕ → ℕ
guarded_size requested = requested + front_guard_size + rear_guard_size

abbrev pub guarded_user : Ptr → Ptr
guarded_user raw = raw + front_guard_size

-- The user pointer is `guarded_user raw`.
unfoldable pub apply_guards : Ptr → ℕ → Bytes → Bytes
apply_guards raw requested m =
    let user = guarded_user raw in
    let m1 = fill raw guard_pattern (front_guard_size - header_size) m in
    let m2 = fill (user + requested) guard_pattern rear_guard_size m1 in
    write_header (header_of user) requested Tier.debug_shim front_guard_size m2

-- for (i = 0; i < n; ++i) if (p[i] != pattern) return false; return true;
unfoldable pub all_pattern : ℕ → Ptr → Bytes → Bool
all_pattern zero p m = true
all_pattern (suc n) p m =
    let rest = all_pattern n (p + 1) m in if m p == guard_pattern then rest else false

unfoldable pub verify_guards : Ptr → ℕ → Bytes → Bool
unfolding all_pattern
verify_guards user requested m =
    if all_pattern (front_guard_size - header_size) (user - front_guard_size) m
    then all_pattern rear_guard_size (user + requested) m
    else false

abbrev pub poison_on_allocate : Ptr → ℕ → Bytes → Bytes
poison_on_allocate p size m = fill p alloc_poison size m

abbrev pub poison_on_free : Ptr → ℕ → Bytes → Bytes
poison_on_free p size m = fill p free_poison size m

-- `live_` has each pointer once, and so has `freed_`.
pub record Tracker : Type 0 where
  pub live : List (Ptr × ℕ)
  pub freed : List Ptr

abbrev pub empty_tracker : Tracker
empty_tracker = record { live = []; freed = [] }

unfoldable pub has_key : Ptr → List (Ptr × ℕ) → Bool
has_key p [] = false
has_key p ((q, n) ∷ es) = if q == p then true else has_key p es

unfoldable pub insert_or_assign : Ptr → ℕ → List (Ptr × ℕ) → List (Ptr × ℕ)
insert_or_assign p n [] = (p, n) ∷ []
insert_or_assign p n ((q, k) ∷ es) =
    if q == p then (p, n) ∷ es else (q, k) ∷ insert_or_assign p n es

unfoldable pub erase_key : Ptr → List (Ptr × ℕ) → List (Ptr × ℕ)
erase_key p [] = []
erase_key p ((q, k) ∷ es) = if q == p then es else (q, k) ∷ erase_key p es

unfoldable pub holds : Ptr → List Ptr → Bool
holds p [] = false
holds p (q ∷ qs) = if q == p then true else holds p qs

unfoldable pub drop_ptr : Ptr → List Ptr → List Ptr
drop_ptr p [] = []
drop_ptr p (q ∷ qs) = if q == p then qs else q ∷ drop_ptr p qs

unfoldable pub add_ptr : Ptr → List Ptr → List Ptr
unfolding holds
add_ptr p qs = if holds p qs then qs else p ∷ qs

unfoldable pub is_tracked : Ptr → Tracker → Bool
unfolding has_key
is_tracked p t = has_key p t.live

unfoldable pub was_freed : Ptr → Tracker → Bool
unfolding holds
was_freed p t = holds p t.freed

-- The tracker's own containers are taken not to run out of memory.
unfoldable pub track : Ptr → ℕ → Tracker → Tracker
unfolding insert_or_assign drop_ptr
track p size t = record { live = insert_or_assign p size t.live; freed = drop_ptr p t.freed }

unfoldable pub untrack : Ptr → Tracker → Bool × Tracker
unfolding has_key erase_key add_ptr
untrack p t =
    if has_key p t.live
    then (true, record { live = erase_key p t.live; freed = add_ptr p t.freed })
    else (false, t)

unfoldable pub live_count : Tracker → ℕ
live_count t = length t.live
