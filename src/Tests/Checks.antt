-- ===== src/Tests/Checks.antt =====
-- The debug layer and the headers.
use m_alloc.Base.{
  suc, ◌+◌, ◌-◌, ◌≤◌, ◌<◌, ◌≡◌, refl, ◌↔◌, ◌⊎◌, true, false, ◌==◌, if◌then◌else◌, arith, [], ◌∷◌,
}
use m_alloc.Memory.{Ptr, Bytes}
use m_alloc.Header.{Tier, header_of, read_header}
use m_alloc.Header.Fields.{written}
use m_alloc.Debug.{
  front_guard_size, guarded_size, guarded_user, apply_guards, verify_guards, Tracker, track,
  untrack, is_tracked, was_freed, live_count, has_key, holds,
}
use m_alloc.Debug.Guards.{Patterned, verify_guards_iff, apply_guards_lem, verify_guards-blind}
use m_alloc.Debug.Registry.{IsTracker, track_lem, untrack_lem}

abbrev blank : Bytes
blank _ = 0

apply_guards_lem_example :
    (verify_guards (guarded_user 4096) 100 (apply_guards 4096 100 blank) ≡ true)
    × (read_header (header_of (guarded_user 4096)) (apply_guards 4096 100 blank)
        ≡ written 100 Tier.debug_shim front_guard_size)
    × ((q : Ptr)
        → (q < 4096) ⊎ (4096 + guarded_size 100 ≤ q)
        → apply_guards 4096 100 blank q ≡ blank q)
apply_guards_lem_example = apply_guards_lem 4096 100 blank

verify_guards_iff_example :
    (verify_guards 4128 100 blank ≡ true)
    ↔ (Patterned 16 (4128 - 32) blank × Patterned 32 (4128 + 100) blank)
verify_guards_iff_example = verify_guards_iff 4128 100 blank

-- One byte of the program's own, and one of the shim header.
abbrev own_byte : Bytes
own_byte q = if q == 4130 then 7 else 0

abbrev shim_byte : Bytes
shim_byte q = if q == 4120 then 7 else 0

verify_guards-blind_example : verify_guards 4128 100 shim_byte ≡ verify_guards 4128 100 blank
verify_guards-blind_example =
    verify_guards-blind 4128 100 blank shim_byte (omega arith) (λ q out. ground arith)

abbrev one_live : Tracker
one_live = record { live = (4112, 100) ∷ []; freed = 4208 ∷ [] }

one_live-IsTracker : IsTracker one_live
unfolding is_tracked was_freed has_key holds
one_live-IsTracker = record {
  live_once = (refl, tt);
  freed_once = (refl, tt);
  apart = λ p h. ground arith;
}

track_lem_example :
    IsTracker (track 4208 50 one_live)
    × ((q : Ptr)
        → is_tracked q (track 4208 50 one_live)
          ≡ (if 4208 == q then true else is_tracked q one_live))
    × ((q : Ptr)
        → was_freed q (track 4208 50 one_live)
          ≡ (if 4208 == q then false else was_freed q one_live))
    × (live_count (track 4208 50 one_live)
        ≡ (if is_tracked 4208 one_live then live_count one_live else suc (live_count one_live)))
track_lem_example = track_lem 4208 one_live one_live-IsTracker 50

untrack_lem_example :
    ((untrack 4112 one_live).0 ≡ is_tracked 4112 one_live)
    × IsTracker (untrack 4112 one_live).1
    × (is_tracked 4112 one_live ≡ false → (untrack 4112 one_live).1 ≡ one_live)
    × (is_tracked 4112 one_live ≡ true
        → (q : Ptr)
        → (is_tracked q (untrack 4112 one_live).1
            ≡ (if 4112 == q then false else is_tracked q one_live))
          × (was_freed q (untrack 4112 one_live).1
              ≡ (if 4112 == q then true else was_freed q one_live)))
    × (is_tracked 4112 one_live ≡ true
        → live_count (untrack 4112 one_live).1 + 1 ≡ live_count one_live)
untrack_lem_example = untrack_lem 4112 one_live one_live-IsTracker
