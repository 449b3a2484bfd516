-- ===== src/Debug/Registry.antt =====
-- The registry of live and freed pointers.
use m_alloc.Base.{
  ℕ, suc, ◌+◌, ◌≡◌, refl, true, false, ◌==◌, if◌then◌else◌, List, [], ◌∷◌, arith, length,
  Bool-cases, inl, inr,
}
use m_alloc.Memory.{Ptr}
use m_alloc.Debug.{
  Tracker, has_key, insert_or_assign, erase_key, holds, drop_ptr, add_ptr, is_tracked, was_freed,
  track, untrack, live_count,
}

-- Each pointer has one entry.
abbrev pub Once : List (Ptr × ℕ) → Type 0
Once [] = Unit {0}
Once ((p, n) ∷ es) = (has_key p es ≡ false) × Once es

abbrev pub OncePtr : List Ptr → Type 0
OncePtr [] = Unit {0}
OncePtr (p ∷ ps) = (holds p ps ≡ false) × OncePtr ps

-- The registry's invariant: entries are unique, and no pointer is live and freed at once.
pub record IsTracker (t : Tracker) : Type 0 where
  pub live_once : Once t.live
  pub freed_once : OncePtr t.freed
  pub apart : (p : Ptr) → is_tracked p t ≡ true → was_freed p t ≡ false

has_key-insert :
    (p q n : ℕ) (es : List (Ptr × ℕ))
    → has_key q (insert_or_assign p n es) ≡ (if p == q then true else has_key q es)
unfolding has_key insert_or_assign
has_key-insert p q n [] = refl
has_key-insert p q n ((k, v) ∷ es) = ground (arith, has_key-insert p q n es)

has_key-erase :
    (p q : ℕ) (es : List (Ptr × ℕ))
    → Once es
    → has_key q (erase_key p es) ≡ (if p == q then false else has_key q es)
unfolding has_key erase_key
has_key-erase p q [] once = ground arith
has_key-erase p q ((k, v) ∷ es) once = ground (arith, has_key-erase p q es once.1)

holds-drop :
    (p q : ℕ) (ps : List Ptr)
    → OncePtr ps
    → holds q (drop_ptr p ps) ≡ (if p == q then false else holds q ps)
unfolding holds drop_ptr
holds-drop p q [] once = ground arith
holds-drop p q (k ∷ ps) once = ground (arith, holds-drop p q ps once.1)

holds-add :
    (p q : ℕ) (ps : List Ptr) → holds q (add_ptr p ps) ≡ (if p == q then true else holds q ps)
unfolding holds add_ptr
holds-add p q ps = ground arith

insert-Once : (p n : ℕ) (es : List (Ptr × ℕ)) → Once es → Once (insert_or_assign p n es)
unfolding has_key insert_or_assign
insert-Once p n [] once = (refl, tt)
insert-Once p n ((k, v) ∷ es) once =
    ground (arith, has_key-insert p k n es, insert-Once p n es once.1)

erase-Once : (p : ℕ) (es : List (Ptr × ℕ)) → Once es → Once (erase_key p es)
unfolding has_key erase_key
erase-Once p [] once = tt
erase-Once p ((k, v) ∷ es) once =
    ground (arith, has_key-erase p k es once.1, erase-Once p es once.1)

drop-OncePtr : (p : ℕ) (ps : List Ptr) → OncePtr ps → OncePtr (drop_ptr p ps)
unfolding holds drop_ptr
drop-OncePtr p [] once = tt
drop-OncePtr p (k ∷ ps) once = ground (arith, holds-drop p k ps once.1, drop-OncePtr p ps once.1)

add-OncePtr : (p : ℕ) (ps : List Ptr) → OncePtr ps → OncePtr (add_ptr p ps)
unfolding add_ptr
add-OncePtr p ps once = ground arith

length-insert :
    (p n : ℕ) (es : List (Ptr × ℕ))
    → length (insert_or_assign p n es) ≡ (if has_key p es then length es else suc (length es))
unfolding has_key insert_or_assign
length-insert p n [] = refl
length-insert p n ((k, v) ∷ es) = ground (arith, length-insert p n es)

length-erase :
    (p : ℕ) (es : List (Ptr × ℕ)) → has_key p es ≡ true → length (erase_key p es) + 1 ≡ length es
unfolding has_key erase_key
length-erase p [] h = cc
length-erase p ((k, v) ∷ es) h = ground (arith, length-erase p es)

module _ (p : Ptr) (t : Tracker) (is : IsTracker t) where
  -- `track` makes the pointer live and no longer freed, touches no other, counts it once, and keeps
  -- the registry's invariant.
  pub track_lem :
      (n : ℕ)
      → IsTracker (track p n t)
        × ((q : Ptr) → is_tracked q (track p n t) ≡ (if p == q then true else is_tracked q t))
        × ((q : Ptr) → was_freed q (track p n t) ≡ (if p == q then false else was_freed q t))
        × (live_count (track p n t) ≡ (if is_tracked p t then live_count t else suc (live_count t)))
  unfolding track is_tracked was_freed live_count
  track_lem n = (
    record {
      live_once = insert-Once p n t.live is.live_once;
      freed_once = drop-OncePtr p t.freed is.freed_once;
      apart = λ q. apart_now q (is.apart q);
    },
    (λ q. has_key-insert p q n t.live),
    (λ q. holds-drop p q t.freed is.freed_once),
    length-insert p n t.live,
  )
    where
      apart_now :
          (q : Ptr)
          → (has_key q t.live ≡ true → holds q t.freed ≡ false)
          → has_key q (insert_or_assign p n t.live) ≡ true
          → holds q (drop_ptr p t.freed) ≡ false
      apart_now q old h =
          ground (arith, has_key-insert p q n t.live, holds-drop p q t.freed is.freed_once)

  -- `untrack` of a live pointer answers true and moves it to the freed ones; of any other pointer it
  -- answers false and changes nothing.
  pub untrack_lem :
      ((untrack p t).0 ≡ is_tracked p t)
      × IsTracker (untrack p t).1
      × (is_tracked p t ≡ false → (untrack p t).1 ≡ t)
      × (is_tracked p t ≡ true
          → (q : Ptr)
          → (is_tracked q (untrack p t).1 ≡ (if p == q then false else is_tracked q t))
            × (was_freed q (untrack p t).1 ≡ (if p == q then true else was_freed q t)))
      × (is_tracked p t ≡ true → live_count (untrack p t).1 + 1 ≡ live_count t)
  unfolding untrack is_tracked was_freed live_count
  untrack_lem = elim (Bool-cases (has_key p t.live)) [
    | inl live ↦ rw live (
      refl,
      moved,
      (λ e. cc),
      (λ e q. (has_key-erase p q t.live is.live_once, holds-add p q t.freed)),
      (λ e. length-erase p t.live live),
    )
    | inr dead ↦ rw dead (refl, is, (λ e. refl), (λ e. cc), (λ e. cc))
  ]
    where
      apart_now :
          (q : Ptr)
          → (has_key q t.live ≡ true → holds q t.freed ≡ false)
          → has_key q (erase_key p t.live) ≡ true
          → holds q (add_ptr p t.freed) ≡ false
      apart_now q old h =
          ground (arith, has_key-erase p q t.live is.live_once, holds-add p q t.freed)

      moved : IsTracker (record { live = erase_key p t.live; freed = add_ptr p t.freed })
      moved = record {
        live_once = erase-Once p t.live is.live_once;
        freed_once = add-OncePtr p t.freed is.freed_once;
        apart = λ q. apart_now q (is.apart q);
      }
