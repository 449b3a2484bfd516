-- ===== src/Debug/Guards.antt =====
-- Guard bytes: written, left alone by the user, and checked.
use m_alloc.Base.{
  ℕ, zero, suc, ◌+◌, ◌-◌, ◌≤◌, ◌<◌, ◌≡◌, ◌≢◌, refl, ◌↔◌, true, false, arith, Bool-cases, inl, inr,
  ◌⊎◌, ◌∙◌,
}
use native.Mathlib.Decide.{ℕ_discrete}
use m_alloc.Memory.{Ptr, Bytes}
use m_alloc.Memory.Laws.{SameOn, write_le-outside, fill-outside, fill-inside}
use m_alloc.Header.{Tier, header_of, write_header, read_header}
use m_alloc.Header.Fields.{written, read-write_header}
use m_alloc.Debug.{
  front_guard_size, guard_pattern, guarded_size, guarded_user, apply_guards, all_pattern,
  verify_guards,
}

-- The `n` bytes at `p` all carry the pattern.
abbrev pub Patterned : ℕ → Ptr → Bytes → Type 0
Patterned n p m = (q : Ptr) → p ≤ q → q < p + n → m q ≡ guard_pattern

all_pattern_sound : (n : ℕ) (p : Ptr) (m : Bytes) → all_pattern n p m ≡ true → Patterned n p m
unfolding all_pattern
all_pattern_sound zero p m h q lo hi = absurd (omega arith)
all_pattern_sound (suc n) p m h q lo hi = elim (ℕ_discrete p q) [
  | yes e ↦ ground arith
  | no ne ↦ all_pattern_sound n (p + 1) m (ground arith) q (omega arith) (omega arith)
]

all_pattern_complete : (n : ℕ) (p : Ptr) (m : Bytes) → Patterned n p m → all_pattern n p m ≡ true
unfolding all_pattern
all_pattern_complete zero p m h = refl
all_pattern_complete (suc n) p m h = ground (
  arith,
  h p (omega arith) (omega arith),
  all_pattern_complete n (p + 1) m (λ q lo hi. h q (omega arith) (omega arith)),
)

-- `verifyGuards` answers true exactly when the sixteen bytes before the shim header and the
-- thirty-two bytes behind the user's carry the pattern.
pub verify_guards_iff :
    (user requested : ℕ) (m : Bytes)
    → (verify_guards user requested m ≡ true)
      ↔ (Patterned 16 (user - 32) m × Patterned 32 (user + requested) m)
unfolding verify_guards
verify_guards_iff user requested m = (
  λ h. (
    all_pattern_sound 16 (user - 32) m (ground arith),
    all_pattern_sound 32 (user + requested) m (ground arith),
  ),
  λ h. ground (
    arith,
    all_pattern_complete 16 (user - 32) m h.0,
    all_pattern_complete 32 (user + requested) m h.1,
  ),
)

-- A header write changes its sixteen bytes alone.
pub write_header-outside :
    (h size : ℕ) (t : Tier) (off q : ℕ) (m : Bytes)
    → (q < h) ⊎ (h + 16 ≤ q)
    → write_header h size t off m q ≡ m q
unfolding write_header
write_header-outside h size t off q m out = grind (arith, write_le-outside)

module _ (raw requested : ℕ) (m : Bytes) where
  front-Patterned : Patterned 16 raw (apply_guards raw requested m)
  unfolding apply_guards
  front-Patterned q lo hi =
      write_header-outside (raw + 32 - 16) requested Tier.debug_shim 32 q _ (inl (omega arith))
      ∙ fill-outside (raw + 32 + requested) guard_pattern 32 q _ (inl (omega arith))
      ∙ fill-inside raw guard_pattern 16 q m lo hi

  rear-Patterned : Patterned 32 (raw + 32 + requested) (apply_guards raw requested m)
  unfolding apply_guards
  rear-Patterned q lo hi =
      write_header-outside (raw + 32 - 16) requested Tier.debug_shim 32 q _ (inr (omega arith))
      ∙ fill-inside (raw + 32 + requested) guard_pattern 32 q _ lo hi

  guards-outside :
      (q : Ptr)
      → (q < raw) ⊎ (raw + guarded_size requested ≤ q)
      → apply_guards raw requested m q ≡ m q
  unfolding apply_guards
  guards-outside q out =
      write_header-outside (raw + 32 - 16) requested Tier.debug_shim 32 q _ (grind arith)
      ∙ fill-outside (raw + 32 + requested) guard_pattern 32 q _ (grind arith)
      ∙ fill-outside raw guard_pattern 16 q m (grind arith)

  -- After `applyGuards` the guards verify, the shim header records the request and the way back,
  -- and all that was written lies in the guarded size.
  pub apply_guards_lem :
      (verify_guards (guarded_user raw) requested (apply_guards raw requested m) ≡ true)
      × (read_header (header_of (guarded_user raw)) (apply_guards raw requested m)
          ≡ written requested Tier.debug_shim front_guard_size)
      × ((q : Ptr)
          → (q < raw) ⊎ (raw + guarded_size requested ≤ q)
          → apply_guards raw requested m q ≡ m q)
  unfolding apply_guards
  apply_guards_lem = (
    (verify_guards_iff (guarded_user raw) requested (apply_guards raw requested m)).1
        (let e : raw + 32 - 32 ≡ raw = omega arith in rw e front-Patterned, rear-Patterned),
    read-write_header (header_of (guarded_user raw)) requested Tier.debug_shim front_guard_size _,
    guards-outside,
  )

all_pattern-same :
    (n p : ℕ) (m m' : Bytes) → SameOn p n m m' → all_pattern n p m' ≡ all_pattern n p m
unfolding all_pattern
all_pattern-same zero p m m' same = refl
all_pattern-same (suc n) p m m' same = ground (
  arith,
  same p (omega arith) (omega arith),
  all_pattern-same n (p + 1) m m' (λ q lo hi. same q (omega arith) (omega arith)),
)

verify_guards-same :
    (user requested : ℕ) (m m' : Bytes)
    → SameOn (user - 32) 16 m m'
    → SameOn (user + requested) 32 m m'
    → verify_guards user requested m' ≡ verify_guards user requested m
unfolding verify_guards
verify_guards-same user requested m m' front rear = ground (
  arith,
  all_pattern-same 16 (user - 32) m m' front,
  all_pattern-same 32 (user + requested) m m' rear,
)

-- Whatever the program writes to its own bytes, the guards still verify.
pub verify_guards-user :
    (user requested : ℕ) (m m' : Bytes)
    → 32 ≤ user
    → ((q : Ptr) → (q < user) ⊎ (user + requested ≤ q) → m' q ≡ m q)
    → verify_guards user requested m' ≡ verify_guards user requested m
verify_guards-user user requested m m' above same =
    verify_guards-same user requested m m' (λ q lo hi. same q (inl (omega arith)))
      (λ q lo hi. same q (inr lo))

-- A changed guard byte is detected, on either side.
pub verify_guards-detects :
    (user requested q : ℕ) (m : Bytes)
    → 32 ≤ user
    → ((user - 32 ≤ q) × (q < user - 16)) ⊎ ((user + requested ≤ q) × (q < user + requested + 32))
    → m q ≢ guard_pattern
    → verify_guards user requested m ≡ false
verify_guards-detects user requested q m above place bad =
    elim (Bool-cases (verify_guards user requested m)) [
      | inl good ↦
          let (front, rear) = (verify_guards_iff user requested m).0 good in
          elim place [
            | inl (lo, hi) ↦ absurd (bad (front q lo (omega arith)))
            | inr (lo, hi) ↦ absurd (bad (rear q lo hi))
          ]
      | inr caught ↦ caught
    ]

-- The sixteen bytes right before the user's are the shim header and no guard: no write there changes
-- the answer.
pub verify_guards-blind :
    (user requested : ℕ) (m m' : Bytes)
    → 32 ≤ user
    → ((q : Ptr) → (q < user - 16) ⊎ (user ≤ q) → m' q ≡ m q)
    → verify_guards user requested m' ≡ verify_guards user requested m
verify_guards-blind user requested m m' above same =
    verify_guards-same user requested m m' (λ q lo hi. same q (inl (omega arith)))
      (λ q lo hi. same q (inr (omega arith)))
