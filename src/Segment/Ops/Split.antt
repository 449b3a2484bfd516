-- ===== src/Segment/Ops/Split.antt =====
-- `splitBlock`: the tags of the two parts.
use m_alloc.Base.{
  ℕ, ◌+◌, ◌%◌, ◌≤◌, ◌<◌, ◌≡◌, refl, arith, Bool, false, inl, inr, ◌∙◌, sym, ap, if_intro, subst,
}
use m_alloc.Memory.{Ptr, Bytes, load64, store64}
use m_alloc.Memory.Laws.{load64-store64, read_le-write_le, Apart}
use m_alloc.Header.{word}
use m_alloc.Segment.Tag.{
  tag_size, with_size, has_flag, with_flag, first_flag, last_flag, size_at, set_size, is_first,
  is_last, set_flag, set_prev_size, prev_size_at, next_block,
}
use m_alloc.Segment.Tag.Laws.{IsFlag, first, last, with_size_lem, with_flag_lem}
use m_alloc.Segment.Ops.{write_rest}

-- A write to another word does not change a word.
pub elsewhere : (q p v : ℕ) (m : Bytes) → Apart q 8 p 8 → load64 q (store64 p v m) ≡ load64 q m
elsewhere q p v m h = read_le-write_le 8 q 8 p v m h

pub set_size-away : (q b v : ℕ) (m : Bytes) → Apart q 8 b 8 → load64 q (set_size b v m) ≡ load64 q m
unfolding set_size
set_size-away q b v m h = elsewhere q b _ m h

pub set_flag-away :
    (q f : ℕ) (v : Bool) (b : ℕ) (m : Bytes)
    → Apart q 8 b 8
    → load64 q (set_flag f v b m) ≡ load64 q m
unfolding set_flag
set_flag-away q f v b m h = elsewhere q b _ m h

pub set_size-here :
    (b v : ℕ) (m : Bytes)
    → v % 16 ≡ 0
    → v < word
    → load64 b (set_size b v m) ≡ with_size (load64 b m) v
unfolding set_size
set_size-here b v m whole fits =
    load64-store64 b _ m ∙ omega (arith, with_size_lem (load64 b m) v whole fits)

pub set_flag-here :
    (f : ℕ) (v : Bool) (b : ℕ) (m : Bytes)
    → IsFlag f
    → load64 b m < word
    → load64 b (set_flag f v b m) ≡ with_flag f v (load64 b m)
unfolding set_flag
set_flag-here f v b m is byte =
    load64-store64 b _ m ∙ omega (arith, with_flag_lem f (load64 b m) v is byte)

-- What the two parts' tags say.
pub record Halves (b total remainder : ℕ) (m m' : Bytes) : Type 0 where
  pub size : size_at b m' ≡ total
  pub rest_size : size_at (b + total) m' ≡ remainder
  pub rest_prev : prev_size_at (b + total) m' ≡ total
  pub last : is_last b m' ≡ false
  pub rest_last : is_last (b + total) m' ≡ is_last b m
  pub first : is_first b m' ≡ is_first b m
  pub rest_first : is_first (b + total) m' ≡ false
  pub prev : prev_size_at b m' ≡ prev_size_at b m
  pub next_prev : is_last b m ≡ false → prev_size_at (b + total + remainder) m' ≡ remainder

module _ (b total remainder : ℕ) (m : Bytes) (t16 : total % 16 ≡ 0) (r16 : remainder % 16 ≡ 0)
    (t_big : 48 ≤ total) (r_big : 48 ≤ remainder) (fits : total + remainder < word)
    (byte : load64 b m < word) where
  rest : Ptr
  rest = b + total

  last_tag : Bool
  last_tag = has_flag last_flag (load64 b m)

  step_1 : Bytes
  step_1 = set_size rest remainder (store64 rest 0 m)

  step_2 : Bytes
  step_2 = set_prev_size rest total (set_flag last_flag (is_last b step_1) rest step_1)

  step_3 : Bytes
  step_3 = set_flag last_flag false b (set_size b total step_2)

  b_step_1 : load64 b step_1 ≡ load64 b m
  unfolding step_1 rest
  b_step_1 =
      set_size-away b rest remainder _ (inl (omega arith))
      ∙ elsewhere b rest 0 m (inl (omega arith))

  r_step_1 : load64 rest step_1 ≡ with_size 0 remainder
  unfolding step_1
  r_step_1 =
      set_size-here rest remainder _ r16 (omega arith)
      ∙ ap (λ t. with_size t remainder) (load64-store64 rest 0 m)

  b_step_2 : load64 b step_2 ≡ load64 b m
  unfolding step_2 rest
  b_step_2 =
      elsewhere b (rest + 8) total _ (inl (omega arith))
      ∙ set_flag-away b last_flag _ rest step_1 (inl (omega arith))
      ∙ b_step_1

  r_step_2 : load64 rest step_2 ≡ with_flag last_flag last_tag (with_size 0 remainder)
  unfolding step_2 last_tag is_last
  r_step_2 =
      elsewhere rest (rest + 8) total _ (inl (omega arith))
      ∙ set_flag-here last_flag _ rest step_1 last
          (rw r_step_1 (with_size_lem 0 remainder r16 (omega arith)).2)
      ∙ rw (r_step_1, b_step_1) refl

  b_sized : load64 b (set_size b total step_2) ≡ with_size (load64 b m) total
  b_sized = set_size-here b total step_2 t16 (omega arith) ∙ ap (λ t. with_size t total) b_step_2

  b_step_3 : load64 b step_3 ≡ with_flag last_flag false (with_size (load64 b m) total)
  unfolding step_3
  b_step_3 =
      set_flag-here last_flag false b (set_size b total step_2) last
        (rw b_sized (with_size_lem (load64 b m) total t16 (omega arith)).2)
      ∙ ap (with_flag last_flag false) b_sized

  away_3 : (q : Ptr) → Apart q 8 b 8 → load64 q step_3 ≡ load64 q step_2
  unfolding step_3
  away_3 q h = set_flag-away q last_flag false b _ h ∙ set_size-away q b total step_2 h

  r_size : tag_size (with_flag last_flag last_tag (with_size 0 remainder)) ≡ remainder
  r_size =
      let sized = with_size_lem 0 remainder r16 (omega arith) in
      (with_flag_lem last_flag (with_size 0 remainder) last_tag last sized.2).1 ∙ sized.0

  r_step_3 : load64 rest step_3 ≡ with_flag last_flag last_tag (with_size 0 remainder)
  unfolding rest
  r_step_3 = away_3 rest (inr (omega arith)) ∙ r_step_2

  next_at : next_block rest step_3 ≡ rest + remainder
  unfolding next_block size_at rest
  next_at = ap (λ t. rest + tag_size t) r_step_3 ∙ ap (λ (n : ℕ). rest + n) r_size

  is_last_3 : is_last rest step_3 ≡ last_tag
  unfolding is_last
  is_last_3 =
      ap (has_flag last_flag) r_step_3
      ∙ (with_flag_lem last_flag (with_size 0 remainder) last_tag last
          (with_size_lem 0 remainder r16 (omega arith)).2).0

  -- The words that the last write spares, and the one that it makes.
  spared :
      (q : Ptr)
      → Apart q 8 (rest + remainder + 8) 8
      → load64 q (write_rest b total remainder m) ≡ load64 q step_3
  unfolding write_rest rest step_1 step_2 step_3
  spared q h =
      if_intro (λ m'. load64 q m' ≡ load64 q step_3) (is_last rest step_3) (λ _. refl)
        (λ _.
          elsewhere q (next_block rest step_3 + 8) remainder step_3
            (subst (λ n. Apart q 8 (n + 8) 8) (sym next_at) h))

  written :
      last_tag ≡ false → load64 (rest + remainder + 8) (write_rest b total remainder m) ≡ remainder
  unfolding write_rest rest step_1 step_2 step_3
  written h =
      if_intro (λ m'. load64 (rest + remainder + 8) m' ≡ remainder) (is_last rest step_3)
        (λ end. absurd (ground (arith, is_last_3)))
        (λ _.
          subst (λ n. load64 (rest + remainder + 8) (store64 (n + 8) remainder step_3) ≡ remainder)
            (sym next_at) (load64-store64 (rest + remainder + 8) remainder step_3 ∙ omega arith))

  r_prev : load64 (rest + 8) step_2 ≡ total
  unfolding step_2
  r_prev = load64-store64 (rest + 8) total _ ∙ omega arith

  b_prev : load64 (b + 8) step_2 ≡ load64 (b + 8) m
  unfolding step_2 step_1 rest
  b_prev =
      elsewhere (b + 8) (rest + 8) total _ (inl (omega arith))
      ∙ set_flag-away (b + 8) last_flag _ rest step_1 (inl (omega arith))
      ∙ set_size-away (b + 8) rest remainder _ (inl (omega arith))
      ∙ elsewhere (b + 8) rest 0 m (inl (omega arith))

  b_final :
      load64 b (write_rest b total remainder m)
      ≡ with_flag last_flag false (with_size (load64 b m) total)
  unfolding rest
  b_final = spared b (inl (omega arith)) ∙ b_step_3

  r_final :
      load64 rest (write_rest b total remainder m)
      ≡ with_flag last_flag last_tag (with_size 0 remainder)
  r_final = spared rest (inl (omega arith)) ∙ r_step_3

  -- `splitBlock` makes two blocks of the wanted size and of the rest, that know of each other; the
  -- second is last if the whole was, and else the block behind it is told its size.
  pub write_rest-Halves : Halves b total remainder m (write_rest b total remainder m)
  unfolding size_at is_last is_first rest last_tag
  write_rest-Halves =
      let b_sized = with_size_lem (load64 b m) total t16 (omega arith) in
      let b_flagged = with_flag_lem last_flag (with_size (load64 b m) total) false last b_sized.2 in
      let r_sized = with_size_lem 0 remainder r16 (omega arith) in
      let r_flagged = with_flag_lem last_flag (with_size 0 remainder) last_tag last r_sized.2 in
      record {
        size = ap tag_size b_final ∙ b_flagged.1 ∙ b_sized.0;
        rest_size = ap tag_size r_final ∙ r_size;
        rest_prev =
            spared (rest + 8) (inl (omega arith)) ∙ away_3 (rest + 8) (inr (omega arith)) ∙ r_prev;
        last = ap (has_flag last_flag) b_final ∙ b_flagged.0;
        rest_last = ap (has_flag last_flag) r_final ∙ r_flagged.0;
        first =
            ap (has_flag first_flag) b_final
            ∙ b_flagged.2 first_flag first (omega arith)
            ∙ b_sized.1 first_flag first;
        rest_first =
            ap (has_flag first_flag) r_final
            ∙ r_flagged.2 first_flag first (omega arith)
            ∙ r_sized.1 first_flag first
            ∙ refl;
        prev = spared (b + 8) (inl (omega arith)) ∙ away_3 (b + 8) (inr (omega arith)) ∙ b_prev;
        next_prev = written;
      }
