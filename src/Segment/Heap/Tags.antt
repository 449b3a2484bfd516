-- ===== src/Segment/Heap/Tags.antt =====
-- What the setters of a tag do to the cell of a block, and to no other.
use m_alloc.Base.{ℕ, ◌+◌, ◌%◌, ◌<◌, ◌≡◌, ◌≢◌, arith, Bool, sym, ap, ◌∙◌, inl, inr, subst, some}
use m_alloc.Memory.{Ptr, Bytes, load64}
use m_alloc.Memory.Laws.{Apart, SameOn, SameOn-part, read_le-same, load64-store64}
use m_alloc.Header.{word}
use m_alloc.Segment.Tag.{
  tag_size, has_flag, free_flag, first_flag, last_flag, size_at, is_free, is_first, is_last,
  set_flag, set_size, set_prev_size,
}
use m_alloc.Segment.Tag.Laws.{free, first, last, with_size_lem, with_flag_lem}
use m_alloc.Segment.Ops.Split.{
  elsewhere, set_size-here, set_flag-here, set_size-away, set_flag-away,
}
use m_alloc.Segment.Heap.{Cell, View, Tagged, Laid}

-- Memory that is the same on a block's header holds the same tag.
pub Tagged-same :
    (m m' : Bytes) (b : Ptr) (c : Cell) → SameOn b 16 m m' → Tagged m b c → Tagged m' b c
unfolding size_at is_free is_first is_last
Tagged-same m m' b c same t =
    let tag = read_le-same 8 b m m' (SameOn-part b 16 b 8 m m' (omega arith) (omega arith) same) in
    let prev : load64 (b + 8) m' ≡ load64 (b + 8) m =
      read_le-same 8 (b + 8) m m'
        (SameOn-part b 16 (b + 8) 8 m m' (omega arith) (omega arith) same) in
    record {
      size = ap tag_size tag ∙ t.size;
      free = ap (has_flag free_flag) tag ∙ t.free;
      first = ap (has_flag first_flag) tag ∙ t.first;
      last = ap (has_flag last_flag) tag ∙ t.last;
      prev = prev ∙ t.prev;
      fits = subst (λ n. n < word) (sym tag) t.fits;
    }

pub set_free-Tagged :
    (v : Bool) (m : Bytes) (b : Ptr) (c : Cell)
    → Tagged m b c
    → Tagged (set_flag free_flag v b m) b (record c { free = v })
unfolding size_at is_free is_first is_last
set_free-Tagged v m b c t =
    let tag = set_flag-here free_flag v b m free t.fits in
    let law = with_flag_lem free_flag (load64 b m) v free t.fits in
    record {
      size = ap tag_size tag ∙ law.1 ∙ t.size;
      free = ap (has_flag free_flag) tag ∙ law.0;
      first = ap (has_flag first_flag) tag ∙ law.2 first_flag first (omega arith) ∙ t.first;
      last = ap (has_flag last_flag) tag ∙ law.2 last_flag last (omega arith) ∙ t.last;
      prev = set_flag-away (b + 8) free_flag v b m (inr (omega arith)) ∙ t.prev;
      fits = subst (λ n. n < word) (sym tag) law.3;
    }

pub set_first-Tagged :
    (v : Bool) (m : Bytes) (b : Ptr) (c : Cell)
    → Tagged m b c
    → Tagged (set_flag first_flag v b m) b (record c { first = v })
unfolding size_at is_free is_first is_last
set_first-Tagged v m b c t =
    let tag = set_flag-here first_flag v b m first t.fits in
    let law = with_flag_lem first_flag (load64 b m) v first t.fits in
    record {
      size = ap tag_size tag ∙ law.1 ∙ t.size;
      free = ap (has_flag free_flag) tag ∙ law.2 free_flag free (omega arith) ∙ t.free;
      first = ap (has_flag first_flag) tag ∙ law.0;
      last = ap (has_flag last_flag) tag ∙ law.2 last_flag last (omega arith) ∙ t.last;
      prev = set_flag-away (b + 8) first_flag v b m (inr (omega arith)) ∙ t.prev;
      fits = subst (λ n. n < word) (sym tag) law.3;
    }

pub set_last-Tagged :
    (v : Bool) (m : Bytes) (b : Ptr) (c : Cell)
    → Tagged m b c
    → Tagged (set_flag last_flag v b m) b (record c { last = v })
unfolding size_at is_free is_first is_last
set_last-Tagged v m b c t =
    let tag = set_flag-here last_flag v b m last t.fits in
    let law = with_flag_lem last_flag (load64 b m) v last t.fits in
    record {
      size = ap tag_size tag ∙ law.1 ∙ t.size;
      free = ap (has_flag free_flag) tag ∙ law.2 free_flag free (omega arith) ∙ t.free;
      first = ap (has_flag first_flag) tag ∙ law.2 first_flag first (omega arith) ∙ t.first;
      last = ap (has_flag last_flag) tag ∙ law.0;
      prev = set_flag-away (b + 8) last_flag v b m (inr (omega arith)) ∙ t.prev;
      fits = subst (λ n. n < word) (sym tag) law.3;
    }

pub set_size-Tagged :
    (s : ℕ) (m : Bytes) (b : Ptr) (c : Cell)
    → s % 16 ≡ 0
    → s < word
    → Tagged m b c
    → Tagged (set_size b s m) b (record c { size = s })
unfolding size_at is_free is_first is_last
set_size-Tagged s m b c whole fits t =
    let tag = set_size-here b s m whole fits in
    let law = with_size_lem (load64 b m) s whole fits in
    record {
      size = ap tag_size tag ∙ law.0;
      free = ap (has_flag free_flag) tag ∙ law.1 free_flag free ∙ t.free;
      first = ap (has_flag first_flag) tag ∙ law.1 first_flag first ∙ t.first;
      last = ap (has_flag last_flag) tag ∙ law.1 last_flag last ∙ t.last;
      prev = set_size-away (b + 8) b s m (inr (omega arith)) ∙ t.prev;
      fits = subst (λ n. n < word) (sym tag) law.2;
    }

pub set_prev_size-Tagged :
    (s : ℕ) (m : Bytes) (b : Ptr) (c : Cell)
    → s < word
    → Tagged m b c
    → Tagged (set_prev_size b s m) b (record c { prev = s })
unfolding size_at is_free is_first is_last
set_prev_size-Tagged s m b c fits t =
    let tag = elsewhere b (b + 8) s m (inl (omega arith)) in
    record {
      size = ap tag_size tag ∙ t.size;
      free = ap (has_flag free_flag) tag ∙ t.free;
      first = ap (has_flag first_flag) tag ∙ t.first;
      last = ap (has_flag last_flag) tag ∙ t.last;
      prev = load64-store64 (b + 8) s m ∙ omega arith;
      fits = subst (λ n. n < word) (sym tag) t.fits;
    }

module _ (v : View) (loose : Ptr) (segments : _) (laid : Laid v loose segments) where
  -- The headers and the links of blocks do not meet.
  pub header-apart :
      (b d : Ptr) (c e : Cell) → v b ≡ some c → v d ≡ some e → b ≢ d → Apart b 48 d 48
  header-apart b d c e at at' ne =
      let b_shape = laid.shape b c at in
      let d_shape = laid.shape d e at' in
      let lt = laid.apart b d c e at at' in
      let gt = laid.apart d b e c at' at in grind (arith, b_shape.big, d_shape.big, lt, gt)
