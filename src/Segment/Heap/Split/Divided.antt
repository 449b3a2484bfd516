-- ===== src/Segment/Heap/Split/Divided.antt =====
-- `splitBlock` on both of its branches.
use m_alloc.Base.{
  ℕ, ◌+◌, ◌-◌, ◌%◌, ◌≤◌, ◌<◌, ◌≡◌, ◌≢◌, refl, arith, true, false, sym, subst, some, List, ltb,
  if_intro,
}
use m_alloc.Memory.{Ptr, Bytes, null}
use m_alloc.Header.{word}
use m_alloc.Segment.Tag.{size_at}
use m_alloc.Segment.Bins.{SegmentHeap, insert_free}
use m_alloc.Segment.Ops.{write_rest, split_block}
use m_alloc.Segment.Heap.{Cell, View, HeapInv, put}
use m_alloc.Segment.Heap.Flip.{flip}
use m_alloc.Segment.Heap.Marks.{Marked}
use m_alloc.Segment.Heap.Marks.Ops.{insert_free-Marked}
use m_alloc.Segment.Heap.Keeps.{Kept, Keeps, Kept-trans, Kept-self, used_differs, marked-Keeps}
use m_alloc.Segment.Heap.Coalesced.{
  Coalesced, NoMoreFree, NoMoreFree-trans, Coalesced-fewer, freed-Coalesced,
}
use m_alloc.Segment.Heap.Tell.{Settled, tell_next-Settled}
use m_alloc.Segment.Heap.Cut.{around, cut-NoMoreFree, rest, front, cut-front, cut-rest, none_inside}
use m_alloc.Segment.Heap.Split.{
  second, front_cell, rest_cell, halves, m3, halves-HeapInv, halves-Keeps, halves-Beyond,
  rest-written,
}
use m_alloc.Segment.Heap.Beyond.{Beyond, Beyond-trans, marked-Beyond}

-- The invariant again, with a block in use of at least the wanted size and less than 48 bytes more.
pub record Divided (v : View) (h : SegmentHeap) (m : Bytes) (b : Ptr) (total : ℕ) (h' : SegmentHeap)
    (m' : Bytes) : Type 0 where
  pub view : View
  pub lists : ℕ → List Ptr
  pub inv : HeapInv view lists null h' m'
  pub cell : Cell
  pub there : view b ≡ some cell
  pub in_use : cell.free ≡ false
  pub enough : total ≤ cell.size
  pub tight : cell.size < total + 48
  pub segments : h'.segments ≡ h.segments
  pub keeps : Keeps v m view m' b
  pub coalesced : Coalesced view
  pub beyond : Beyond h.segments m m'

module _ (v : View) (lists : ℕ → List Ptr) (h : SegmentHeap) (m : Bytes)
    (inv : HeapInv v lists null h m) (b : Ptr) (c : Cell) (at : v b ≡ some c)
    (in_use : c.free ≡ false) (total : ℕ) (t16 : total % 16 ≡ 0) (t_big : 48 ≤ total)
    (enough : total ≤ c.size) (whole : Coalesced v)
    (next_used : (e : Cell) → c.last ≡ false → v (b + c.size) ≡ some e → e.free ≡ true → ⊥) where
  left : (size_at b m + word - total) % word ≡ c.size - total
  left = let s = inv.laid.shape b c at in omega (arith, (inv.held b c at).size, s.in_space, enough)

  abbrev Result : SegmentHeap × Bytes → Type 0
  Result (h', m') = Divided v h m b total h' m'

  module _ (r_big : 48 ≤ c.size - total) where
    sum : total + (c.size - total) ≡ c.size
    sum = omega (arith, enough)

    start : View
    start = halves v lists h m inv b c at in_use total (c.size - total) sum t16 t_big r_big

    m_cut : Bytes
    m_cut = m3 v lists h m inv b c at in_use total (c.size - total) sum t16 t_big r_big

    cell_behind : Cell
    cell_behind = rest_cell v lists h m inv b c at in_use total (c.size - total) sum t16 t_big r_big

    -- The rest in use, before it is put in a bin.
    rest_told :
        Settled start lists h m_cut (b + total) cell_behind (write_rest b total (c.size - total) m)
    unfolding second halves rest_cell start m_cut cell_behind
    rest_told =
        subst (Settled start lists h m_cut (b + total) cell_behind)
          (sym
            (rest-written v lists h m inv b c at in_use total (c.size - total) sum t16 t_big r_big))
          (tell_next-Settled start lists h m_cut (b + total) cell_behind
            (halves-HeapInv v lists h m inv b c at in_use total (c.size - total) sum t16 t_big
              r_big)
            (cut-rest v h.segments inv.laid b c at total (c.size - total) sum t16 t_big r_big))

    marked :
        Marked true rest_told.view null h
          (write_rest b total (c.size - total) m)
          (b + total)
          cell_behind
          (insert_free (b + total) h (write_rest b total (c.size - total) m)).0
          (insert_free (b + total) h (write_rest b total (c.size - total) m)).1
    unfolding cell_behind rest_cell rest
    marked =
        insert_free-Marked rest_told.view lists null h (write_rest b total (c.size - total) m)
          rest_told.inv (b + total) cell_behind rest_told.same refl

    end : View
    end = put rest_told.view (b + total) (some (flip true cell_behind))

    m_end : Bytes
    m_end = (insert_free (b + total) h (write_rest b total (c.size - total) m)).1

    -- A block in use other than the rest stays through the last two steps.
    later :
        (x : Ptr) (e : Cell)
        → start x ≡ some e
        → e.free ≡ false
        → x ≢ b + total
        → Kept end m_cut m_end x e
    unfolding end m_end
    later x e x_at x_used ne =
        let k = rest_told.keeps x e x_at x_used in
        Kept-trans rest_told.view end m_cut (write_rest b total (c.size - total) m) m_end x e k (
          marked-Keeps true rest_told.view null h.segments (write_rest b total (c.size - total) m)
            m_end (b + total) cell_behind rest_told.inv.laid rest_told.same marked.frame x k.cell
            k.there k.in_use ne)

    fewer : NoMoreFree v rest_told.view
    unfolding start halves
    fewer =
        NoMoreFree-trans v start rest_told.view
          (cut-NoMoreFree v h.segments inv.laid b c at total (c.size - total) sum t16 t_big r_big
            in_use)
          rest_told.fewer

    end-Coalesced : Coalesced end
    unfolding end cell_behind rest_cell rest
    end-Coalesced =
        freed-Coalesced rest_told.view (b + total) cell_behind
          (Coalesced-fewer v rest_told.view fewer whole)
          (λ e more e_at free.
            let k = fewer (b + total + (c.size - total)) e e_at free in
            let at_end : b + total + (c.size - total) ≡ b + c.size = omega (arith, enough) in
            next_used k.cell more (subst (λ y. v y ≡ some k.cell) at_end k.there) k.is_free)
          (λ x k x_at more meets free.
            let g = fewer x k x_at free in
            let ne = used_differs v b x c g.cell at in_use g.there g.is_free in
            let side =
              around v h.segments inv.laid b c at total (c.size - total) sum t16 t_big r_big x
                g.cell g.there (λ e. ne (sym e)) in
            grind (arith, side, meets, g.size, t_big, r_big))
          (omega (arith, r_big))

    end-Beyond : Beyond h.segments m m_end
    unfolding m_cut m_end
    end-Beyond =
        Beyond-trans h.segments m m_cut m_end
          (halves-Beyond v lists h m inv b c at in_use total (c.size - total) sum t16 t_big r_big)
          (Beyond-trans h.segments m_cut (write_rest b total (c.size - total) m) m_end
            rest_told.beyond
            (marked-Beyond rest_told.view null h.segments (write_rest b total (c.size - total) m)
              m_end (b + total) cell_behind rest_told.inv.laid rest_told.same marked.frame))

    divided : Result (insert_free (b + total) h (write_rest b total (c.size - total) m))
    unfolding end start m_cut m_end halves front_cell front
    divided =
        let front_at =
          cut-front v h.segments inv.laid b c at total (c.size - total) sum t16 t_big r_big in
        let own =
          later b
            (front_cell v lists h m inv b c at in_use total (c.size - total) sum t16 t_big r_big)
            front_at in_use (omega (arith, t_big)) in
        record {
          view = end;
          lists = marked.lists;
          inv = marked.inv;
          cell = own.cell;
          there = own.there;
          in_use = own.in_use;
          enough = omega (arith, own.size);
          tight = omega (arith, own.size);
          segments = marked.segments;
          coalesced = end-Coalesced;
          beyond = end-Beyond;
          keeps = λ x e x_at x_used ne.
              let k =
                halves-Keeps v lists h m inv b c at in_use total (c.size - total) sum t16 t_big
                  r_big x e x_at x_used ne in
              Kept-trans start end m m_cut m_end x e k (
                later x k.cell k.there k.in_use (
                  none_inside v h.segments inv.laid b c at total (c.size - total) sum t16 t_big
                    r_big x e x_at));
        }

  -- `splitBlock` of a block in use, whose neighbour behind is not free, to a total size that is a
  -- multiple of 16, is at least 48 and is at most the block's size: it keeps the invariant with no
  -- two free blocks neighbours, every other block in use, and all memory outside the segments, and
  -- leaves a block in use of at least the wanted size, and of less than 48 bytes more.
  pub split_block-Divided :
      Divided v h m b total (split_block b total h m).0 (split_block b total h m).1
  unfolding split_block
  split_block-Divided = rw left (
      if_intro Result (ltb (c.size - total) 48)
        (λ few. record {
          view = v;
          lists = lists;
          inv = inv;
          cell = c;
          there = at;
          in_use = in_use;
          enough = enough;
          tight = ground (arith, few, enough);
          segments = refl;
          coalesced = whole;
          beyond = λ _ _. refl;
          keeps = λ x e x_at x_used ne. Kept-self x e x_at x_used;
        })
        (λ many. divided (ground (arith, many))))
