-- ===== src/Pool/Stride.antt =====
-- The strides of the size classes.
use m_alloc.Base.{
  ℕ, ◌+◌, ◌%◌, ◌≤◌, ◌<◌, ◌≡◌, refl, true, ◌&&◌, leb, ◌==◌, arith, all_below, all_below_sound,
}
use m_alloc.Header.{align_up, header_size}
use m_alloc.SizeClass.{class_count, class_size}
use m_alloc.Pool.{block_stride, run_size}

pub record IsSpacing (i : ℕ) : Type 0 where
  pub holds : header_size + class_size i ≤ block_stride i
  pub tight : block_stride i < header_size + class_size i + 16
  pub at_least : 32 ≤ block_stride i
  pub in_run : block_stride i ≤ run_size
  pub whole : block_stride i % 16 ≡ 0

stride_table :
    all_below 30 (λ i.
      leb (header_size + class_size i) (block_stride i)
      && (leb (block_stride i + 1) (header_size + class_size i + 16)
          && (leb 32 (block_stride i)
              && (leb (block_stride i) run_size && (block_stride i % 16 == 0)))))
    ≡ true
unfolding all_below block_stride class_size align_up
stride_table = refl

-- A stride holds the header and the payload of its class, wastes less than an alignment, and keeps
-- the blocks of a run aligned.
pub block_stride-IsSpacing : (i : ℕ) → i < class_count → IsSpacing i
block_stride-IsSpacing i top = facts (all_below_sound 30 _ i stride_table top)
  where
    facts :
        (leb (header_size + class_size i) (block_stride i)
            && (leb (block_stride i + 1) (header_size + class_size i + 16)
                && (leb 32 (block_stride i)
                    && (leb (block_stride i) run_size && (block_stride i % 16 == 0)))))
          ≡ true
        → IsSpacing i
    facts h = ground arith
