-- ===== src/Header/Fields.antt =====
-- The header's fields in memory: what each write leaves readable.
use m_alloc.Base.{ℕ, ◌+◌, ◌%◌, ◌^◌, ◌≡◌, arith}
use m_alloc.Memory.{Ptr, Bytes}
use m_alloc.Memory.Laws.{
  SameOn, read_le-write_le, read_le-same, SameOn-part, load64-store64, load32-store32,
  load16-store16,
}
use m_alloc.Header.{
  BlockHeader, Tier, tier_code, header_size, state_allocated, read_header, write_header, set_state,
}

-- The header that an allocation path leaves: the size and the offset at their widths.
abbrev pub written : ℕ → Tier → ℕ → BlockHeader
written size t off = record {
  payload_size = size % 2 ^ 64;
  tier = tier_code t;
  state = state_allocated;
  offset = off % 2 ^ 32;
}

module _ (h : Ptr) where
  -- Reading back the four fields gives what was written.
  pub read-write_header :
      (size : ℕ) (t : Tier) (off : ℕ) (m : Bytes)
      → read_header h (write_header h size t off m) ≡ written size t off
  unfolding read_header write_header
  read-write_header size t off m =
      grind (arith, read_le-write_le, load64-store64, load32-store32, load16-store16)

  -- Changing the state changes no other field.
  pub read-set_state :
      (v : ℕ) (m : Bytes)
      → read_header h (set_state h v m) ≡ record (read_header h m) { state = v % 2 ^ 16 }
  unfolding read_header set_state
  read-set_state v m = grind (arith, read_le-write_le, load16-store16)

  -- A header is read from its sixteen bytes alone.
  pub read_header-same :
      (m m' : Bytes) → SameOn h header_size m m' → read_header h m' ≡ read_header h m
  unfolding read_header
  read_header-same m m' same = ground (
    arith,
    read_le-same 8 h m m' (SameOn-part h 16 h 8 m m' (omega arith) (omega arith) same),
    read_le-same 2 (h + 8) m m' (SameOn-part h 16 (h + 8) 2 m m' (omega arith) (omega arith) same),
    read_le-same 2 (h + 10) m m'
        (SameOn-part h 16 (h + 10) 2 m m' (omega arith) (omega arith) same),
    read_le-same 4 (h + 12) m m'
        (SameOn-part h 16 (h + 12) 4 m m' (omega arith) (omega arith) same),
  )
