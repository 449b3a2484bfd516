-- ===== src/Memory.antt =====
-- The address space that the allocator works in: a byte at each address, and the little-endian
-- words and `memset` fills by which src/ reads and writes it. An address is a `ℕ`; `null` is 0.
pub mod Laws
use m_alloc.Base.{ℕ, zero, suc, ◌+◌, ◌-◌, ◌*◌, ◌/◌, ◌%◌, ◌==◌, if◌then◌else◌, ltb, leb, ◌&&◌}

abbrev pub Ptr : Type 0
Ptr = ℕ

abbrev pub null : Ptr
null = 0

abbrev pub Bytes : Type 0
Bytes = Ptr → ℕ

unfoldable pub poke : Ptr → ℕ → Bytes → Bytes
poke p b m q = if q == p then b else m q

unfoldable pub read_le : ℕ → Ptr → Bytes → ℕ
read_le zero p m = 0
read_le (suc k) p m = m p + 256 * read_le k (p + 1) m

unfoldable pub write_le : ℕ → Ptr → ℕ → Bytes → Bytes
unfolding poke
write_le zero p v m = m
write_le (suc k) p v m = write_le k (p + 1) (v / 256) (poke p (v % 256) m)

-- std::memset(p, b, n)
unfoldable pub fill : Ptr → ℕ → ℕ → Bytes → Bytes
fill p b n m q = if leb p q && ltb q (p + n) then b else m q

-- std::memcpy(p, q, n) of ranges that do not overlap
unfoldable pub copy : Ptr → Ptr → ℕ → Bytes → Bytes
copy p q n m a = if leb p a && ltb a (p + n) then m (q + a - p) else m a

abbrev pub load64 : Ptr → Bytes → ℕ
load64 p m = read_le 8 p m

abbrev pub load32 : Ptr → Bytes → ℕ
load32 p m = read_le 4 p m

abbrev pub load16 : Ptr → Bytes → ℕ
load16 p m = read_le 2 p m

abbrev pub store64 : Ptr → ℕ → Bytes → Bytes
store64 p v m = write_le 8 p v m

abbrev pub store32 : Ptr → ℕ → Bytes → Bytes
store32 p v m = write_le 4 p v m

abbrev pub store16 : Ptr → ℕ → Bytes → Bytes
store16 p v m = write_le 2 p v m
