-- ===== src/Impl/Shim.antt =====
-- Where `alignedAllocate` places the user's pointer, and the shim header that leads back.
use native.Mathlib.Decide.{ℕ_discrete}
use native.Mathlib.Nat.{pow-suc}
use m_alloc.Base.{
  ℕ, zero, suc, ◌+◌, ◌-◌, ◌%◌, ◌^◌, ◌≤◌, ◌<◌, ◌≡◌, refl, arith, ◌==◌, if◌then◌else◌, if_intro,
}
use m_alloc.Base.Bits.{pow-le}
use m_alloc.Memory.{Ptr, Bytes}
use m_alloc.Header.{
  Tier, header_of, read_header, write_header, align_up, word, header_size, tier_code,
  state_allocated,
}
use m_alloc.Header.Align.{align_up_least}
use m_alloc.Header.Fields.{read-write_header}
use m_alloc.SystemMemory.Fresh.{mul_16}
use m_alloc.Impl.Allocate.{aligned_user}

pow_16 : (k : ℕ) → 4 ≤ k → 2 ^ k % 16 ≡ 0
pow_16 zero h = absurd (omega arith)
pow_16 (suc k) h = elim (ℕ_discrete k 3) [
  | yes e ↦ rw e refl
  | no ne ↦ omega (arith, pow_16 k (omega arith), pow-suc 2 k)
]

-- The pointer is a multiple of the alignment, with room for a header before it and for the payload
-- behind it in the block of `size + alignment` bytes.
pub record Placed (address alignment size : ℕ) (user : Ptr) : Type 0 where
  pub aligned : user % alignment ≡ 0
  pub header_room : address ≤ header_of user
  pub payload_room : user + size ≤ address + (size + alignment)
  pub above : header_size ≤ user

shift-Placed :
    (address alignment size up : ℕ)
    → address % 16 ≡ 0
    → alignment % 16 ≡ 0
    → 16 ≤ alignment
    → address ≤ up
    → up < address + alignment
    → up % alignment ≡ 0
    → Placed address alignment size (if up == address then up + alignment else up)
shift-Placed address alignment size up a16 d16 big low high whole =
    if_intro (Placed address alignment size) (up == address)
      (λ same. record {
        aligned = again (ground arith);
        header_room = ground arith;
        payload_room = ground arith;
        above = ground arith;
      })
      (λ other. record {
        aligned = whole;
        header_room = ground (arith, up_16);
        payload_room = ground arith;
        above = ground (arith, up_16);
      })
  where
    up_16 : up % 16 ≡ 0
    up_16 = mul_16 up alignment (omega arith) whole d16

    again : 0 < alignment → (up + alignment) % alignment ≡ 0
    again pos = grind arith

module _ (address k size : ℕ) (from : 4 < k) (upto : k ≤ 30) (a16 : address % 16 ≡ 0)
    (fits : address + 2 ^ k < word) where
  -- The user's pointer in a block of `size + alignment` bytes at `address`.
  pub aligned_user-Placed : Placed address (2 ^ k) size (aligned_user address (2 ^ k))
  unfolding aligned_user
  aligned_user-Placed =
      let (low, high, whole) = align_up_least address k (omega arith) (omega arith) in
      shift-Placed address (2 ^ k) size (align_up address (2 ^ k)) a16 (pow_16 k (omega arith))
        (omega (arith, pow-le 4 k (omega arith))) low high whole

  near : aligned_user address (2 ^ k) ≤ address + 2 ^ k
  near = omega (arith, aligned_user-Placed.payload_room)

  -- A shim header before it carries the way back to the block.
  pub shim-return :
      (m : Bytes)
      → let user = aligned_user address (2 ^ k) in
        let h =
          read_header
            (header_of user)
            (write_header (header_of user) size Tier.aligned_shim ((user - address) % 2 ^ 32) m) in
        (h.tier ≡ tier_code Tier.aligned_shim)
        × (h.state ≡ state_allocated)
        × (h.payload_size ≡ size % word)
        × (user - h.offset ≡ address)
  shim-return m =
      rw
        (read-write_header (header_of (aligned_user address (2 ^ k))) size Tier.aligned_shim
          ((aligned_user address (2 ^ k) - address) % 2 ^ 32) m)
        (refl, refl, refl, omega (arith, aligned_user-Placed, near, pow-le k 30 upto))
