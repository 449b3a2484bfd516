-- ===== src/Impl/Aligned.antt =====
-- `alignedAllocate` with an alignment above 16: where the pointer lies in the raw block, and how
-- the shim header before it leads back there.
use m_alloc.Base.{
  inl, inr, Bool-cases, ℕ, ◌+◌, ◌-◌, ◌%◌, ◌^◌, ◌≤◌, ◌<◌, ◌≡◌, refl, arith, true, false, ltb, leb,
  some,
}
use m_alloc.Base.Bits.{pow-le}
use m_alloc.Memory.{Ptr}
use m_alloc.Memory.Laws.{fill-SameOn}
use m_alloc.Config.{ok}
use m_alloc.Header.{
  Tier, tier_value, state_allocated, header_size, header_of, word, is_power_of_two, write_header,
}
use m_alloc.Header.Align.{is_power_of_two_iff}
use m_alloc.Header.Fields.{read_header-same}
use m_alloc.Debug.{poison_on_allocate}
use m_alloc.Impl.{State, Env, done, set_bytes, max_request, max_alignment}
use m_alloc.Impl.Raw.{RawAllocation, raw_allocate}
use m_alloc.Impl.Allocate.{
  one_at_least, hand_out, aligned_user, place_shim, aligned_sized, aligned_allocate,
}
use m_alloc.Impl.Deallocate.{header_at}
use m_alloc.Impl.Shim.{Placed, aligned_user-Placed, shim-return}

-- What `alignedAllocate` gives of a raw block.
pub record AlignedBlock (env : Env) (alignment size : ℕ) (s : State) (raw : RawAllocation)
    : Type 0 where
  pub user : Ptr
  pub state : State
  pub run : aligned_allocate env alignment size s ≡ done (ok user) state
  pub placed : Placed raw.user alignment (one_at_least size) user
  pub tier : tier_value (header_at user state) ≡ some Tier.aligned_shim
  pub in_use : (header_at user state).state ≡ state_allocated
  pub payload_size : (header_at user state).payload_size ≡ one_at_least size
  pub back : user - (header_at user state).offset ≡ raw.user

-- Poison is written behind the header.
hand_out-header :
    (user size reserved : ℕ) (t : State)
    → header_size ≤ user
    → header_at user (hand_out user size reserved t) ≡ header_at user t
unfolding hand_out
hand_out-header user size reserved t room =
    let spared =
      read_header-same (header_of user) t.world.bytes (poison_on_allocate user size t.world.bytes) (
        fill-SameOn header_size (header_of user) user _ size t.world.bytes
          (inl (omega (arith, room)))) in
    elim (Bool-cases t.config.enable_poisoning) [
      | inl on ↦ elim (Bool-cases t.config.enable_leak_tracking) [
        | inl tracks ↦ rw (on, tracks) spared
        | inr no_tracks ↦ rw (on, no_tracks) spared
      ]
      | inr off ↦ elim (Bool-cases t.config.enable_leak_tracking) [
        | inl tracks ↦ rw (off, tracks) refl
        | inr no_tracks ↦ rw (off, no_tracks) refl
      ]
    ]

module _ (env : Env) (k size : ℕ) (s t : State) (raw : RawAllocation) (from : 4 < k) (upto : k ≤ 30)
    (small : one_at_least size ≤ max_request)
    (got : raw_allocate env (one_at_least size + 2 ^ k) s ≡ (ok raw, t))
    (raw_16 : raw.user % 16 ≡ 0) (fits : raw.user + 2 ^ k < word) where
  n : ℕ
  n = one_at_least size

  user : Ptr
  user = aligned_user raw.user (2 ^ k)

  headed : State
  headed =
      set_bytes
        (write_header (header_of user) n Tier.aligned_shim ((user - raw.user) % 2 ^ 32)
          t.world.bytes)
        t

  end : State
  end = hand_out user n raw.reserved headed

  returns : aligned_allocate env (2 ^ k) size s ≡ done (ok user) end
  unfolding aligned_allocate aligned_sized place_shim n user headed end
  returns =
      let power : is_power_of_two (2 ^ k) ≡ true = (is_power_of_two_iff (2 ^ k)).1 (k, refl) in
      let low : leb (2 ^ k) 16 ≡ false = ground (arith, pow-le 5 k from) in
      let high : ltb max_alignment (2 ^ k) ≡ false = ground (arith, pow-le k 30 upto) in
      let size_fits : ltb max_request (one_at_least size) ≡ false = ground (arith, small) in
      rw (power, high, low, size_fits, got) refl

  placed : Placed raw.user (2 ^ k) n user
  unfolding user
  placed = aligned_user-Placed raw.user k n from upto raw_16 fits

  same : header_at user end ≡ header_at user headed
  unfolding end
  same = hand_out-header user n raw.reserved headed placed.above

  -- `alignedAllocate` to a power of two above 16 and up to 2 ^ 30, of a size up to the largest
  -- request (0 counts as 1), where `rawAllocate` of size and alignment together gives a block, at a
  -- multiple of 16 and with the alignment behind it in the address space: it returns a pointer that
  -- is a multiple of the alignment, with room inside of the block for a header before it and for
  -- the payload behind it. The header there, also after the payload was poisoned, is a shim in use
  -- with the payload's size, whose offset leads back to the raw block.
  pub aligned_allocate-AlignedBlock : AlignedBlock env (2 ^ k) size s raw
  unfolding user headed tier_value end n
  aligned_allocate-AlignedBlock =
      let (tier, in_use, payload_size, back) =
        shim-return raw.user k n from upto raw_16 fits t.world.bytes in
      record {
        user = user;
        state = end;
        run = returns;
        placed = placed;
        tier = rw (same, tier) refl;
        in_use = rw same in_use;
        payload_size = rw same (omega (arith, payload_size, small));
        back = rw same back;
      }
