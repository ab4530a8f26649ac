-- ===== src/Murmur.antt =====
-- src/util/murmur3.c: MurmurHash3. Words are numbers below 2^32 or 2^64, with each wrap written
-- out; `Host` is how the machine loads a word from the bytes of the key (`getblock`), since the
-- source reads them in the machine's own byte order. A length is not negative.
pub mod X86
pub mod X64
pub mod Mix
use adventure.Base.{
  ℕ, ◌+◌, ◌-◌, ◌*◌, ◌/◌, ◌^◌, bit_or, bit_xor, shr, zero, suc, leb, if◌then◌else◌, u8, u32, u64,
}
use adventure.Memory.{Bytes}

pub record Host : Type 0 where
  -- the `uint32_t` and the `uint64_t` at a byte address
  pub load32 : Bytes → ℕ → ℕ
  pub load64 : Bytes → ℕ → ℕ

unfoldable pub rotl32 : ℕ → ℕ → ℕ
rotl32 x r = bit_or (u32 (x * 2 ^ r)) (shr x (32 - r))

unfoldable pub rotl64 : ℕ → ℕ → ℕ
rotl64 x r = bit_or (u64 (x * 2 ^ r)) (shr x (64 - r))

-- `h ^= h >> r`
unfoldable pub xorshift : ℕ → ℕ → ℕ
xorshift r h = bit_xor h (shr h r)

-- The tail's `switch`, which falls through: the bytes of the tail from `first + count - 1` down to `first`, as far as there are `rest`.
unfoldable pub tail_bytes : (d : Bytes) (base rest first count k : ℕ) → ℕ
tail_bytes d base rest first zero k = k
tail_bytes d base rest first (suc n) k =
    tail_bytes d base rest first n
      (if leb (first + n + 1) rest then bit_xor k (u8 (d (base + first + n)) * 2 ^ (8 * n)) else k)

unfoldable pub fmix32 : ℕ → ℕ
unfolding xorshift
fmix32 h = xorshift 16 (u32 (xorshift 13 (u32 (xorshift 16 h * 0x85ebca6b)) * 0xc2b2ae35))

unfoldable pub fmix64 : ℕ → ℕ
unfolding xorshift
fmix64 k =
    xorshift 33 (u64 (xorshift 33 (u64 (xorshift 33 k * 0xff51afd7ed558ccd)) * 0xc4ceb9fe1a85ec53))
