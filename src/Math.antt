-- ===== src/Math.antt =====
-- src/util/math.h: rounding up to a power of two, and the logarithm. `unsigned long` has 64 bits.
use adventure.Base.{ℕ, ◌+◌, ◌-◌, ◌*◌, ◌^◌, bit_or, shr, u64}

-- `n |= n >> k`
unfoldable pub smear : ℕ → ℕ → ℕ
smear k n = bit_or n (shr n k)

unfoldable pub next_pow_2 : ℕ → ℕ
unfolding smear
next_pow_2 n =
    u64 (smear 32 (smear 16 (smear 8 (smear 4 (smear 2 (smear 1 (u64 (n + 2 ^ 64 - 1))))))) + 1)

-- `(8*sizeof(unsigned long) - __builtin_clzl(n))-1`; the count of leading zeros is the compiler's.
unfoldable pub log2 : (clzl : ℕ → ℕ) → ℕ → ℕ
log2 clzl n = u64 (8 * 8 + 2 ^ 64 - clzl n - 1)
