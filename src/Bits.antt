-- ===== src/Bits.antt =====
-- Masks and disjoint sums: what `&` and `|` are on the words that the program builds.
mod Digits
pub mod Xor
use Digits.{bit_or-digits, bit_and-digits}
use native.Mathlib.Nat.{pow-suc, one-le-pow}
use adventure.Base.{
  ℕ, zero, suc, ◌+◌, ◌-◌, ◌*◌, ◌/◌, ◌%◌, ◌^◌, ◌≤◌, ◌<◌, bit_and, bit_or, max, min, ◌≡◌, refl, ap,
  arith,
}

-- `|` and `&` with 0, for a number of at most `bound`.
with_zero : (bound x : ℕ) → x ≤ bound → (bit_or x 0 ≡ x) × (bit_and x 0 ≡ 0)
with_zero bound zero small = (refl, refl)
with_zero zero (suc x) small = absurd (omega arith)
with_zero (suc bound) (suc x) small =
    let (o, a) = with_zero bound (suc x / 2) (omega arith) in
    (omega (arith, o, bit_or-digits (suc x) 0), omega (arith, a, bit_and-digits (suc x) 0))

pub bit_or-zero : (x : ℕ) → bit_or x 0 ≡ x
bit_or-zero x = (with_zero x x (omega arith)).0

mul-pow-suc : (q k : ℕ) → q * 2 ^ suc k ≡ 2 * (q * 2 ^ k)
mul-pow-suc q k = omega (arith, ap (λ (t : ℕ). q * t) (pow-suc 2 k))

or_shifted : (k q r : ℕ) → r < 2 ^ k → bit_or (q * 2 ^ k) r ≡ q * 2 ^ k + r
or_shifted zero q r h = ground (arith, bit_or-zero q)
or_shifted (suc k) q r h = ground (
  arith,
  bit_or-digits (q * 2 ^ suc k) r,
  mul-pow-suc q k,
  pow-suc 2 k,
  or_shifted k q (r / 2) (omega (arith, pow-suc 2 k)),
)

-- `|` of a multiple of `2 ^ k` with a value of `k` bits is their sum.
pub bit_or-eq-add : (k a r : ℕ) → a ≡ a / 2 ^ k * 2 ^ k → r < 2 ^ k → bit_or a r ≡ a + r
bit_or-eq-add k a r e h = rw e (or_shifted k (a / 2 ^ k) r h)

and_low : (k q r : ℕ) → r < 2 ^ k → bit_and (q * 2 ^ k + r) (2 ^ k - 1) ≡ r
and_low zero q r h = omega (arith, (with_zero (q * 1 + r) (q * 1 + r) (omega arith)).1)
and_low (suc k) q r h = ground (
  arith,
  bit_and-digits (q * 2 ^ suc k + r) (2 ^ suc k - 1),
  mul-pow-suc q k,
  pow-suc 2 k,
  and_low k q (r / 2) (omega (arith, pow-suc 2 k)),
)

-- `& (2 ^ k - 1)` is the remainder by `2 ^ k`.
pub bit_and_mask : (k a : ℕ) → bit_and a (2 ^ k - 1) ≡ a % 2 ^ k
bit_and_mask k a = ground (arith, one-le-pow k 2, and_low k (a / 2 ^ k) (a % 2 ^ k))
