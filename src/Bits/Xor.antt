-- ===== src/Bits/Xor.antt =====
-- The exclusive or of numbers: it takes itself back, and it goes through shifts to the right.
use Prim.Native.Nat.{differ, bit_xor-bitwise}
use native.Mathlib.Nat.{pow-suc, div-div-eq-div-mul, div-one}
use adventure.Base.{
  ℕ, zero, suc, ◌+◌, ◌*◌, ◌/◌, ◌%◌, ◌^◌, ◌≤◌, ◌<◌, bit_xor, shr, ◌≡◌, refl, sym, ◌∙◌, ap, ap₂,
  arith,
}
use adventure.Bits.Digits.{one_bit}

differ_bits : (p q : ℕ) → p < 2 → q < 2 → differ p q ≡ (p + q) % 2
differ_bits zero q hp hq = omega arith
differ_bits (suc zero) zero hp hq = refl
differ_bits (suc zero) (suc zero) hp hq = refl
differ_bits (suc zero) (suc (suc q)) hp hq = absurd (omega arith)
differ_bits (suc (suc p)) q hp hq = absurd (omega arith)

xor_raw : (x y : ℕ) → bit_xor x y ≡ differ (x % 2) (y % 2) + 2 * bit_xor (x / 2) (y / 2)
xor_raw (suc x) y = simp bit_xor-bitwise (one_bit differ (λ t. t) y x)
xor_raw zero y = simp bit_xor-bitwise (omega arith)

pub bit_xor-digits : (x y : ℕ) → bit_xor x y ≡ (x % 2 + y % 2) % 2 + 2 * bit_xor (x / 2) (y / 2)
bit_xor-digits x y =
    omega (arith, xor_raw x y, differ_bits (x % 2) (y % 2) (omega arith) (omega arith))

half : (x y : ℕ) → bit_xor x y / 2 ≡ bit_xor (x / 2) (y / 2)
half x y = omega (arith, bit_xor-digits x y)

zero_below : (bound x : ℕ) → x ≤ bound → bit_xor x 0 ≡ x
zero_below bound zero small = refl
zero_below zero (suc x) small = absurd (omega arith)
zero_below (suc bound) (suc x) small =
    omega (arith, bit_xor-digits (suc x) 0, zero_below bound (suc x / 2) (omega arith))

pub bit_xor-zero : (x : ℕ) → bit_xor x 0 ≡ x
bit_xor-zero x = zero_below x x (omega arith)

twice_below : (bound x y : ℕ) → x ≤ bound → y ≤ bound → bit_xor (bit_xor x y) y ≡ x
twice_below zero zero zero hx hy = refl
twice_below zero zero (suc y) hx hy = absurd (omega arith)
twice_below zero (suc x) y hx hy = absurd (omega arith)
twice_below (suc bound) x y hx hy =
    let back : bit_xor (bit_xor x y / 2) (y / 2) ≡ x / 2 =
      ap (λ (t : ℕ). bit_xor t (y / 2)) (half x y)
      ∙ twice_below bound (x / 2) (y / 2) (omega arith) (omega arith) in
    omega (arith, back, bit_xor-digits (bit_xor x y) y, bit_xor-digits x y)

-- `(x ^ y) ^ y` is `x`.
pub bit_xor_twice : (x y : ℕ) → bit_xor (bit_xor x y) y ≡ x
bit_xor_twice x y = twice_below (x + y) x y (omega arith) (omega arith)

half_more : (x k : ℕ) → x / 2 ^ suc k ≡ x / 2 / 2 ^ k
half_more x k =
    ap (λ (t : ℕ). x / t) (pow-suc 2 k ∙ omega arith) ∙ sym (div-div-eq-div-mul x 2 (2 ^ k))

-- A shift to the right of `x ^ y`.
pub shr-bit_xor : (k x y : ℕ) → shr (bit_xor x y) k ≡ bit_xor (shr x k) (shr y k)
shr-bit_xor zero x y =
    omega (
      arith,
      ap (λ (t : ℕ). bit_xor t y) (div-one x),
      ap (λ (t : ℕ). bit_xor (x / 1) t) (div-one y),
    )
shr-bit_xor (suc k) x y =
    half_more (bit_xor x y) k
    ∙ ap (λ (t : ℕ). t / 2 ^ k) (half x y)
    ∙ shr-bit_xor k (x / 2) (y / 2)
    ∙ ap₂ bit_xor (sym (half_more x k)) (sym (half_more y k))

-- No bit beyond the width appears.
pub bit_xor-lt : (w x y : ℕ) → x < 2 ^ w → y < 2 ^ w → bit_xor x y < 2 ^ w
bit_xor-lt zero x y hx hy =
    let left : x ≡ 0 = omega arith in
    let right : y ≡ 0 = omega arith in omega (arith, ap₂ bit_xor left right)
bit_xor-lt (suc w) x y hx hy = omega (
  arith,
  pow-suc 2 w,
  bit_xor-digits x y,
  bit_xor-lt w (x / 2) (y / 2) (omega (arith, pow-suc 2 w)) (omega (arith, pow-suc 2 w)),
)
