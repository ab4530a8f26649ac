-- ===== src/Bits/Digits.antt =====
-- A bit operation by the lowest bits of its arguments and what is above them.
use Prim.Native.Nat.{min, max, digits, bitwise, bit_and-bitwise, bit_or-bitwise}
use adventure.Base.{
  ℕ, zero, suc, ◌+◌, ◌*◌, ◌/◌, ◌%◌, ◌≤◌, bit_and, bit_or, ◌≡◌, refl, sym, ◌∙◌, ap, arith,
}

-- The digits of an operation that is `op` on one bit, and `rest` where the first number is used up.
module _ (op : ℕ → ℕ → ℕ) (rest : ℕ → ℕ) where
  used_up : (high fuel : ℕ) → digits rest op fuel zero high ≡ rest high
  used_up high zero = refl
  used_up high (suc fuel) = refl

  -- More fuel than the first number gives nothing new.
  spare_fuel :
      (fuel high low more : ℕ)
      → low ≤ fuel
      → low ≤ more
      → digits rest op more low high ≡ digits rest op fuel low high
  spare_fuel fuel high zero more enough _ = used_up high more ∙ sym (used_up high fuel)
  spare_fuel (suc fuel) high (suc low) (suc more) enough also =
      ap (λ (t : ℕ). t * 2 + op (suc low % 2) (high % 2))
        (spare_fuel fuel (high / 2) (suc low / 2) more (omega arith) (omega arith))
  spare_fuel zero high (suc low) more enough _ = absurd (omega arith)
  spare_fuel (suc fuel) high (suc low) zero _ also = absurd (omega arith)

  pub one_bit :
      (high low : ℕ)
      → bitwise rest op (suc low) high
        ≡ op (suc low % 2) (high % 2) + 2 * bitwise rest op (suc low / 2) (high / 2)
  one_bit high low =
      let above =
        spare_fuel (suc low / 2) (high / 2) (suc low / 2) low (omega arith) (omega arith) in
      omega (arith, above)

pub bit_or-digits : (x y : ℕ) → bit_or x y ≡ max (x % 2) (y % 2) + 2 * bit_or (x / 2) (y / 2)
bit_or-digits (suc x) y = simp bit_or-bitwise (one_bit max (λ t. t) y x)
bit_or-digits zero y = simp bit_or-bitwise (omega arith)

pub bit_and-digits : (x y : ℕ) → bit_and x y ≡ min (x % 2) (y % 2) + 2 * bit_and (x / 2) (y / 2)
bit_and-digits (suc x) y = simp bit_and-bitwise (one_bit min (λ t. 0) y x)
bit_and-digits zero y = simp bit_and-bitwise (omega arith)
