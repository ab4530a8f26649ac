-- ===== src/Murmur/Mix.antt =====
-- The finaliser `fmix64` of src/util/murmur3.c is a permutation of the 64-bit words.
use adventure.Base.{ℕ, ◌*◌, ◌^◌, ◌<◌, ◌≡◌, refl, ◌∙◌, ap, bit_xor, shr, u64, arith}
use adventure.Bits.Xor.{bit_xor_twice, bit_xor-zero, shr-bit_xor, bit_xor-lt}
use adventure.Murmur.{xorshift, fmix64}

-- A shift of at least half the width is its own inverse.
xorshift_twice : (h : ℕ) → h < 2 ^ 64 → xorshift 33 (xorshift 33 h) ≡ h
unfolding xorshift
xorshift_twice h small =
    let gone : shr (shr h 33) 33 ≡ 0 = omega arith in
    let same : shr (bit_xor h (shr h 33)) 33 ≡ shr h 33 =
      shr-bit_xor 33 h (shr h 33) ∙ ap (bit_xor (shr h 33)) gone ∙ bit_xor-zero (shr h 33) in
    ap (bit_xor (bit_xor h (shr h 33))) same ∙ bit_xor_twice h (shr h 33)

xorshift-lt : (h : ℕ) → h < 2 ^ 64 → xorshift 33 h < 2 ^ 64
unfolding xorshift
xorshift-lt h small = bit_xor-lt 64 h (shr h 33) small (omega arith)

-- The inverses of the two odd factors modulo 2 ^ 64.
times_back1 : (h : ℕ) → h < 2 ^ 64 → u64 (u64 (h * 0xff51afd7ed558ccd) * 5725274745694666757) ≡ h
times_back1 h small = omega arith

times_back2 : (h : ℕ) → h < 2 ^ 64 → u64 (u64 (h * 0xc4ceb9fe1a85ec53) * 11291846944257947611) ≡ h
times_back2 h small = omega arith

-- The steps of `fmix64`, taken back from the last to the first.
pub unmix64 : ℕ → ℕ
unmix64 k =
    xorshift 33
      (u64 (xorshift 33 (u64 (xorshift 33 k * 11291846944257947611)) * 5725274745694666757))

-- On words below 2^64 fmix64 has an inverse, two shifts and the inverses of its factors modulo
-- 2^64, so that it gives no two words the same mix.
pub unmix64-fmix64 : (k : ℕ) → k < 2 ^ 64 → unmix64 (fmix64 k) ≡ k
unfolding unmix64 fmix64
unmix64-fmix64 k small =
    let a = xorshift 33 k in
    let b = u64 (a * 0xff51afd7ed558ccd) in
    let c = xorshift 33 b in
    let d = u64 (c * 0xc4ceb9fe1a85ec53) in
    rw
      (
        xorshift_twice d (omega arith),
        times_back2 c (xorshift-lt b (omega arith)),
        xorshift_twice b (omega arith),
        times_back1 a (xorshift-lt k small),
        xorshift_twice k small,
      )
      refl
