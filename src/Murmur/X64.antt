-- ===== src/Murmur/X64.antt =====
-- `MurmurHash3_x64_128`.
use adventure.Base.{ℕ, zero, suc, ◌+◌, ◌*◌, ◌/◌, bit_and, bit_xor, leb, if◌then◌else◌, u64}
use adventure.Memory.{Bytes}
use adventure.Murmur.{Host, rotl64, fmix64, tail_bytes}

abbrev c1 : ℕ
c1 = 0x87c37b91114253d5

abbrev c2 : ℕ
c2 = 0x4cf5ad432745937f

unfoldable pub scramble64 : (a r b k : ℕ) → ℕ
unfolding rotl64
scramble64 a r b k = u64 (rotl64 (u64 (k * a)) r * b)

module _ (host : Host) (d : Bytes) where
  -- The lanes `h1` and `h2` after `left` blocks from block `i` on.
  unfoldable pub blocks64 : (left i : ℕ) → ℕ × ℕ → ℕ × ℕ
  unfolding scramble64
  blocks64 zero i h = h
  blocks64 (suc left) i (h1, h2) =
      let k1 = scramble64 c1 31 c2 (host.load64 d (8 * (i * 2 + 0))) in
      let k2 = scramble64 c2 33 c1 (host.load64 d (8 * (i * 2 + 1))) in
      let a = u64 (u64 (rotl64 (bit_xor h1 k1) 27 + h2) * 5 + 0x52dce729) in
      let b = u64 (u64 (rotl64 (bit_xor h2 k2) 31 + a) * 5 + 0x38495ab5) in
      blocks64 left (i + 1) (a, b)

  unfoldable pub murmur_x64_128 : (len seed : ℕ) → ℕ × ℕ
  unfolding blocks64 tail_bytes fmix64
  murmur_x64_128 len seed =
      let nblocks = len / 16 in
      let base = nblocks * 16 in
      let rest = bit_and len 15 in
      let (b1, b2) = blocks64 nblocks 0 (seed, seed) in
      let t2 =
        (if leb 9 rest
          then bit_xor b2 (scramble64 c2 33 c1 (tail_bytes d base rest 8 7 0))
          else b2) in
      let t1 =
        (if leb 1 rest
          then bit_xor b1 (scramble64 c1 31 c2 (tail_bytes d base rest 0 8 0))
          else b1) in
      let x1 = bit_xor t1 (u64 len) in
      let x2 = bit_xor t2 (u64 len) in
      let s1 = u64 (x1 + x2) in
      let s2 = u64 (x2 + s1) in
      let f1 = fmix64 s1 in let f2 = fmix64 s2 in let r1 = u64 (f1 + f2) in (r1, u64 (f2 + r1))
