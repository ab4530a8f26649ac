-- ===== src/Murmur/X86.antt =====
-- `MurmurHash3_x86_32` and `MurmurHash3_x86_128`. The loop over the blocks runs from `-nblocks` to
-- 0 behind the last block, so over the blocks in order.
use adventure.Base.{ℕ, zero, suc, ◌+◌, ◌*◌, ◌/◌, bit_and, bit_xor, leb, if◌then◌else◌, u32}
use adventure.Memory.{Bytes}
use adventure.Murmur.{Host, rotl32, fmix32, tail_bytes}

-- `k *= a; k = ROTL32(k,r); k *= b;`
unfoldable pub scramble32 : (a r b k : ℕ) → ℕ
unfolding rotl32
scramble32 a r b k = u32 (rotl32 (u32 (k * a)) r * b)

-- A group of the tail, if the tail reaches it, scrambled into the lane `h`.
unfoldable pub tail_word : (d : Bytes) (base rest first bytes : ℕ) (scramble : ℕ → ℕ) → ℕ → ℕ
unfolding tail_bytes
tail_word d base rest first bytes scramble h =
    if leb (first + 1) rest then bit_xor h (scramble (tail_bytes d base rest first bytes 0)) else h

module _ (host : Host) (d : Bytes) where
  -- The body of `MurmurHash3_x86_32`, `left` blocks from block `i` on.
  unfoldable pub blocks32 : (left i h1 : ℕ) → ℕ
  unfolding scramble32
  blocks32 zero i h1 = h1
  blocks32 (suc left) i h1 =
      let k1 = scramble32 0xcc9e2d51 15 0x1b873593 (host.load32 d (4 * i)) in
      blocks32 left (i + 1) (u32 (rotl32 (bit_xor h1 k1) 13 * 5 + 0xe6546b64))

  unfoldable pub murmur_x86_32 : (len seed : ℕ) → ℕ
  unfolding blocks32 tail_word fmix32
  murmur_x86_32 len seed =
      let nblocks = len / 4 in
      let h1 = blocks32 nblocks 0 seed in
      let h2 =
        tail_word d (nblocks * 4) (bit_and len 3) 0 3 (scramble32 0xcc9e2d51 15 0x1b873593) h1 in
      fmix32 (bit_xor h2 (u32 len))

-- The four lanes of `MurmurHash3_x86_128`.
pub record Lanes : Type 0 where
  pub h1 : ℕ
  pub h2 : ℕ
  pub h3 : ℕ
  pub h4 : ℕ

abbrev c1 : ℕ
c1 = 0x239b961b

abbrev c2 : ℕ
c2 = 0xab0e9789

abbrev c3 : ℕ
c3 = 0x38b34ae5

abbrev c4 : ℕ
c4 = 0xa1e38b93

-- One round on `k1` to `k4`: each lane is mixed with the next, the last with the new first.
unfoldable pub round128 : (k1 k2 k3 k4 : ℕ) → Lanes → Lanes
unfolding scramble32 rotl32
round128 k1 k2 k3 k4 h =
    let a = u32 (u32 (rotl32 (bit_xor h.h1 (scramble32 c1 15 c2 k1)) 19 + h.h2) * 5 + 0x561ccd1b) in
    let b = u32 (u32 (rotl32 (bit_xor h.h2 (scramble32 c2 16 c3 k2)) 17 + h.h3) * 5 + 0x0bcaa747) in
    let c = u32 (u32 (rotl32 (bit_xor h.h3 (scramble32 c3 17 c4 k3)) 15 + h.h4) * 5 + 0x96cd1c35) in
    let e = u32 (u32 (rotl32 (bit_xor h.h4 (scramble32 c4 18 c1 k4)) 13 + a) * 5 + 0x32ac3b17) in
    record { h1 = a; h2 = b; h3 = c; h4 = e }

-- `h1 += h2; h1 += h3; h1 += h4; h2 += h1; h3 += h1; h4 += h1;`
unfoldable pub add_lanes : Lanes → Lanes
add_lanes h =
    let s = u32 (u32 (u32 (h.h1 + h.h2) + h.h3) + h.h4) in
    record { h1 = s; h2 = u32 (h.h2 + s); h3 = u32 (h.h3 + s); h4 = u32 (h.h4 + s) }

module _ (host : Host) (d : Bytes) where
  unfoldable pub blocks128 : (left i : ℕ) → Lanes → Lanes
  unfolding round128
  blocks128 zero i h = h
  blocks128 (suc left) i h = blocks128 left (i + 1) (
      round128 (host.load32 d (4 * (i * 4 + 0))) (host.load32 d (4 * (i * 4 + 1)))
        (host.load32 d (4 * (i * 4 + 2))) (host.load32 d (4 * (i * 4 + 3))) h)

  unfoldable pub tail128 : (base rest : ℕ) → Lanes → Lanes
  unfolding tail_word scramble32
  tail128 base rest h = record {
    h1 = tail_word d base rest 0 4 (scramble32 c1 15 c2) h.h1;
    h2 = tail_word d base rest 4 4 (scramble32 c2 16 c3) h.h2;
    h3 = tail_word d base rest 8 4 (scramble32 c3 17 c4) h.h3;
    h4 = tail_word d base rest 12 3 (scramble32 c4 18 c1) h.h4;
  }

  unfoldable pub murmur_x86_128 : (len seed : ℕ) → Lanes
  unfolding blocks128 tail128 add_lanes fmix32
  murmur_x86_128 len seed =
      let nblocks = len / 16 in
      let start : Lanes = record { h1 = seed; h2 = seed; h3 = seed; h4 = seed } in
      let t = tail128 (nblocks * 16) (bit_and len 15) (blocks128 nblocks 0 start) in
      let n = u32 len in
      let x : Lanes = record {
        h1 = bit_xor t.h1 n;
        h2 = bit_xor t.h2 n;
        h3 = bit_xor t.h3 n;
        h4 = bit_xor t.h4 n;
      } in
      let s = add_lanes x in
      add_lanes (record { h1 = fmix32 s.h1; h2 = fmix32 s.h2; h3 = fmix32 s.h3; h4 = fmix32 s.h4 })
