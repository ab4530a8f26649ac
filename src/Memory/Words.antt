-- ===== src/Memory/Words.antt =====
-- Big-endian words in memory: the bytes that src/db/store/store.h writes and the value that it
-- reads back, with the shifts and the `|` of the source.
use adventure.Base.{
  ℕ, ◌+◌, ◌*◌, ◌^◌, ◌≤◌, ◌<◌, ◌≡◌, refl, ◌∙◌, ap, ◌⊎◌, bit_or, List, [], ◌∷◌, arith, u8, u16, u32,
  u64, shr, length,
}
use adventure.Bits.{bit_or-eq-add}
use adventure.Memory.{Bytes, pokes, pokes_first, pokes_inside, pokes_outside}

-- `ptr[0] = n >> 8; ptr[1] = n;`
abbrev pub split16 : ℕ → List ℕ
split16 n = u8 (shr n 8) ∷ u8 n ∷ []

-- `ptr[0] = n >> 24; … ptr[3] = n;`
abbrev pub split32 : ℕ → List ℕ
split32 n = u8 (shr n 24) ∷ u8 (shr n 16) ∷ u8 (shr n 8) ∷ u8 n ∷ []

-- `ptr[0] = n >> 56; … ptr[7] = n;`
abbrev pub split64 : ℕ → List ℕ
split64 n =
    u8 (shr n 56)
    ∷ u8 (shr n 48)
    ∷ u8 (shr n 40)
    ∷ u8 (shr n 32)
    ∷ u8 (shr n 24)
    ∷ u8 (shr n 16)
    ∷ u8 (shr n 8)
    ∷ u8 n
    ∷ []

-- `(ptr[0] << 8) | (ptr[1] << 0)`
unfoldable pub join16 : Bytes → ℕ → ℕ
join16 m p = u16 (bit_or (u8 (m p) * 2 ^ 8) (u8 (m (p + 1))))

unfoldable pub join32 : Bytes → ℕ → ℕ
join32 m p = u32 (
    bit_or (bit_or (bit_or (u8 (m p) * 2 ^ 24) (u8 (m (p + 1)) * 2 ^ 16)) (u8 (m (p + 2)) * 2 ^ 8))
      (u8 (m (p + 3))))

-- The eight bytes are `uint64_t` before they are shifted, so no bit is lost.
unfoldable pub join64 : Bytes → ℕ → ℕ
join64 m p =
    bit_or
      (bit_or
        (bit_or
          (bit_or
            (bit_or
              (bit_or (bit_or (u8 (m p) * 2 ^ 56) (u8 (m (p + 1)) * 2 ^ 48))
                (u8 (m (p + 2)) * 2 ^ 40))
              (u8 (m (p + 3)) * 2 ^ 32))
            (u8 (m (p + 4)) * 2 ^ 24))
          (u8 (m (p + 5)) * 2 ^ 16))
        (u8 (m (p + 6)) * 2 ^ 8))
      (u8 (m (p + 7)))

join16-eq-sum : (m : Bytes) (p : ℕ) → join16 m p ≡ u8 (m p) * 2 ^ 8 + u8 (m (p + 1))
unfolding join16
join16-eq-sum m p =
    omega (arith, bit_or-eq-add 8 (u8 (m p) * 2 ^ 8) (u8 (m (p + 1))) (omega arith) (omega arith))

join32-eq-sum :
    (m : Bytes) (p : ℕ)
    → join32 m p
      ≡ u8 (m p) * 2 ^ 24 + u8 (m (p + 1)) * 2 ^ 16 + u8 (m (p + 2)) * 2 ^ 8 + u8 (m (p + 3))
unfolding join32
join32-eq-sum m p =
    let b0 = u8 (m p) in
    let b1 = u8 (m (p + 1)) in
    let b2 = u8 (m (p + 2)) in
    let b3 = u8 (m (p + 3)) in
    rw
      (
        bit_or-eq-add 24 (b0 * 2 ^ 24) (b1 * 2 ^ 16) (omega arith) (omega arith),
        bit_or-eq-add 16 (b0 * 2 ^ 24 + b1 * 2 ^ 16) (b2 * 2 ^ 8) (omega arith) (omega arith),
        bit_or-eq-add 8 (b0 * 2 ^ 24 + b1 * 2 ^ 16 + b2 * 2 ^ 8) b3 (omega arith) (omega arith),
      )
      (omega arith)

abbrev sum64 : Bytes → ℕ → ℕ
sum64 m p =
    u8 (m p) * 2 ^ 56
    + u8 (m (p + 1)) * 2 ^ 48
    + u8 (m (p + 2)) * 2 ^ 40
    + u8 (m (p + 3)) * 2 ^ 32
    + u8 (m (p + 4)) * 2 ^ 24
    + u8 (m (p + 5)) * 2 ^ 16
    + u8 (m (p + 6)) * 2 ^ 8
    + u8 (m (p + 7))

-- One more byte joined to a sum whose low bits are clear.
join64-eq-sum : (m : Bytes) (p : ℕ) → join64 m p ≡ sum64 m p
unfolding join64
join64-eq-sum m p =
    let b0 : ℕ = u8 (m p) * 2 ^ 56 in
    let b1 : ℕ = u8 (m (p + 1)) * 2 ^ 48 in
    let b2 : ℕ = u8 (m (p + 2)) * 2 ^ 40 in
    let b3 : ℕ = u8 (m (p + 3)) * 2 ^ 32 in
    let b4 : ℕ = u8 (m (p + 4)) * 2 ^ 24 in
    let b5 : ℕ = u8 (m (p + 5)) * 2 ^ 16 in
    let b6 : ℕ = u8 (m (p + 6)) * 2 ^ 8 in
    let b7 : ℕ = u8 (m (p + 7)) in
    rw
      (
        bit_or-eq-add 56 b0 b1 (omega arith) (omega arith),
        bit_or-eq-add 48 (b0 + b1) b2 (omega arith) (omega arith),
        bit_or-eq-add 40 (b0 + b1 + b2) b3 (omega arith) (omega arith),
        bit_or-eq-add 32 (b0 + b1 + b2 + b3) b4 (omega arith) (omega arith),
        bit_or-eq-add 24 (b0 + b1 + b2 + b3 + b4) b5 (omega arith) (omega arith),
        bit_or-eq-add 16 (b0 + b1 + b2 + b3 + b4 + b5) b6 (omega arith) (omega arith),
        bit_or-eq-add 8 (b0 + b1 + b2 + b3 + b4 + b5 + b6) b7 (omega arith) (omega arith),
      )
      refl

-- Eight base-256 digits make up a 64-bit word.
digits64 :
    (n : ℕ)
    → u8 (u8 (shr n 56)) * 2 ^ 56
        + u8 (u8 (shr n 48)) * 2 ^ 48
        + u8 (u8 (shr n 40)) * 2 ^ 40
        + u8 (u8 (shr n 32)) * 2 ^ 32
        + u8 (u8 (shr n 24)) * 2 ^ 24
        + u8 (u8 (shr n 16)) * 2 ^ 16
        + u8 (u8 (shr n 8)) * 2 ^ 8
        + u8 (u8 n)
      ≡ u64 n
digits64 n = omega arith

module _ (m : Bytes) (p n : ℕ) where
  -- What is written as a word reads back as that word, cut to its width.
  pub join16-pokes : join16 (pokes m p (split16 n)) p ≡ u16 n
  join16-pokes =
      join16-eq-sum _ p
      ∙ omega (arith, pokes_first m p _ (u8 n ∷ []), pokes_inside m p (split16 n) 1 (omega arith))

  pub join32-pokes : join32 (pokes m p (split32 n)) p ≡ u32 n
  join32-pokes =
      join32-eq-sum _ p
      ∙ omega (
        arith,
        pokes_first m p (u8 (shr n 24)) (u8 (shr n 16) ∷ u8 (shr n 8) ∷ u8 n ∷ []),
        pokes_inside m p (split32 n) 1 (omega arith),
        pokes_inside m p (split32 n) 2 (omega arith),
        pokes_inside m p (split32 n) 3 (omega arith),
      )

  pub join64-pokes : join64 (pokes m p (split64 n)) p ≡ u64 n
  join64-pokes =
      join64-eq-sum _ p
      ∙ rw
          (
            pokes_inside m p (split64 n) 1 (omega arith),
            pokes_inside m p (split64 n) 2 (omega arith),
            pokes_inside m p (split64 n) 3 (omega arith),
            pokes_inside m p (split64 n) 4 (omega arith),
            pokes_inside m p (split64 n) 5 (omega arith),
            pokes_inside m p (split64 n) 6 (omega arith),
            pokes_inside m p (split64 n) 7 (omega arith),
            pokes_first,
          )
          (digits64 n)

-- A word depends on its own eight bytes only.
pub join64_ext :
    (m g : Bytes) (p q : ℕ) → ((i : ℕ) → i < 8 → g (q + i) ≡ m (p + i)) → join64 g q ≡ join64 m p
join64_ext m g p q h =
    join64-eq-sum g q ∙ omega (arith, join64-eq-sum m p, first, h 1, h 2, h 3, h 4, h 5, h 6, h 7)
  where
    first : g q ≡ m p
    first = ap g (omega arith) ∙ h 0 (omega arith) ∙ ap m (omega arith)

-- A run written elsewhere leaves the word alone.
pub join64-pokes_outside :
    (m : Bytes) (p q : ℕ) (bs : List ℕ)
    → (q + 8 ≤ p) ⊎ (p + length bs ≤ q)
    → join64 (pokes m p bs) q ≡ join64 m q
join64-pokes_outside m p q bs h =
    join64_ext m (pokes m p bs) q q (λ i lt. pokes_outside m p bs (q + i) (omega arith))

pub join64-lt : (m : Bytes) (p : ℕ) → join64 m p < 2 ^ 64
join64-lt m p = omega (arith, join64-eq-sum m p)
