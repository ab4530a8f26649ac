-- ===== src/Page/Header.antt =====
-- The header word of a page: each field reads back as it was written.
use adventure.Base.{ℕ, ◌+◌, ◌*◌, ◌^◌, ◌<◌, ◌≡◌, refl, ◌∙◌, arith, u8, u16, shr}
use adventure.Bits.{bit_or-eq-add, bit_and_mask}
use adventure.Page.{pg_flags, pg_size, pg_nkeys, pg_used, hdr_word}

-- The fields as quotients.
pub pg_flags-eq : (hdr : ℕ) → pg_flags hdr ≡ u16 (shr hdr 56)
unfolding pg_flags
pg_flags-eq hdr = bit_and_mask 16 (shr hdr 56)

pub pg_size-eq : (hdr : ℕ) → pg_size hdr ≡ u16 (shr hdr 32)
unfolding pg_size
pg_size-eq hdr = bit_and_mask 16 (shr hdr 32)

pub pg_nkeys-eq : (hdr : ℕ) → pg_nkeys hdr ≡ u16 (shr hdr 16)
unfolding pg_nkeys
pg_nkeys-eq hdr = bit_and_mask 16 (shr hdr 16)

pub pg_used-eq : (hdr : ℕ) → pg_used hdr ≡ u16 hdr
unfolding pg_used
pg_used-eq hdr = bit_and_mask 16 (shr hdr 0) ∙ omega arith

pub hdr_word-eq :
    (flags sz n used : ℕ)
    → hdr_word flags sz n used
      ≡ u8 flags * 2 ^ 56 + 16 * 2 ^ 48 + u16 sz * 2 ^ 32 + u16 n * 2 ^ 16 + u16 used
unfolding hdr_word
hdr_word-eq flags sz n used =
    let f : ℕ = u8 flags * 2 ^ 56 in
    let u : ℕ = 16 * 2 ^ 48 in
    let s : ℕ = u16 sz * 2 ^ 32 in
    let k : ℕ = u16 n * 2 ^ 16 in
    rw
      (
        bit_or-eq-add 56 f u (omega arith) (omega arith),
        bit_or-eq-add 48 (f + u) s (omega arith) (omega arith),
        bit_or-eq-add 32 (f + u + s) k (omega arith) (omega arith),
        bit_or-eq-add 16 (f + u + s + k) (u16 used) (omega arith) (omega arith),
      )
      refl

-- The fields of a header word, of which `header` says what they are.
pub record Fields (hdr flags sz n used : ℕ) : Type 0 where
  pub flags_field : pg_flags hdr ≡ flags
  pub size_field : pg_size hdr ≡ sz
  pub nkeys_field : pg_nkeys hdr ≡ n
  pub used_field : pg_used hdr ≡ used

-- From a header word that was built from flags below 2^8 and a size, a number of keys and a used
-- count below 2^16, PG_FLAGS, PG_SIZE, PG_NKEYS and PG_USED read those four numbers back.
pub hdr_word-Fields :
    (flags sz n used : ℕ)
    → flags < 2 ^ 8
    → sz < 2 ^ 16
    → n < 2 ^ 16
    → used < 2 ^ 16
    → Fields (hdr_word flags sz n used) flags sz n used
hdr_word-Fields flags sz n used hf hs hn hu =
    let e = hdr_word-eq flags sz n used in
    record {
      flags_field = omega (arith, e, pg_flags-eq (hdr_word flags sz n used));
      size_field = omega (arith, e, pg_size-eq (hdr_word flags sz n used));
      nkeys_field = omega (arith, e, pg_nkeys-eq (hdr_word flags sz n used));
      used_field = omega (arith, e, pg_used-eq (hdr_word flags sz n used));
    }

pub hdr_word-lt : (flags sz n used : ℕ) → hdr_word flags sz n used < 2 ^ 64
hdr_word-lt flags sz n used = omega (arith, hdr_word-eq flags sz n used)
