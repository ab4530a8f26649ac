-- ===== src/Page.antt =====
-- Pages of the mapped file with a header word, as src/db/store/btree.c, bstack.c and bvec.c all
-- lay them out: the header's fields, and words of the page by their 16-bit offset (`item_p`).
pub mod Header
pub mod Access
use adventure.Base.{
  ℕ, ◌+◌, ◌-◌, ◌*◌, ◌^◌, bit_and, bit_or, shr, u8, u16, u64, Cmd, ok, pure, ◌>>=◌, ◌>>◌,
}
use adventure.Store.{Store, store_read_ui64, store_write_ui64, store_copy}

-- The header's fields: `(hdr >> 56) & 0xFFFF` and so on.
unfoldable pub pg_flags : ℕ → ℕ
pg_flags hdr = bit_and (shr hdr 56) 0xFFFF

unfoldable pub pg_size : ℕ → ℕ
pg_size hdr = bit_and (shr hdr 32) 0xFFFF

unfoldable pub pg_nkeys : ℕ → ℕ
pg_nkeys hdr = bit_and (shr hdr 16) 0xFFFF

unfoldable pub pg_used : ℕ → ℕ
pg_used hdr = bit_and (shr hdr 0) 0xFFFF

-- `PG_SIZE(hdr) - PG_USED(hdr)`, in 64 bits.
unfoldable pub pg_free : ℕ → ℕ
pg_free hdr = u64 (pg_size hdr + 2 ^ 64 - pg_used hdr)

-- The header word from the parameters of `btree_hdr_write`, cut to their C types.
unfoldable pub hdr_word : (flags sz_page n_keys used : ℕ) → ℕ
hdr_word flags sz_page n_keys used =
    bit_or
      (bit_or (bit_or (bit_or (u8 flags * 2 ^ 56) (16 * 2 ^ 48)) (u16 sz_page * 2 ^ 32))
        (u16 n_keys * 2 ^ 16))
      (u16 used)

-- A difference that is stored into an `item_p`.
abbrev pub sub16 : ℕ → ℕ → ℕ
sub16 a b = u16 (a + 2 ^ 64 - b)

unfoldable pub read_ui64 : (page i : ℕ) → Cmd Store ℕ
read_ui64 page i = store_read_ui64 (u64 (page + u16 i))

unfoldable pub write_ui64 : (page i n : ℕ) → Cmd Store (Unit {0})
write_ui64 page i n = store_write_ui64 (u64 (page + u16 i)) n

unfoldable pub copy : (dest di src si sz : ℕ) → Cmd Store (Unit {0})
copy dest di src si sz = store_copy (u64 (dest + u16 di)) (u64 (src + u16 si)) (u16 sz)

-- `btree_hdr_write` and `bvec_hdr_write` (which ignores its last parameter).
unfoldable pub hdr_write : (page flags sz_page n_keys used : ℕ) → Cmd Store (Unit {0})
unfolding hdr_word
hdr_write page flags sz_page n_keys used = write_ui64 page 0 (hdr_word flags sz_page n_keys used)
