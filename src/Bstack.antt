-- ===== src/Bstack.antt =====
-- src/db/store/bstack.c: the copy-on-write stack of values in pages, used for the overflow pages
-- of the tree. `bstack_find` and `bstack_destroy` are empty in the source.
use adventure.Base.{ℕ, ◌+◌, ltb, ◌==◌, if◌then◌else◌, Cmd, pure, ◌>>=◌, ◌>>◌}
use adventure.Fs.{Os}
use adventure.Store.{Store, store_alloc, store_free}
use adventure.Page.{
  pg_flags, pg_size, pg_nkeys, pg_used, pg_free, hdr_word, read_ui64, write_ui64, copy,
}

abbrev pub bstack_def_page_size : ℕ
bstack_def_page_size = 64

abbrev pub bstack_header_size : ℕ
bstack_header_size = 16

pub record Cursor : Type 0 where
  pub page : ℕ
  pub index : ℕ

unfoldable pub bstack_hdr_write :
    (page flags sz_page n_keys used next_ptr : ℕ) → Cmd Store (Unit {0})
bstack_hdr_write page flags sz_page n_keys used next_ptr = do
  write_ui64 page 0 (hdr_word flags sz_page n_keys used)
  write_ui64 page 8 next_ptr

module _ (os : Os) (fuel : ℕ) where
  unfoldable pub bstack_create : Cmd Store ℕ
  unfolding bstack_hdr_write
  bstack_create = do
    page ← store_alloc os fuel bstack_def_page_size
    bstack_hdr_write page 0 bstack_def_page_size 0 bstack_header_size 0
    pure page

  -- A page that has no room for one more value.
  push_full : (page val hdr page_copy : ℕ) → Cmd Store ℕ
  push_full page val hdr page_copy = do
    bstack_hdr_write page_copy (pg_flags hdr) (pg_size hdr) 1 (bstack_header_size + 8) page
    write_ui64 page_copy bstack_header_size val
    pure page_copy

  -- A page that has room. The copy is of `end` bytes from the first item on, not of the items only.
  push_room : (page val hdr next page_copy : ℕ) → Cmd Store ℕ
  push_room page val hdr next page_copy = do
    bstack_hdr_write page_copy (pg_flags hdr) (pg_size hdr) (pg_nkeys hdr + 1) (pg_used hdr + 8)
        next
    copy page_copy bstack_header_size page bstack_header_size (pg_used hdr)
    write_ui64 page_copy (pg_used hdr) val
    store_free page
    pure page_copy

  unfoldable pub bstack_add : (page val : ℕ) → Cmd Store ℕ
  unfolding push_full push_room bstack_hdr_write
  bstack_add page val = if page == 0 then pure page else do
    hdr ← read_ui64 page 0
    next ← read_ui64 page 8
    page_copy ← store_alloc os fuel (pg_size hdr)
    if ltb (pg_free hdr) 8
        then push_full page val hdr page_copy
        else push_room page val hdr next page_copy

-- Not implemented in the source: the cursor is always at no page.
unfoldable pub bstack_find : (page val : ℕ) → Cmd Store Cursor
bstack_find page val = pure (record { page = 0; index = 0 })

unfoldable pub bstack_destroy : (page : ℕ) → Cmd Store (Unit {0})
bstack_destroy page = pure tt
