-- ===== src/Bvec.antt =====
-- src/db/store/bvec.c: the vector trie, of which the source has the creation of an empty page.
-- `bvec_get`, `bvec_add` and `bvec_destroy` are stubs there.
use adventure.Base.{ℕ, Cmd, pure, ◌>>=◌, ◌>>◌}
use adventure.Fs.{Os}
use adventure.Store.{Store, store_alloc}
use adventure.Page.{hdr_write}

abbrev pub bvec_def_page_size : ℕ
bvec_def_page_size = 64

abbrev pub bvec_header_size : ℕ
bvec_header_size = 8

pub record Cursor : Type 0 where
  pub page : ℕ
  pub index : ℕ

unfoldable pub bvec_create : Os → ℕ → Cmd Store ℕ
bvec_create os fuel = do
  page ← store_alloc os fuel bvec_def_page_size
  hdr_write page 0 bvec_def_page_size 0 bvec_header_size
  pure page

unfoldable pub bvec_get : (page index : ℕ) → Cmd Store Cursor
bvec_get page index = pure (record { page = 0; index = 0 })

unfoldable pub bvec_add : (page index val : ℕ) → Cmd Store ℕ
bvec_add page index val = pure page

unfoldable pub bvec_destroy : (page : ℕ) → Cmd Store (Unit {0})
bvec_destroy page = pure tt
