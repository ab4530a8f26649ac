-- ===== src/Btree/Search.antt =====
-- Constants of src/db/store/btree.c and the scans of one page. The index of an item is a 16-bit
-- offset in the page; a scan that has no rounds left hangs.
use adventure.Base.{
  ℕ, zero, suc, ◌+◌, ◌-◌, ◌^◌, Bool, not, ltb, leb, ◌==◌, if◌then◌else◌, bit_and, bit_or, u16, u64,
  Cmd, ok, hang, pure, ◌>>=◌,
}
use adventure.Store.{Store}
use adventure.Page.{pg_flags, pg_used, read_ui64}

abbrev pub btree_def_page_size : ℕ
btree_def_page_size = 64

abbrev pub btree_header_size : ℕ
btree_header_size = 8

abbrev pub btree_root : ℕ
btree_root = 1

abbrev pub btree_leaf : ℕ
btree_leaf = 2

-- More rounds than a page of 65535 bytes has items.
abbrev pub page_rounds : ℕ
page_rounds = 8192

unfoldable pub is_leaf : ℕ → Bool
is_leaf hdr = not (bit_and (pg_flags hdr) btree_leaf == 0)

-- `key & ~(1ull << 63)`, `key & (1ull << 63)` and `key | (1ull << 63)`.
unfoldable pub key_get : ℕ → ℕ
key_get key = bit_and key (2 ^ 63 - 1)

unfoldable pub key_has_overflow : ℕ → Bool
key_has_overflow key = not (bit_and key (2 ^ 63) == 0)

unfoldable pub key_set_overflow : ℕ → ℕ
key_set_overflow key = bit_or key (2 ^ 63)

-- `while (item < PG_END(hdr) - sizeof(page_p))`, an unsigned 64-bit bound.
unfoldable pub branch_scan : (rounds page key hdr item : ℕ) → Cmd Store ℕ
branch_scan zero page key hdr item s = hang
branch_scan (suc r) page key hdr item s =
    let step = (do
      k ← read_ui64 page (item + 8)
      if ltb key k then pure item else branch_scan r page key hdr (u16 (item + 16))) in
    if ltb item (u64 (pg_used hdr + 2 ^ 64 - 8)) then step s else ok item s

unfoldable pub btree_branch_find : (page key : ℕ) → Cmd Store ℕ
unfolding branch_scan
btree_branch_find page key = do
  hdr ← read_ui64 page 0
  branch_scan page_rounds page key hdr btree_header_size

unfoldable pub leaf_scan : (rounds page key hdr item : ℕ) → Cmd Store ℕ
leaf_scan zero page key hdr item s = hang
leaf_scan (suc r) page key hdr item s =
    let step = (do
      k ← read_ui64 page item
      if leb key k then pure item else leaf_scan r page key hdr (u16 (item + 16))) in
    if ltb item (pg_used hdr) then step s else ok item s

unfoldable pub btree_leaf_find : (page key : ℕ) → Cmd Store ℕ
unfolding leaf_scan
btree_leaf_find page key = do
  hdr ← read_ui64 page 0
  leaf_scan page_rounds page key hdr btree_header_size
