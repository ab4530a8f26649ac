-- ===== src/Btree/Branch.antt =====
-- The branch pages of src/db/store/btree.c: child pointers with a key between two of them. `orig`
-- and `split` are the pages below that a child was rewritten to, `split` 0 if it was not split.
pub mod View
pub mod Find
pub mod Replace
pub mod Replaced
pub mod Root
use adventure.Base.{
  ℕ, ◌+◌, ◌-◌, ◌*◌, ◌/◌, not, ltb, leb, ◌==◌, ◌&&◌, ◌||◌, if◌then◌else◌, u16, u32, ◌^◌, Cmd, pure,
  ◌>>=◌, ◌>>◌,
}
use adventure.Fs.{Os}
use adventure.Store.{Store, store_alloc, store_free}
use adventure.Page.{
  pg_flags, pg_size, pg_nkeys, pg_used, pg_free, sub16, read_ui64, write_ui64, copy, hdr_write,
}
use adventure.Btree.Search.{btree_header_size, btree_def_page_size, btree_root}
use adventure.Btree.Leaf.{flags_not_root}

unfoldable pub btree_root_create : Os → (fuel mid orig split : ℕ) → Cmd Store ℕ
btree_root_create os fuel mid orig split = do
  root ← store_alloc os fuel btree_def_page_size
  hdr_write root btree_root btree_def_page_size 1 (btree_header_size + 24)
  write_ui64 root btree_header_size orig
  write_ui64 root (btree_header_size + 8) mid
  write_ui64 root (btree_header_size + 16) split
  pure root

-- The pointers and keys of `src` from `si` to `ei`, with `orig key split` in place of the pointer
-- at `i` if it stands there.
unfoldable pub btree_branch_copy_up :
    (dest src n_keys si ei key orig split i : ℕ) → Cmd Store (Unit {0})
btree_branch_copy_up dest src n_keys si ei key orig split i = do
  hdr ← read_ui64 src 0
  let inside = leb si i && (not (si == btree_header_size) || ltb i ei)
  let n = if inside then n_keys + 1 else n_keys
  if inside
      then (do
        copy dest btree_header_size src si (sub16 i si)
        write_ui64 dest (sub16 (btree_header_size + i) si) orig
        write_ui64 dest (sub16 (btree_header_size + i + 8) si) key
        write_ui64 dest (sub16 (btree_header_size + i + 16) si) split
        let i' = u16 (i + 8)
        copy dest (sub16 (btree_header_size + i' + 16) si) src i' (sub16 ei i'))
      else copy dest btree_header_size src si (sub16 ei si)
  hdr_write dest (flags_not_root hdr) (pg_size hdr) n (n * 16 + btree_header_size + 8)

module _ (os : Os) (fuel : ℕ) where
  -- The key to copy up, `*orig` and `*split`.
  unfoldable pub btree_branch_split : (branch idx key orig split : ℕ) → Cmd Store (ℕ × ℕ × ℕ)
  unfolding btree_branch_copy_up
  btree_branch_split branch idx key orig split = do
    hdr ← read_ui64 branch 0
    left ← store_alloc os fuel (pg_size hdr)
    right ← store_alloc os fuel (pg_size hdr)
    let n_left = pg_nkeys hdr / 2
    let m0 = u16 (16 * n_left + btree_header_size + 8)
    let beyond = ltb m0 idx
    let m = if beyond then u16 (m0 + 16) else m0
    let n_keys_left = if beyond then n_left + 1 else n_left
    let n_keys_right = u32 (pg_nkeys hdr + 2 ^ 32 - n_left - (if beyond then 1 else 0))
    mid ← read_ui64 branch m
    btree_branch_copy_up left branch n_keys_left btree_header_size m key orig split idx
    btree_branch_copy_up right branch (u32 (n_keys_right + 2 ^ 32 - 1)) (u16 (m + 8)) (pg_used hdr)
        key orig split idx
    store_free branch
    pure (mid, left, right)

  -- The copy of a branch with `orig` at `idx`, and behind it `key` and `split` if there is one.
  unfoldable replace_child : (branch hdr idx key orig split : ℕ) → Cmd Store ℕ
  replace_child branch hdr idx key orig split = do
    branch_copy ← store_alloc os fuel (pg_size hdr)
    let offset = if split == 0 then 0 else 16
    let n_keys = if split == 0 then pg_nkeys hdr else pg_nkeys hdr + 1
    copy branch_copy btree_header_size branch btree_header_size (sub16 idx btree_header_size)
    write_ui64 branch_copy idx orig
    if split == 0
        then pure tt
        else (do write_ui64 branch_copy (idx + 8) key; write_ui64 branch_copy (idx + 16) split)
    copy branch_copy (idx + 8 + offset) branch (idx + 8) (sub16 (pg_used hdr) (idx + 8))
    hdr_write branch_copy (pg_flags hdr) (pg_size hdr) n_keys (pg_used hdr + offset)
    store_free branch
    pure branch_copy

  -- The new page, or 0 if the branch has no room for a split child.
  unfoldable pub btree_branch_add : (branch idx key orig split : ℕ) → Cmd Store ℕ
  unfolding replace_child
  btree_branch_add branch idx key orig split = do
    hdr ← read_ui64 branch 0
    if not (split == 0) && ltb (pg_free hdr) 16
        then pure 0
        else replace_child branch hdr idx key orig split
