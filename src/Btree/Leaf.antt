-- ===== src/Btree/Leaf.antt =====
-- The leaf pages of src/db/store/btree.c: a key and a value in 16 bytes for each item. Functions
-- that write through `page_p *` return what they write. `fuel` bounds `store_alloc`.
pub mod Items
pub mod View
pub mod Find
pub mod Taken
pub mod Fill
pub mod Filled
pub mod Add
use adventure.Base.{
  ℕ, ◌+◌, ◌-◌, ◌*◌, ◌/◌, ◌^◌, ltb, leb, ◌==◌, ◌&&◌, ◌||◌, if◌then◌else◌, bit_and, u16, u32, Cmd,
  pure, ◌>>=◌, ◌>>◌,
}
use adventure.Fs.{Os}
use adventure.Store.{Store, store_alloc, store_free}
use adventure.Page.{
  pg_flags, pg_size, pg_nkeys, pg_used, pg_free, sub16, read_ui64, write_ui64, copy, hdr_write,
}
use adventure.Bstack.{bstack_create, bstack_add}
use adventure.Btree.Search.{
  btree_header_size, btree_leaf_find, key_get, key_has_overflow, key_set_overflow,
}

-- `PG_FLAGS(hdr) & ~btree_root`
unfoldable pub flags_not_root : ℕ → ℕ
flags_not_root hdr = bit_and (pg_flags hdr) (2 ^ 64 - 2)

-- The items of `src` from `si` to `ei`, with the new item at `i` if it belongs there.
unfoldable pub btree_leaf_copy_in : (dest src n_keys si ei key val i : ℕ) → Cmd Store (Unit {0})
unfolding flags_not_root
btree_leaf_copy_in dest src n_keys si ei key val i = do
  hdr ← read_ui64 src 0
  let inside = (si == btree_header_size || ltb si i) && leb i ei
  let n = if inside then n_keys + 1 else n_keys
  if inside
      then (do
        copy dest btree_header_size src si (sub16 i si)
        write_ui64 dest (sub16 (btree_header_size + i) si) key
        write_ui64 dest (sub16 (btree_header_size + i + 8) si) val
        copy dest (sub16 (btree_header_size + i + 16) si) src i (sub16 ei i))
      else copy dest btree_header_size src si (sub16 ei si)
  hdr_write dest (flags_not_root hdr) (pg_size hdr) n (n * 16 + btree_header_size)

module _ (os : Os) (fuel : ℕ) where
  -- The key to copy up, `*orig` and `*split`.
  unfoldable pub btree_leaf_split : (leaf key val : ℕ) → Cmd Store (ℕ × ℕ × ℕ)
  unfolding btree_leaf_copy_in
  btree_leaf_split leaf key val = do
    hdr ← read_ui64 leaf 0
    i ← btree_leaf_find leaf key
    orig ← store_alloc os fuel (pg_size hdr)
    split ← store_alloc os fuel (pg_size hdr)
    let n_left = pg_nkeys hdr / 2
    let m0 = u16 (16 * n_left + btree_header_size)
    let right = ltb m0 i
    let m = if right then u16 (m0 + 16) else m0
    let n_keys_left = if right then n_left + 1 else n_left
    let n_keys_right = u32 (pg_nkeys hdr + 2 ^ 32 - n_left - (if right then 1 else 0))
    mid ← read_ui64 leaf m
    btree_leaf_copy_in orig leaf n_keys_left btree_header_size m (key_get key) val i
    btree_leaf_copy_in split leaf n_keys_right m (pg_used hdr) (key_get key) val i
    store_free leaf
    pure (mid, orig, split)

  -- The stack of a key's values: the one it has, or a new one that holds its only value.
  overflow_of : (key prev_val : ℕ) → Cmd Store (ℕ × ℕ)
  overflow_of key prev_val = if key_has_overflow key then pure (key, prev_val) else (do
    fresh ← bstack_create os fuel
    overflow ← bstack_add os fuel fresh prev_val
    pure (key_set_overflow key, overflow))

  -- A further value of a key: the values go to a stack of overflow pages.
  unfoldable pub btree_leaf_add_dup : (page i key val : ℕ) → Cmd Store ℕ
  unfolding overflow_of
  btree_leaf_add_dup page i key val = do
    hdr ← read_ui64 page 0
    prev_val ← read_ui64 page (i + 8)
    (key', stack) ← overflow_of key prev_val
    overflow ← bstack_add os fuel stack val
    page_copy ← store_alloc os fuel (pg_size hdr)
    copy page_copy 0 page 0 i
    write_ui64 page_copy i key'
    write_ui64 page_copy (i + 8) overflow
    copy page_copy (u16 (i + 16)) page (u16 (i + 16)) (sub16 (pg_used hdr) (u16 (i + 16)))
    store_free page
    pure page_copy

  -- The copy of a leaf with the new item at `i`.
  unfoldable insert_item : (page hdr i key val : ℕ) → Cmd Store ℕ
  insert_item page hdr i key val = do
    page_copy ← store_alloc os fuel (pg_size hdr)
    hdr_write page_copy (pg_flags hdr) (pg_size hdr) (pg_nkeys hdr + 1) (pg_used hdr + 16)
    copy page_copy btree_header_size page btree_header_size (sub16 i btree_header_size)
    write_ui64 page_copy i key
    write_ui64 page_copy (i + 8) val
    copy page_copy (i + 16) page i (sub16 (pg_used hdr) i)
    store_free page
    pure page_copy

  -- The new page, or 0 if the leaf is full.
  unfoldable pub btree_leaf_add : (page key val : ℕ) → Cmd Store ℕ
  unfolding btree_leaf_add_dup insert_item
  btree_leaf_add page key val = do
    hdr ← read_ui64 page 0
    i ← btree_leaf_find page key
    next_key ← read_ui64 page i
    if ltb i (pg_used hdr) && key_get next_key == key
        then btree_leaf_add_dup page i next_key val
        else if ltb (pg_free hdr) 16
        then pure 0
        else insert_item page hdr i key val
