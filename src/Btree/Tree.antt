-- ===== src/Btree/Tree.antt =====
-- The operations of src/db/store/btree.c on a whole tree. `depth` bounds the levels that a call
-- goes down, `fuel` the rounds of `store_alloc`; 0 is no page.
pub mod Root
pub mod Shape
pub mod Order
pub mod Search
pub mod Destroy
pub mod Pages
pub mod Put
pub mod Disjoint
pub mod Copied
pub mod Inside
pub mod Path
pub mod Recur
pub mod Add
pub mod Split
pub mod Grow
use adventure.Base.{
  ℕ, zero, suc, ◌+◌, ltb, ◌==◌, if◌then◌else◌, u16, Cmd, ok, hang, pure, ◌>>=◌, ◌>>◌,
}
use adventure.Fs.{Os}
use adventure.Store.{Store, store_alloc, store_free}
use adventure.Page.{pg_used, read_ui64, hdr_write}
use adventure.Btree.Search.{
  btree_def_page_size, btree_header_size, btree_root, btree_leaf, page_rounds, is_leaf,
  btree_branch_find, btree_leaf_find,
}
use adventure.Btree.Leaf.{btree_leaf_split, btree_leaf_add}
use adventure.Btree.Branch.{btree_root_create, btree_branch_split, btree_branch_add}

-- `struct bt_cur`
pub record Cursor : Type 0 where
  pub page : ℕ
  pub index : ℕ

abbrev pub cursor : ℕ → ℕ → Cursor
cursor page index = record { page = page; index = index }

module _ (os : Os) (fuel : ℕ) where
  unfoldable pub btree_create : Cmd Store ℕ
  btree_create = do
    root ← store_alloc os fuel btree_def_page_size
    hdr_write root (btree_leaf + btree_root) btree_def_page_size 0 btree_header_size
    pure root

  -- The leaf's part: the key, `*orig` and `*split`, which stays as the caller set it if the leaf
  -- is not split.
  unfoldable leaf_part : (page key val split : ℕ) → Cmd Store (ℕ × ℕ × ℕ)
  leaf_part page key val split = do
    orig ← btree_leaf_add os fuel page key val
    if orig == 0 then btree_leaf_split os fuel page key val else pure (key, orig, split)

  -- The branch's part, from what the call for the child gave.
  unfoldable branch_part : (page index : ℕ) → ℕ × ℕ × ℕ → Cmd Store (ℕ × ℕ × ℕ)
  branch_part page index (mid, orig, split) = do
    branch_copy ← btree_branch_add os fuel page index mid orig split
    if branch_copy == 0
        then btree_branch_split os fuel page index mid orig split
        else pure (mid, branch_copy, 0)

  unfoldable pub btree_recur_add : (depth page key val split : ℕ) → Cmd Store (ℕ × ℕ × ℕ)
  unfolding leaf_part branch_part
  btree_recur_add zero page key val split s = hang
  btree_recur_add (suc d) page key val split s =
      let down = (do
        index ← btree_branch_find page key
        sub ← read_ui64 page index
        below ← btree_recur_add d sub key val split
        branch_part page index below) in
      (do hdr ← read_ui64 page 0; if is_leaf hdr then leaf_part page key val split else down) s

  -- The new root.
  unfoldable pub btree_add : (depth root key val : ℕ) → Cmd Store ℕ
  unfolding btree_recur_add
  btree_add depth root key val = if root == 0 then pure root else do
    (mid, orig, split) ← btree_recur_add depth root key val 0
    if split == 0 then pure orig else btree_root_create os fuel mid orig split

-- Where the scans lead a search for `key`.
unfoldable pub btree_find : (depth root key : ℕ) → Cmd Store Cursor
btree_find zero root key s = hang
btree_find (suc d) root key s =
    let down = (do
      index ← btree_branch_find root key
      sub ← read_ui64 root index
      btree_find d sub key) in
    let here = (do
      hdr ← read_ui64 root 0
      if is_leaf hdr
          then (do index ← btree_leaf_find root key; pure (cursor root index))
          else down) in
    if root == 0 then ok (cursor 0 0) s else here s

-- The children behind the first: `destroy` frees a sub-tree.
unfoldable destroy_rest :
    (destroy : ℕ → Cmd Store (Unit {0})) (rounds page hdr item : ℕ) → Cmd Store (Unit {0})
destroy_rest destroy zero page hdr item s = hang
destroy_rest destroy (suc r) page hdr item s =
    let step = (do
      sub ← read_ui64 page (item + 8)
      destroy sub
      destroy_rest destroy r page hdr (u16 (item + 16))) in
    if ltb item (pg_used hdr) then step s else ok tt s

unfoldable pub btree_destroy : (depth page : ℕ) → Cmd Store (Unit {0})
unfolding destroy_rest
btree_destroy zero page s = hang
btree_destroy (suc d) page s =
    let children = (λ (hdr : ℕ). do
      sub ← read_ui64 page btree_header_size
      btree_destroy d sub
      destroy_rest (btree_destroy d) page_rounds page hdr (btree_header_size + 8)
      store_free page) in
    (do hdr ← read_ui64 page 0; if is_leaf hdr then store_free page else children hdr) s
