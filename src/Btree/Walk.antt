-- ===== src/Btree/Walk.antt =====
-- The walks of src/db/store/btree.c over one page, `iter` being the callback. A walk that has no
-- rounds left hangs.
use adventure.Base.{ℕ, zero, suc, ◌+◌, ltb, if◌then◌else◌, u16, Cmd, ok, hang, ◌>>=◌, ◌>>◌}
use adventure.Store.{Store}
use adventure.Page.{pg_used, read_ui64}
use adventure.Btree.Search.{btree_header_size, page_rounds}

-- The loop over the keys of a branch, each with the child behind it.
unfoldable pub branch_walk :
    (iter : (pre key post : ℕ) → Cmd Store (Unit {0})) (rounds page hdr item : ℕ)
    → Cmd Store (Unit {0})
branch_walk iter zero page hdr item s = hang
branch_walk iter (suc r) page hdr item s =
    let step = (do
      key ← read_ui64 page item
      sub ← read_ui64 page (item + 8)
      iter 0 key sub
      branch_walk iter r page hdr (u16 (item + 16))) in
    if ltb item (pg_used hdr) then step s else ok tt s

-- The first child stands alone.
unfoldable pub btree_branch_walk :
    (page : ℕ) (iter : (pre key post : ℕ) → Cmd Store (Unit {0})) → Cmd Store (Unit {0})
unfolding branch_walk
btree_branch_walk page iter = do
  hdr ← read_ui64 page 0
  sub ← read_ui64 page btree_header_size
  iter sub 0 0
  branch_walk iter page_rounds page hdr (btree_header_size + 8)

-- The loop over the items of a leaf.
unfoldable pub leaf_walk :
    (iter : (key val : ℕ) → Cmd Store (Unit {0})) (rounds page hdr item : ℕ) → Cmd Store (Unit {0})
leaf_walk iter zero page hdr item s = hang
leaf_walk iter (suc r) page hdr item s =
    let step = (do
      key ← read_ui64 page item
      val ← read_ui64 page (item + 8)
      iter key val
      leaf_walk iter r page hdr (u16 (item + 16))) in
    if ltb item (pg_used hdr) then step s else ok tt s

unfoldable pub btree_leaf_walk :
    (page : ℕ) (iter : (key val : ℕ) → Cmd Store (Unit {0})) → Cmd Store (Unit {0})
unfolding leaf_walk
btree_leaf_walk page iter = do
  hdr ← read_ui64 page 0
  leaf_walk iter page_rounds page hdr btree_header_size
