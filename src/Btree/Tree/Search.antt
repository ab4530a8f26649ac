-- ===== src/Btree/Tree/Search.antt =====
-- `btree_find` in a tree of any depth.
use adventure.Base.{
  ℕ, zero, suc, ◌+◌, ◌*◌, ◌≡◌, refl, sym, ◌∙◌, ap, false, Option, List, arith, length, ne→==, ok,
  subst,
}
use adventure.Store.{Store}
use adventure.Store.Valid.{IsOpen}
use adventure.Page.{hdr_word}
use adventure.Page.Access.{header_read-ok, page_read-ok}
use adventure.Btree.Search.{is_leaf}
use adventure.Btree.Leaf.Items.{Item, value_of}
use adventure.Btree.Leaf.View.{LeafPage, leaf_flag}
use adventure.Btree.Branch.View.{
  Link, BranchPage, BranchPage-Fields, branch_bytes, find_link, find_link-le, child_at, child_word,
}
use adventure.Btree.Branch.Find.{btree_branch_find-eq}
use adventure.Btree.Tree.{Cursor, cursor, btree_find}
use adventure.Btree.Tree.Root.{Ends, btree_find-Ends}
use adventure.Btree.Tree.Shape.{
  Tree, leaf, branch, page_of, links, items_of, Stands, chosen, child_at-chosen, chosen-Stands,
}
use adventure.Btree.Tree.Order.{Ordered, value_of-chosen, chosen-Ordered}

-- The branch's part of a search: it goes on in the child before the first key above `key`.
module _ (s : Store) (page key flags size first : ℕ) (ls : List Link) (o : IsOpen s)
    (v : BranchPage s page flags size first ls) (tagged : leaf_flag flags ≡ false) where
  pub branch_header : is_leaf (hdr_word flags size (length ls) (branch_bytes (length ls))) ≡ false
  unfolding is_leaf
  branch_header = ap leaf_flag (BranchPage-Fields s page flags size first ls v).flags_field ∙ tagged

  btree_find-down :
      (d : ℕ)
      → btree_find (suc d) page key s ≡ btree_find d (child_at first ls (find_link key ls)) key s
  unfolding btree_find
  btree_find-down d = rw (ne→== page 0 (omega (arith, v.behind_header))) (
      rw (header_read-ok s o page (omega (arith, v.before_end, v.fits)), v.header)
        (rw branch_header (
          rw (btree_branch_find-eq s page key flags size first ls o v) (
            rw
              (page_read-ok s o page (8 + 16 * find_link key ls)
                (omega (arith, find_link-le key ls, v.fits, v.small_size))
                (omega (arith, find_link-le key ls, v.fits, v.before_end)))
              (rw (child_word s page flags size first ls (find_link key ls) v (find_link-le key ls))
                refl)))))

-- The cursor stands in a leaf page of the tree, where the key's item is or would be.
pub record Reached (s : Store) (size key : ℕ) (value : Option ℕ) (c : Cursor) : Type 0 where
  pub flags : ℕ
  pub xs : List Item
  pub leaf_page : LeafPage s c.page flags size xs
  pub ends : Ends s c.page (length xs) key value c.index

-- A search for each key ends where the item with its value is, or where there is none.
abbrev pub Finds : (g : Store) (size d root : ℕ) → (value : ℕ → Option ℕ) → Type 0
Finds g size d root value =
    (key : ℕ)
    → (c : Cursor) × (btree_find (suc d) root key g ≡ ok c g) × Reached g size key (value key) c

-- In an open store in which a tree of any depth d stands with its keys in order, btree_find with d
-- + 1 rounds of depth returns, changes nothing, and its cursor stands in a leaf page: at the key's
-- item with its value, if the tree's items from left to right have one, and at the end or at an
-- item of another key otherwise.
pub btree_find_lem :
    (d : ℕ) (s : Store) (size lo hi key : ℕ) (t : Tree)
    → IsOpen s
    → Stands s size d t
    → Ordered lo hi t
    → (c : Cursor) × (btree_find (suc d) (page_of t) key s ≡ ok c s)
      × Reached s size key (value_of key (items_of t)) c
unfolding Stands Ordered items_of
btree_find_lem zero s size lo hi key (leaf page flags xs) o v ordered =
    let (i, found, e) = btree_find-Ends s page flags size xs o v.0 v.1 lo ordered.0 key 0 in
    (cursor page i, found, record { flags = flags; xs = xs; leaf_page = v.0; ends = e })
btree_find_lem zero s size lo hi key (branch page flags t ts) o v ordered = absurd v
btree_find_lem (suc d) s size lo hi key (leaf page flags xs) o v ordered = absurd v
btree_find_lem (suc d) s size lo hi key (branch page flags t ts) o v ordered =
    let (l, h, below) = chosen-Ordered lo hi key t ts ordered.0 ordered.1 in
    let (c, found, r) =
      btree_find_lem d s size l h key (chosen t ts key) o (chosen-Stands s size d t ts key v.2 v.3)
        below in
    (
      c,
      btree_find-down s page key flags size (page_of t) (links ts) o v.0 v.1 (suc d)
          ∙ ap (λ (q : ℕ). btree_find (suc d) q key s) (child_at-chosen t ts key)
          ∙ found,
      subst (λ r. Reached s size key r c) (sym (value_of-chosen lo hi key t ts ordered.0 ordered.1))
          r,
    )
