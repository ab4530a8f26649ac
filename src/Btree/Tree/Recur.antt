-- ===== src/Btree/Tree/Recur.antt =====
-- `btree_recur_add` in a tree of any depth, where the leaf has room: every page on the way is copied.
use adventure.Base.{
  ℕ, zero, suc, ◌+◌, ◌^◌, ◌≤◌, ◌<◌, ◌≡◌, sym, ◌∙◌, none, List, arith, length, Returns, Returns-eq,
}
use adventure.Fs.{Os}
use adventure.Store.{Store}
use adventure.Store.Valid.{IsOpen}
use adventure.Page.Access.{header_read-ok}
use adventure.Btree.Leaf.Items.{Item, value_of}
use adventure.Btree.Leaf.View.{used_bytes}
use adventure.Btree.Leaf.Taken.{Coming}
use adventure.Btree.Tree.{btree_recur_add}
use adventure.Btree.Tree.Root.{leaf_header}
use adventure.Btree.Tree.Shape.{
  Tree, leaf, branch, Trees, page_of, links, items_of, Stands, chosen, child_at-chosen,
  chosen-Stands,
}
use adventure.Btree.Tree.Order.{Ordered, value_of-chosen, chosen-Ordered}
use adventure.Btree.Tree.Pages.{AllPages, AllPages-chosen, Spread, chosen-Spread}
use adventure.Btree.Tree.Put.{put}
use adventure.Btree.Tree.Inside.{coming-Apart}
use adventure.Btree.Tree.Path.{Copied, btree_recur_add-down, leaf_part-Copied, branch_part-Copied}

-- The leaf that a search for `key` goes to has room for an item.
pub data HasRoom (size key : ℕ) : Tree → Type 0 where
  here :
      {page flags : ℕ} {xs : List Item}
      → used_bytes (length xs) + 16 ≤ size
      → HasRoom size key (leaf page flags xs)
  down :
      {page flags : ℕ} {t : Tree} {ts : Trees}
      → HasRoom size key (chosen t ts key)
      → HasRoom size key (branch page flags t ts)

module _ (os : Os) (k key val : ℕ) (small : key < 2 ^ 63) (fits : val < 2 ^ 64) where
  -- At any depth the tree is copied.
  pub btree_recur_add-Copied :
      (d : ℕ) (s : Store) (size lo hi q : ℕ) (ps : List ℕ) (t : Tree)
      → IsOpen s
      → Stands s size d t
      → Spread size t
      → Ordered lo hi t
      → AllPages (λ p. Coming s p size q ps) t
      → HasRoom size key t
      → value_of key (items_of t) ≡ none
      → s.end + size + size ≤ s.file.size
      → Returns
          (λ r g. (r ≡ (key, page_of (put key val q t), 0)) × Copied s size d key val q ps t g)
          (btree_recur_add os (suc k) (suc d) (page_of t) key val 0 s)
  unfolding btree_recur_add Stands Ordered AllPages items_of put Spread
  btree_recur_add-Copied zero s size lo hi q ps (leaf page flags xs) o v spread ordered coming
        (here room) new space =
      rw (header_read-ok s o page (omega (arith, v.0.before_end, v.0.fits)), v.0.header)
        (rw (leaf_header s page flags size xs o v.0 v.1) (
          leaf_part-Copied os k key val small fits s size page flags lo xs q ps o v.0 ordered.0 new
            room coming (omega (arith, space)) v.1))
  btree_recur_add-Copied zero s size lo hi q ps (branch page flags t ts) o v spread ordered coming
        room new space =
      absurd v
  btree_recur_add-Copied (suc d) s size lo hi q ps (leaf page flags xs) o v spread ordered coming
        room new space =
      absurd v
  btree_recur_add-Copied (suc d) s size lo hi q ps (branch page flags t ts) o v spread ordered
        coming (down room) new space =
      let (l, h, below) = chosen-Ordered lo hi key t ts ordered.0 ordered.1 in
      let (r, g, eq, b) = Returns-eq (
        btree_recur_add-Copied d s size l h q ps (chosen t ts key) o
          (chosen-Stands s size d t ts key v.2 v.3) (chosen-Spread size key t ts spread.3 spread.4)
          below (AllPages-chosen (λ p. Coming s p size q ps) t ts key coming.1 coming.2) room
          (sym (value_of-chosen lo hi key t ts ordered.0 ordered.1) ∙ new) space) in
      rw
        (
          btree_recur_add-down os (suc k) s page key val 0 flags size (page_of t) (links ts) o v.0
              v.1 (suc d),
          child_at-chosen t ts key,
          eq,
          b.0,
        )
        (branch_part-Copied os k key val small fits s g size d page flags q ps t ts o v spread
          (coming-Apart s size (suc d) (branch page flags t ts) q ps v coming) space b.1)
