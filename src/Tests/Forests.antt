-- ===== src/Tests/Forests.antt =====
-- A tree of a branch and two leaves, and the runs on it.
use adventure.Base.{
  ℕ, zero, suc, ◌+◌, ◌<◌, ◌≡◌, refl, inl, none, some, List, [], ◌∷◌, ◌==◌, if◌then◌else◌, arith,
  get_or, ok, Returns, ◌^◌,
}
use adventure.Memory.Words.{join64}
use adventure.Store.{Store}
use adventure.Store.Access.{word}
use adventure.Store.Valid.{IsOpen}
use adventure.Page.{hdr_word}
use adventure.Btree.Leaf.Items.{Item, Rises, value_of, insert}
use adventure.Btree.Leaf.View.{LeafPage, used_bytes}
use adventure.Btree.Leaf.Taken.{at_end}
use adventure.Btree.Branch.View.{Link, BranchPage, branch_bytes}
use adventure.Btree.Tree.{Cursor, btree_find, btree_add, btree_destroy}
use adventure.Btree.Tree.Shape.{
  Tree, leaf, branch, nil, cons, page_of, items_of, items_behind, pages_of, Stands, StandBehind,
  chosen,
}
use adventure.Btree.Tree.Order.{Within, bound, Ordered, OrderedBehind}
use adventure.Btree.Tree.Pages.{AllPages, AllBehind, Spread, SpreadBehind}
use adventure.Btree.Tree.Search.{Reached, Finds, btree_find_lem}
use adventure.Btree.Tree.Destroy.{with_list, free_all, btree_destroy_lem}
use adventure.Btree.Tree.Recur.{HasRoom, here, down}
use adventure.Btree.Tree.Add.{Sound, btree_add_lem}
use adventure.Tests.Machine.{machine}
use adventure.Tests.Stores.{mapped_file}
use adventure.Tests.Trees.{zeros, row}

-- The header of a page of 64 bytes.
abbrev pub header : (flags n used : ℕ) → List ℕ → List ℕ
header flags n used rest = flags ∷ 16 ∷ 0 ∷ 64 ∷ 0 ∷ n ∷ 0 ∷ used ∷ rest

abbrev pages : List ℕ
pages = header 1 1 32 (
    row 96 (
      row 6 (
        row 160 (
          zeros 32 (header 2 1 24 (row 5 (row 9 (zeros 40 (header 2 1 24 (row 6 (row 8 [])))))))))))

-- The root is at 32, a leaf with the item 5 at 96 and one with 6 at 160.
abbrev forest : Store
forest = record {
  magic = [];
  end = 224;
  file = mapped_file 512 λ a. get_or (zeros 13 (224 ∷ zeros 18 pages)) a 0;
  free_list = some [];
  free_root = 0;
}

abbrev low_items : List Item
low_items = (5, 9) ∷ []

abbrev high_items : List Item
high_items = (6, 8) ∷ []

abbrev root_links : List Link
root_links = (6, 160) ∷ []

abbrev low_leaf : Tree
low_leaf = leaf 96 2 low_items

abbrev high_leaf : Tree
high_leaf = leaf 160 2 high_items

abbrev two_leaves : Tree
two_leaves = branch 32 1 low_leaf (cons 6 high_leaf nil)

forest-IsOpen : IsOpen forest
unfolding join64
forest-IsOpen = record {
  live = refl;
  sized = refl;
  header = omega arith;
  within = omega arith;
  synced = refl;
  small = omega arith;
}

low_at :
    (i : ℕ)
    → i < 1
    → (word forest (96 + used_bytes i) ≡ (get_or low_items i (0, 0)).0)
      × (word forest (96 + used_bytes i + 8) ≡ (get_or low_items i (0, 0)).1)
unfolding join64
low_at zero lt = (refl, refl)
low_at (suc i) lt = absurd (omega arith)

high_at :
    (i : ℕ)
    → i < 1
    → (word forest (160 + used_bytes i) ≡ (get_or high_items i (0, 0)).0)
      × (word forest (160 + used_bytes i + 8) ≡ (get_or high_items i (0, 0)).1)
unfolding join64
high_at zero lt = (refl, refl)
high_at (suc i) lt = absurd (omega arith)

root_at :
    (i : ℕ)
    → i < 1
    → (word forest (32 + branch_bytes i) ≡ (get_or root_links i (0, 0)).0)
      × (word forest (32 + branch_bytes i + 8) ≡ (get_or root_links i (0, 0)).1)
unfolding join64
root_at zero lt = (refl, refl)
root_at (suc i) lt = absurd (omega arith)

low-LeafPage : LeafPage forest 96 2 64 low_items
unfolding join64 hdr_word
low-LeafPage = record {
  behind_header = omega arith;
  before_end = omega arith;
  byte_flags = omega arith;
  small_size = omega arith;
  whole = refl;
  fits = omega arith;
  header = refl;
  keys = λ i lt. (low_at i lt).0;
  vals = λ i lt. (low_at i lt).1;
}

high-LeafPage : LeafPage forest 160 2 64 high_items
unfolding join64 hdr_word
high-LeafPage = record {
  behind_header = omega arith;
  before_end = omega arith;
  byte_flags = omega arith;
  small_size = omega arith;
  whole = refl;
  fits = omega arith;
  header = refl;
  keys = λ i lt. (high_at i lt).0;
  vals = λ i lt. (high_at i lt).1;
}

root-BranchPage : BranchPage forest 32 1 64 96 root_links
unfolding join64 hdr_word
root-BranchPage = record {
  behind_header = omega arith;
  before_end = omega arith;
  byte_flags = omega arith;
  small_size = omega arith;
  fits = omega arith;
  header = refl;
  leftmost = refl;
  keys = λ i lt. (root_at i lt).0;
  children = λ i lt. (root_at i lt).1;
}

two_leaves-Stands : Stands forest 64 1 two_leaves
unfolding Stands StandBehind
two_leaves-Stands = (root-BranchPage, refl, (low-LeafPage, refl), ((high-LeafPage, refl), tt))

two_leaves-Ordered : Ordered 0 (2 ^ 63) two_leaves
unfolding Ordered OrderedBehind bound Within Rises
two_leaves-Ordered = (
  ((omega arith, omega arith, omega arith, tt), (omega arith, omega arith, tt), omega arith),
  (((omega arith, omega arith, omega arith, tt), (omega arith, omega arith, tt), omega arith), tt),
)

two_leaves-Sound : Sound forest 64 1 224 [] two_leaves
unfolding Spread SpreadBehind AllPages AllBehind
two_leaves-Sound = record {
  open_store = forest-IsOpen;
  stands = two_leaves-Stands;
  spread = (inl (omega arith), (inl (omega arith), tt), (inl (omega arith), tt), tt, (tt, tt, tt));
  ordered = two_leaves-Ordered;
  coming = (at_end refl, at_end refl, (at_end refl, tt));
}

btree_find_lem_example :
    (c : Cursor) × (btree_find 2 32 6 forest ≡ ok c forest)
    × Reached forest 64 6 (value_of 6 (items_of two_leaves)) c
btree_find_lem_example =
    btree_find_lem 1 forest 64 0 (2 ^ 63) 6 two_leaves forest-IsOpen two_leaves-Stands
      two_leaves-Ordered

btree_destroy_lem_example :
    btree_destroy 2 32 (with_list forest [])
    ≡ ok tt (with_list forest (free_all (pages_of two_leaves) []))
btree_destroy_lem_example =
    btree_destroy_lem 1 forest 64 two_leaves [] forest-IsOpen two_leaves-Stands

two_leaves-HasRoom : HasRoom 64 7 two_leaves
unfolding chosen
two_leaves-HasRoom = down (here {xs = high_items} (omega arith))

two_leaves_new : value_of 7 (items_of two_leaves) ≡ none
unfolding value_of items_of items_behind
two_leaves_new = refl

btree_add_lem_example :
    Returns
      (λ root g.
        (u : Tree) × (root ≡ page_of u)
        × Sound g 64 1 32 [] u
        × (items_of u ≡ insert 7 4 (items_of two_leaves))
        × Finds g 64 1 root (λ r. if 7 == r then some 4 else value_of r (items_of two_leaves)))
      (btree_add machine 1 2 32 7 4 forest)
btree_add_lem_example =
    btree_add_lem machine 0 7 4 (omega arith) (omega arith) forest 64 1 224 [] two_leaves
      two_leaves-Sound two_leaves-HasRoom two_leaves_new (omega arith)
