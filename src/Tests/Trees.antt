-- ===== src/Tests/Trees.antt =====
-- A tree of one leaf, with room for two items more and full, and the runs on it.
use adventure.Base.{
  ℕ, zero, suc, ◌+◌, ◌<◌, ◌≡◌, refl, inr, none, some, List, [], ◌∷◌, ◌==◌, if◌then◌else◌, arith,
  get_or, ok, Returns, ◌≤◌, ◌*◌,
}
use adventure.Memory.Words.{join64}
use adventure.Store.{Store}
use adventure.Store.Access.{word}
use adventure.Store.Valid.{IsOpen}
use adventure.Page.{hdr_word}
use adventure.Btree.Search.{btree_leaf_find}
use adventure.Btree.Leaf.{btree_leaf_add}
use adventure.Btree.Leaf.Items.{Item, Rises, value_of, find_item, insert}
use adventure.Btree.Leaf.View.{LeafPage, used_bytes}
use adventure.Btree.Leaf.Find.{btree_leaf_find-eq}
use adventure.Btree.Leaf.Taken.{Coming, at_end}
use adventure.Btree.Leaf.Add.{Inserted, btree_leaf_add-Inserted}
use adventure.Btree.Tree.{btree_add, btree_create}
use adventure.Btree.Tree.Root.{OneLeaf, btree_add-OneLeaf, btree_create-OneLeaf}
use adventure.Tests.Machine.{machine, machine-Grants}
use adventure.Tests.Stores.{mapped_file}

abbrev pub zeros : ℕ → List ℕ → List ℕ
zeros zero rest = rest
zeros (suc n) rest = 0 ∷ zeros n rest

-- A word below 256.
abbrev pub row : ℕ → List ℕ → List ℕ
row b rest = zeros 7 (b ∷ rest)

-- The root is at 32, with the first `n` of the items 5, 6 and 7 and their values 9, 8 and 7.
abbrev tree_file : (n : ℕ) → Store
tree_file n = record {
  magic = [];
  end = 96;
  file = mapped_file 128 λ a.
      get_or
        (zeros 13 (
          96
          ∷ zeros 18 (
              3
              ∷ 16
              ∷ 0
              ∷ 64
              ∷ 0
              ∷ n
              ∷ 0
              ∷ (8 + 16 * n)
              ∷ row 5 (row 9 (row 6 (row 8 (row 7 (row 7 []))))))))
        a 0;
  free_list = some [];
  free_root = 0;
}

tree_file-IsOpen : (n : ℕ) → IsOpen (tree_file n)
unfolding join64
tree_file-IsOpen n = record {
  live = refl;
  sized = refl;
  header = omega arith;
  within = omega arith;
  synced = refl;
  small = omega arith;
}

abbrev one_item : List Item
one_item = (5, 9) ∷ []

abbrev pub three_items : List Item
three_items = (5, 9) ∷ (6, 8) ∷ (7, 7) ∷ []

one_item_at :
    (i : ℕ)
    → i < 1
    → (word (tree_file 1) (32 + used_bytes i) ≡ (get_or one_item i (0, 0)).0)
      × (word (tree_file 1) (32 + used_bytes i + 8) ≡ (get_or one_item i (0, 0)).1)
unfolding join64
one_item_at zero lt = (refl, refl)
one_item_at (suc i) lt = absurd (omega arith)

three_items_at :
    (i : ℕ)
    → i < 3
    → (word (tree_file 3) (32 + used_bytes i) ≡ (get_or three_items i (0, 0)).0)
      × (word (tree_file 3) (32 + used_bytes i + 8) ≡ (get_or three_items i (0, 0)).1)
unfolding join64
three_items_at zero lt = (refl, refl)
three_items_at (suc zero) lt = (refl, refl)
three_items_at (suc (suc zero)) lt = (refl, refl)
three_items_at (suc (suc (suc i))) lt = absurd (omega arith)

one_item-LeafPage : LeafPage (tree_file 1) 32 3 64 one_item
unfolding join64 hdr_word
one_item-LeafPage = record {
  behind_header = omega arith;
  before_end = omega arith;
  byte_flags = omega arith;
  small_size = omega arith;
  whole = refl;
  fits = omega arith;
  header = refl;
  keys = λ i lt. (one_item_at i lt).0;
  vals = λ i lt. (one_item_at i lt).1;
}

three_items-LeafPage : LeafPage (tree_file 3) 32 3 64 three_items
unfolding join64 hdr_word
three_items-LeafPage = record {
  behind_header = omega arith;
  before_end = omega arith;
  byte_flags = omega arith;
  small_size = omega arith;
  whole = refl;
  fits = omega arith;
  header = refl;
  keys = λ i lt. (three_items_at i lt).0;
  vals = λ i lt. (three_items_at i lt).1;
}

one_item-Rises : Rises 0 one_item
unfolding Rises
one_item-Rises = (omega arith, omega arith, omega arith, tt)

three_items-Rises : Rises 0 three_items
unfolding Rises
three_items-Rises = (
  omega arith,
  omega arith,
  omega arith,
  (omega arith, omega arith, omega arith, (omega arith, omega arith, omega arith, tt)),
)

one_item_new : value_of 7 one_item ≡ none
unfolding value_of
one_item_new = refl

three_items_new : value_of 8 three_items ≡ none
unfolding value_of
three_items_new = refl

btree_leaf_find-eq_example :
    (btree_leaf_find 32 6 (tree_file 3) ≡ ok (used_bytes (find_item 6 three_items)) (tree_file 3))
    × (used_bytes (find_item 6 three_items) ≤ used_bytes 3)
btree_leaf_find-eq_example =
    btree_leaf_find-eq (tree_file 3) 32 6 3 64 three_items (tree_file-IsOpen 3) three_items-LeafPage

btree_leaf_add-Inserted_example :
    Returns
      (Inserted (tree_file 1) 32 3 64 one_item 7 4 96 [])
      (btree_leaf_add machine 2 32 7 4 (tree_file 1))
btree_leaf_add-Inserted_example =
    btree_leaf_add-Inserted machine-Grants (omega arith) 1 (tree_file 1) 32 7 4 3 64 one_item
      (tree_file-IsOpen 1) (at_end refl) one_item-LeafPage one_item-Rises one_item_new (omega arith)
      (omega arith) (omega arith) (omega arith) (omega arith)

btree_add-OneLeaf_example :
    Returns
      (λ p g.
        OneLeaf 64 (insert 7 4 one_item) (λ q. if 7 == q then some 4 else value_of q one_item) p g
        × Coming g p 64 32 [])
      (btree_add machine 2 1 32 7 4 (tree_file 1))
btree_add-OneLeaf_example =
    btree_add-OneLeaf machine-Grants (omega arith) 1 (tree_file 1) 32 7 4 64 one_item
      (tree_file-IsOpen 1) (at_end refl) one_item-LeafPage one_item-Rises one_item_new (omega arith)
      (omega arith) (omega arith) (omega arith) (omega arith)

btree_create-OneLeaf_example :
    Returns (OneLeaf 64 [] (λ q. none)) (btree_create machine 2 (tree_file 1))
btree_create-OneLeaf_example =
    btree_create-OneLeaf machine-Grants (omega arith) 1 (tree_file 1) (tree_file-IsOpen 1)
      (inr refl) (omega arith) (omega arith)
