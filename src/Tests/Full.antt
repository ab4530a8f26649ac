-- ===== src/Tests/Full.antt =====
-- A tree of one full leaf, and the run that splits it.
use adventure.Base.{
  ℕ, zero, suc, ◌+◌, ◌<◌, ◌≡◌, refl, none, some, [], ◌∷◌, ◌==◌, if◌then◌else◌, arith, get_or,
  Returns,
}
use adventure.Memory.Words.{join64}
use adventure.Store.{Store}
use adventure.Store.Access.{word}
use adventure.Page.{hdr_word}
use adventure.Btree.Leaf.Items.{Rises, value_of, insert}
use adventure.Btree.Leaf.View.{LeafPage, used_bytes}
use adventure.Btree.Leaf.Taken.{at_end}
use adventure.Btree.Tree.{btree_add}
use adventure.Btree.Tree.Shape.{Tree, leaf, page_of, items_of, Stands}
use adventure.Btree.Tree.Order.{Within, Ordered}
use adventure.Btree.Tree.Pages.{AllPages, Spread}
use adventure.Btree.Tree.Search.{Finds}
use adventure.Btree.Tree.Add.{Sound}
use adventure.Btree.Tree.Grow.{btree_add_grow}
use adventure.Tests.Machine.{machine}
use adventure.Tests.Stores.{mapped_file}
use adventure.Tests.Trees.{zeros, row, three_items}
use adventure.Tests.Forests.{header}

-- The root is a full leaf.
abbrev full_file : Store
full_file = record {
  magic = [];
  end = 96;
  file = mapped_file 512 λ a.
      get_or
        (zeros 13
          (96 ∷ zeros 18 (header 3 3 56 (row 5 (row 9 (row 6 (row 8 (row 7 (row 7 [])))))))))
        a 0;
  free_list = some [];
  free_root = 0;
}

full_at :
    (i : ℕ)
    → i < 3
    → (word full_file (32 + used_bytes i) ≡ (get_or three_items i (0, 0)).0)
      × (word full_file (32 + used_bytes i + 8) ≡ (get_or three_items i (0, 0)).1)
unfolding join64
full_at zero lt = (refl, refl)
full_at (suc zero) lt = (refl, refl)
full_at (suc (suc zero)) lt = (refl, refl)
full_at (suc (suc (suc i))) lt = absurd (omega arith)

full-LeafPage : LeafPage full_file 32 3 64 three_items
unfolding join64 hdr_word
full-LeafPage = record {
  behind_header = omega arith;
  before_end = omega arith;
  byte_flags = omega arith;
  small_size = omega arith;
  whole = refl;
  fits = omega arith;
  header = refl;
  keys = λ i lt. (full_at i lt).0;
  vals = λ i lt. (full_at i lt).1;
}

full-Sound : Sound full_file 64 0 96 [] (leaf 32 3 three_items)
unfolding join64 Stands Spread Ordered Within Rises AllPages
full-Sound = record {
  open_store = record {
    live = refl;
    sized = refl;
    header = omega arith;
    within = omega arith;
    synced = refl;
    small = omega arith;
  };
  stands = (full-LeafPage, refl);
  spread = tt;
  ordered = (
    (
      omega arith,
      omega arith,
      omega arith,
      (omega arith, omega arith, omega arith, (omega arith, omega arith, omega arith, tt)),
    ),
    (omega arith, omega arith, (omega arith, omega arith, (omega arith, omega arith, tt))),
    omega arith,
  );
  coming = at_end refl;
}

full_new : value_of 8 three_items ≡ none
unfolding value_of
full_new = refl

btree_add_grow_example :
    Returns
      (λ root g.
        (u : Tree) × (root ≡ page_of u)
        × Sound g 64 1 g.end [] u
        × (items_of u ≡ insert 8 4 three_items)
        × Finds g 64 1 root (λ r. if 8 == r then some 4 else value_of r three_items))
      (btree_add machine 1 1 32 8 4 full_file)
btree_add_grow_example =
    btree_add_grow machine 0 8 4 full_file 32 three_items (omega arith) (omega arith) full-Sound
      full_new (omega arith) (omega arith)
