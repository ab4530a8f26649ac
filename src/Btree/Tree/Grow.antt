-- ===== src/Btree/Tree/Grow.antt =====
-- `btree_add` where the root is a full leaf: it is split, and a new root stands above both halves.
use adventure.Base.{
  ℕ, suc, ◌+◌, ◌^◌, ◌≤◌, ◌<◌, ◌≡◌, List, [], ◌∷◌, ◌++◌, some, none, refl, ◌∙◌, ap, inl, arith,
  length, ◌==◌, if◌then◌else◌, ne→==, Returns, returns, Returns-eq,
}
use adventure.Fs.{Os}
use adventure.Store.{Store}
use adventure.Store.Valid.{IsOpen}
use adventure.Page.Access.{header_read-ok}
use adventure.Btree.Leaf.Items.{Item, insert, value_of, Rises}
use adventure.Btree.Leaf.View.{used_bytes, LeafPage}
use adventure.Btree.Leaf.Taken.{Coming, at_end, waiting}
use adventure.Btree.Tree.{btree_recur_add, btree_add}
use adventure.Btree.Tree.Root.{root_leaf, leaf_header}
use adventure.Btree.Tree.Shape.{
  Tree, leaf, branch, nil, cons, page_of, items_of, items_behind, Stands, StandBehind,
}
use adventure.Btree.Tree.Order.{Within, Ordered, OrderedBehind, bound}
use adventure.Btree.Tree.Pages.{AllPages, AllBehind, Spread, SpreadBehind}
use adventure.Btree.Tree.Search.{Finds}
use adventure.Btree.Tree.Add.{Sound, Sound-Finds}
use adventure.Btree.Tree.Split.CopyIn.{no_root}
use adventure.Btree.Tree.Split.Cut.{left_half, right_half, mid_key}
use adventure.Btree.Tree.Split.Sides.{
  halves-items, left-Rises, left-Within, right-Rises, right-Within,
}
use adventure.Btree.Tree.Split.Root.{RootSplit, Grown, root-Split, root-Grown, many, mid-small}

module _ (os : Os) (k key val : ℕ) (small : key < 2 ^ 63) (fits : val < 2 ^ 64) (s : Store)
    (page : ℕ) (xs : List Item) (o : IsOpen s) (v : LeafPage s page root_leaf 64 xs)
    (rises : Rises 0 xs) (within : Within 0 (2 ^ 63) xs) (list : s.free_list ≡ some [])
    (new : value_of key xs ≡ none) (full : 64 < used_bytes (length xs) + 16)
    (space : s.end + 192 ≤ s.file.size) where
  abbrev grown : Tree
  grown =
      branch page 1 (leaf s.end (no_root root_leaf) (left_half key val xs))
        (cons (mid_key key xs) (leaf (s.end + 64) (no_root root_leaf) (right_half key val xs)) nil)

  grown-Sound : (h : Store) → Grown s page key val xs h → Sound h 64 1 h.end [] grown
  unfolding Stands StandBehind Spread SpreadBehind AllPages AllBehind Ordered OrderedBehind bound
  grown-Sound h a = record {
    open_store = a.IsOpen-after;
    stands = (a.root, refl, (a.left, refl), ((a.right, refl), tt));
    spread = (
      inl v.before_end,
      (inl (omega (arith, v.before_end)), tt),
      (inl (omega arith), tt),
      tt,
      (tt, tt, tt),
    );
    ordered = (
      (
        left-Rises key val (2 ^ 63) xs rises within new
            (many os k key val small fits s page xs o v rises within list new full space) small fits
            small,
        left-Within key val (2 ^ 63) xs rises within new
            (many os k key val small fits s page xs o v rises within list new full space) small fits
            small,
        omega arith,
      ),
      (
        (
          right-Rises key val (2 ^ 63) xs rises within new
              (many os k key val small fits s page xs o v rises within list new full space) small
              fits small,
          right-Within key val (2 ^ 63) xs rises within new
              (many os k key val small fits s page xs o v rises within list new full space) small
              fits small,
          omega (
            arith,
            mid-small os k key val small fits s page xs o v rises within list new full space,
          ),
        ),
        tt,
      ),
    );
    coming = (at_end a.none_free, at_end a.none_free, (at_end a.none_free, tt));
  }

  -- Through the whole call.
  recur-Split :
      Returns
        (λ x g. (x ≡ (mid_key key xs, s.end, s.end + 64)) × RootSplit s page key val xs g)
        (btree_recur_add os (suc k) 1 page key val 0 s)
  unfolding btree_recur_add
  recur-Split =
      rw (header_read-ok s o page (omega (arith, v.before_end, v.fits)), v.header)
        (rw (leaf_header s page root_leaf 64 xs o v refl)
          (root-Split os k key val small fits s page xs o v rises within list new full space))

  add-Grown :
      Returns
        (λ root h. (root ≡ page) × Grown s page key val xs h)
        (btree_add os (suc k) 1 page key val s)
  unfolding btree_add
  add-Grown =
      let (x, g, eq, a) = Returns-eq recur-Split in
      rw
        (ne→== page 0 (omega (arith, v.behind_header)), eq, a.0, ne→== (s.end + 64) 0 (omega arith))
        (root-Grown os k key val small fits s page xs o v rises within list new full space g a.1)

append_nil : (ys : List Item) → ys ++ [] ≡ ys
append_nil [] = refl
append_nil (y ∷ ys) = ap (λ zs. y ∷ zs) (append_nil ys)

Coming-list :
    (s : Store) (page size q : ℕ) (ps : List ℕ)
    → q ≡ s.end
    → 1 ≤ size
    → Coming s page size q ps
    → s.free_list ≡ some ps
Coming-list s page size q ps e some_size (at_end list) = list
Coming-list s page size q ps e some_size (waiting list behind inside apart) = absurd (omega arith)

-- On an open store in which the root of a tree is a leaf of 64 bytes, with its keys in order below
-- 2^63, no item of a new key below 2^63 and no room for one, with no freed page, a value below 2^64
-- and space for three pages in the file, btree_add with any fuel from 1 and one round of depth
-- returns the root of a tree of depth 1, a branch above two leaves, whose items from left to right
-- are the old ones with the new item in its place; its keys are in order, its pages are apart from
-- each other, no page is freed, and btree_find in it reaches, for the new key, its value, and for
-- every other key what it had.
pub btree_add_grow :
    (os : Os) (k key val : ℕ) (s : Store) (page : ℕ) (xs : List Item)
    → key < 2 ^ 63
    → val < 2 ^ 64
    → Sound s 64 0 s.end [] (leaf page root_leaf xs)
    → value_of key xs ≡ none
    → 64 < used_bytes (length xs) + 16
    → s.end + 192 ≤ s.file.size
    → Returns
        (λ root g.
          (u : Tree) × (root ≡ page_of u)
          × Sound g 64 1 g.end [] u
          × (items_of u ≡ insert key val xs)
          × Finds g 64 1 root (λ r. if key == r then some val else value_of r xs))
        (btree_add os (suc k) 1 page key val s)
unfolding items_of items_behind Stands Ordered AllPages
btree_add_grow os k key val s page xs small fits v new full space =
    let list = Coming-list s page 64 s.end [] refl (omega arith) v.coming in
    let (root, g, eq, a) = Returns-eq (
      add-Grown os k key val small fits s page xs v.open_store v.stands.0 v.ordered.0 v.ordered.1
        list new full space) in
    let u =
      grown os k key val small fits s page xs v.open_store v.stands.0 v.ordered.0 v.ordered.1 list
        new full space in
    let sound =
      grown-Sound os k key val small fits s page xs v.open_store v.stands.0 v.ordered.0 v.ordered.1
        list new full space g a.1 in
    let items : items_of u ≡ insert key val xs =
      ap (λ ys. left_half key val xs ++ ys) (append_nil (right_half key val xs))
      ∙ halves-items key val xs in
    rw (eq, a.0)
      (returns (u, refl, sound, items, Sound-Finds g 64 1 g.end [] u key val xs sound items new))
