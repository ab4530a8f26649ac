-- ===== src/Btree/Tree/Add.antt =====
-- `btree_add` in a tree of any depth, where the leaf has room.
use adventure.Base.{
  ℕ, suc, ◌+◌, ◌^◌, ◌≤◌, ◌<◌, ◌≡◌, List, refl, ◌∙◌, ap, none, some, arith, ne→==, ◌==◌,
  if◌then◌else◌, subst, Returns, returns, Returns-eq,
}
use adventure.Fs.{Os}
use adventure.Store.{Store}
use adventure.Store.Valid.{IsOpen}
use adventure.Btree.Leaf.Items.{Item, insert, value_of, value_of-insert}
use adventure.Btree.Leaf.Taken.{Coming, waiting}
use adventure.Btree.Tree.{btree_add}
use adventure.Btree.Tree.Shape.{Tree, page_of, items_of, Stands}
use adventure.Btree.Tree.Order.{Ordered}
use adventure.Btree.Tree.Pages.{AllPages, AllPages-map, AllPages-page_of, Apart, Spread}
use adventure.Btree.Tree.Put.{put, items_of-put, put-Ordered}
use adventure.Btree.Tree.Disjoint.{AllPages-put_Apart, put-Spread, swap}
use adventure.Btree.Tree.Inside.{Stands-inside, Stands-behind, coming-Apart}
use adventure.Btree.Tree.Path.{Copied}
use adventure.Btree.Tree.Recur.{HasRoom, btree_recur_add-Copied}
use adventure.Btree.Tree.Search.{Finds, Reached, btree_find_lem}

-- The tree `t` stands in `s`, in order, on pages that do not overlap each other or the page to come.
pub record Sound (s : Store) (size d q : ℕ) (ps : List ℕ) (t : Tree) : Type 0 where
  pub open_store : IsOpen s
  pub stands : Stands s size d t
  pub spread : Spread size t
  pub ordered : Ordered 0 (2 ^ 63) t
  pub coming : AllPages (λ p. Coming s p size q ps) t

-- After an insertion the searches find the new item, and for every other key what was there.
pub Sound-Finds :
    (g : Store) (size d q : ℕ) (ps : List ℕ) (u : Tree) (key val : ℕ) (xs : List Item)
    → Sound g size d q ps u
    → items_of u ≡ insert key val xs
    → value_of key xs ≡ none
    → Finds g size d (page_of u) (λ r. if key == r then some val else value_of r xs)
Sound-Finds g size d q ps u key val xs sound items new r =
    let (c, found, reached) =
      btree_find_lem d g size 0 (2 ^ 63) r u sound.open_store sound.stands sound.ordered in
    (
      c,
      found,
      subst (λ w. Reached g size r w c) (ap (value_of r) items ∙ value_of-insert key val xs r new)
          reached,
    )

module _ (os : Os) (k key val : ℕ) (small : key < 2 ^ 63) (fits : val < 2 ^ 64) (s : Store)
    (size d q : ℕ) (ps : List ℕ) (t : Tree) (v : Sound s size d q ps t) where
  out : AllPages (λ p. Apart size p q) t
  out = coming-Apart s size d t q ps v.stands v.coming

  Copied-Sound :
      (g : Store)
      → value_of key (items_of t) ≡ none
      → Copied s size d key val q ps t g
      → Sound g size d (page_of t) ps (put key val q t)
  Copied-Sound g new b = record {
    open_store = b.IsOpen-after;
    stands = b.stands;
    spread = put-Spread key val q size t out v.spread;
    ordered = put-Ordered key val q small fits 0 (2 ^ 63) t v.ordered (omega arith) small new;
    coming =
        AllPages-map
          (λ p apart.
            waiting b.freed (Stands-behind s size d t v.stands)
              (omega (arith, root_inside, b.longer)) (swap key val q size (page_of t) p apart))
          (put key val q t) (AllPages-put_Apart key val q size t out v.spread);
  }
    where
      root_inside : page_of t + size ≤ s.end
      root_inside = AllPages-page_of (λ p. p + size ≤ s.end) t (Stands-inside s size d t v.stands)

  -- On an open store in which a tree of any depth d stands, with its pages apart from each other
  -- and from the page to come (no page is freed, or one waits in front of the free list), its keys
  -- in order below 2^63 and no item of a new key below 2^63, where the leaf that the search for the
  -- key goes to has room, a value below 2^64 and space for two pages in the file, btree_add with
  -- any fuel from 1 and d + 1 rounds of depth returns the root of a tree of that depth whose items
  -- from left to right are the old ones with the new item in its place; the same conditions hold of
  -- it, the old root now being the page to come, and btree_find in it reaches, for the new key, its
  -- value, and for every other key what it had.
  pub btree_add_lem :
      HasRoom size key t
      → value_of key (items_of t) ≡ none
      → s.end + size + size ≤ s.file.size
      → Returns
          (λ root g.
            (u : Tree) × (root ≡ page_of u)
            × Sound g size d (page_of t) ps u
            × (items_of u ≡ insert key val (items_of t))
            × Finds g size d root (λ r. if key == r then some val else value_of r (items_of t)))
          (btree_add os (suc k) (suc d) (page_of t) key val s)
  unfolding btree_add
  btree_add_lem room new space =
      let (r, g, eq, b) = Returns-eq (
        btree_recur_add-Copied os k key val small fits d s size 0 (2 ^ 63) q ps t v.open_store
          v.stands v.spread v.ordered v.coming room new space) in
      let sound = Copied-Sound g new b.1 in
      let items = items_of-put key val q 0 (2 ^ 63) t v.ordered small in
      rw (ne→== (page_of t) 0 (omega (arith, Stands-behind s size d t v.stands)), eq, b.0)
        (returns (
          put key val q t,
          refl,
          sound,
          items,
          Sound-Finds g size d (page_of t) ps (put key val q t) key val (items_of t) sound items
              new,
        ))
