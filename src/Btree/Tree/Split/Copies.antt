-- ===== src/Btree/Tree/Split/Copies.antt =====
-- The two copies that `btree_leaf_split` makes.
use adventure.Base.{
  ℕ, ◌+◌, ◌-◌, ◌*◌, ◌^◌, ◌≤◌, ◌<◌, ◌≡◌, ◌⊎◌, List, refl, ◌∙◌, inl, inr, arith, leb, length, take,
  drop, Bool-cases, subst, Returns, returns, Returns-eq, le→leb, le→ltb, lt→leb, lt→ltb, leb→le,
  leb→lt, ne→==, Cmd, ◌>>◌,
}
use adventure.Store.{Store, bytes_of}
use adventure.Store.Valid.{IsOpen}
use adventure.Btree.Leaf.{btree_leaf_copy_in}
use adventure.Btree.Leaf.Items.{Item, find_item, find_item-le, insert}
use adventure.Btree.Leaf.View.{used_bytes, LeafPage}
use adventure.Btree.Tree.Pages.{LeafPage-kept}
use adventure.Btree.Tree.Split.Items.{HasItems, LeafPage-HasItems}
use adventure.Btree.Tree.Split.CopyIn.{no_root}
use adventure.Btree.Tree.Split.Half.{Half, Half-without, Half-with}
use adventure.Btree.Tree.Split.Halves.{
  length-take, length-drop, take-HasItems, drop-HasItems, find_item-take, find_item-drop,
}
use adventure.Btree.Tree.Split.Cut.{cut, cut-lt, cut-ge, left_half, right_half}

-- Both copies, of `m` items and of those behind.
abbrev pub halves_copied : (page p r key val f m n : ℕ) → Cmd Store (Unit {0})
halves_copied page p r key val f m n =
    btree_leaf_copy_in p page m 8 (used_bytes m) key val (used_bytes f)
    >> btree_leaf_copy_in r page (n - m) (used_bytes m) (used_bytes n) key val (used_bytes f)

-- The items `ls` and `rs` are in the leaves at `p` and `r` of `g`, the rest of `s` is as it was.
pub record LeafSplit (s : Store) (flags size : ℕ) (ls rs : List Item) (p r : ℕ) (g : Store)
    : Type 0 where
  pub IsOpen-after : IsOpen g
  pub left : LeafPage g p (no_root flags) size ls
  pub right : LeafPage g r (no_root flags) size rs
  pub same_end : g.end ≡ s.end
  pub same_size : g.file.size ≡ s.file.size
  pub same_list : g.free_list ≡ s.free_list
  pub kept :
      (a : ℕ) → (a < p) ⊎ (p + size ≤ a) → (a < r) ⊎ (r + size ≤ a) → bytes_of g a ≡ bytes_of s a

module _ (s : Store) (page p r key val flags size : ℕ) (xs : List Item) (o : IsOpen s)
    (v : LeafPage s page flags size xs) (byte : no_root flags < 2 ^ 8) (behind_p : 32 ≤ p)
    (behind_r : 32 ≤ r) (inside_p : p + size ≤ s.end) (inside_r : r + size ≤ s.end)
    (apart_p : (page + size ≤ p) ⊎ (p + size ≤ page))
    (apart_r : (page + size ≤ r) ⊎ (r + size ≤ page)) (apart : (p + size ≤ r) ⊎ (r + size ≤ p))
    (small : key < 2 ^ 64) (fits : val < 2 ^ 64) (many : 3 ≤ length xs) where
  abbrev n : ℕ
  n = length xs

  abbrev f : ℕ
  f = find_item key xs

  abbrev m : ℕ
  m = cut f n

  le : m ≤ n
  le = omega (arith, cut-lt f n many)

  drop-length : length (drop m xs) ≡ n - m
  drop-length = omega (arith, length-drop m xs le)

  -- After the first copy, the old leaf and then the second copy's.
  second :
      (g : Store) (ls rs : List Item)
      → Half s p (no_root flags) size ls g
      → ((h : HasItems g (page + (8 + 16 * m)) (drop m xs)) (w : LeafPage g page flags size xs)
          → Returns
              (λ _ k. Half g r (no_root flags) size rs k)
              (btree_leaf_copy_in r page
                (n - m)
                (used_bytes m)
                (used_bytes n)
                key
                val
                (used_bytes f)
                g))
      → Returns
          (λ _ k. LeafSplit s flags size ls rs p r k)
          (btree_leaf_copy_in r page (n - m) (used_bytes m) (used_bytes n) key val (used_bytes f) g)
  second g ls rs a next =
      let w =
        LeafPage-kept s g size (omega (arith, a.same_end)) page flags xs
          (λ c lo hi behind lt. a.kept c (omega arith)) v in
      let h : HasItems g (page + (8 + 16 * m)) (drop m xs) =
        subst (λ q. HasItems g q (drop m xs)) (omega arith)
          (drop-HasItems g (page + 8) m xs le (LeafPage-HasItems g page flags size xs w)) in
      let (u, k, eq, b) = Returns-eq (next h w) in
      rw eq (
        returns record {
          IsOpen-after = b.IsOpen-after;
          left =
              LeafPage-kept g k size (omega (arith, b.same_end)) p (no_root flags) ls
                (λ c lo hi behind lt. b.kept c (omega arith)) a.leaf;
          right = b.leaf;
          same_end = b.same_end ∙ a.same_end;
          same_size = b.same_size ∙ a.same_size;
          same_list = b.same_list ∙ a.same_list;
          kept = λ c out_p out_r. b.kept c out_r ∙ a.kept c out_p;
        })

  first_items : HasItems s (page + (8 + 16 * 0)) (take m xs)
  first_items = take-HasItems s (page + 8) m xs le (LeafPage-HasItems s page flags size xs v)

  take-length : length (take m xs) ≡ m
  take-length = length-take m xs le

  -- The place of the new item is in the first half.
  copies-left :
      f ≤ m
      → Returns
          (λ _ k. LeafSplit s flags size (insert key val (take m xs)) (drop m xs) p r k)
          (halves_copied page p r key val f m n s)
  copies-left before =
      let (u, g, eq, a) = Returns-eq (
        subst
          (λ c.
            Returns (λ _ g. Half s p (no_root flags) size (insert key val (take m xs)) g)
              (btree_leaf_copy_in p page c 8 (used_bytes m) key val (used_bytes f) s))
          take-length
          (Half-with s page p key val flags size 0 xs (take m xs) o v byte behind_p inside_p apart_p
            first_items (omega (arith, le, take-length)) (used_bytes f) (used_bytes m)
            (omega (arith, take-length)) (omega (arith, find_item-take key val m xs before le))
            (le→leb (used_bytes f) (used_bytes m) (omega arith))
            (omega (arith, take-length, cut-lt f n many, v.fits)) small fits)) in
      rw eq (
        second g (insert key val (take m xs)) (drop m xs) a (λ h w.
          subst
            (λ c.
              Returns (λ _ k. Half g r (no_root flags) size (drop m xs) k)
                (btree_leaf_copy_in r page c (used_bytes m) (used_bytes n) key val (used_bytes f)
                  g))
            drop-length
            (Half-without g page r key val flags size m xs (drop m xs) a.IsOpen-after w byte
              behind_r (omega (arith, a.same_end)) apart_r h (omega (arith, drop-length, le))
              (used_bytes f) (used_bytes n) (omega (arith, drop-length, le))
              (rw
                (
                  ne→== (8 + 16 * m) 8 (omega (arith, cut-ge f n many)),
                  le→ltb (8 + 16 * m) (used_bytes f) (omega arith),
                )
                refl))))

  -- It is in the second.
  copies-right :
      m < f
      → Returns
          (λ _ k. LeafSplit s flags size (take m xs) (insert key val (drop m xs)) p r k)
          (halves_copied page p r key val f m n s)
  copies-right behind =
      let (u, g, eq, a) = Returns-eq (
        subst
          (λ c.
            Returns (λ _ g. Half s p (no_root flags) size (take m xs) g)
              (btree_leaf_copy_in p page c 8 (used_bytes m) key val (used_bytes f) s))
          take-length
          (Half-without s page p key val flags size 0 xs (take m xs) o v byte behind_p inside_p
            apart_p first_items (omega (arith, le, take-length)) (used_bytes f) (used_bytes m)
            (omega (arith, take-length)) (lt→leb (used_bytes f) (used_bytes m) (omega arith)))) in
      rw eq (
        second g (take m xs) (insert key val (drop m xs)) a (λ h w.
          subst
            (λ c.
              Returns (λ _ k. Half g r (no_root flags) size (insert key val (drop m xs)) k)
                (btree_leaf_copy_in r page c (used_bytes m) (used_bytes n) key val (used_bytes f)
                  g))
            drop-length
            (Half-with g page r key val flags size m xs (drop m xs) a.IsOpen-after w byte behind_r
              (omega (arith, a.same_end)) apart_r h (omega (arith, drop-length, le)) (used_bytes f)
              (used_bytes n) (omega (arith, drop-length, le))
              (omega (arith, find_item-drop key val m xs (omega arith)))
              (rw
                (
                  ne→== (8 + 16 * m) 8 (omega (arith, cut-ge f n many)),
                  lt→ltb (8 + 16 * m) (used_bytes f) (omega arith),
                  le→leb (used_bytes f) (used_bytes n) (omega (arith, find_item-le key xs)),
                )
                refl)
              (omega (arith, drop-length, cut-ge f n many, v.fits, le)) small fits)))

  pub copies-LeafSplit :
      Returns
        (λ _ k. LeafSplit s flags size (left_half key val xs) (right_half key val xs) p r k)
        (halves_copied page p r key val f m n s)
  unfolding left_half right_half
  copies-LeafSplit = elim (Bool-cases (leb f m)) [
    | inl e ↦ rw e (copies-left (leb→le f m e))
    | inr e ↦ rw e (copies-right (leb→lt f m e))
  ]
