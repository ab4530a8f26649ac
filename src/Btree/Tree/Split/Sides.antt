-- ===== src/Btree/Tree/Split/Sides.antt =====
-- The items of the two leaves in order: those on the left are below the key that goes up, the others
-- from it on.
use adventure.Base.{
  ℕ, zero, suc, ◌<◌, ◌∷◌, [], ◌^◌, ◌≤◌, ◌≡◌, List, ◌++◌, none, ◌∙◌, ap, inl, inr, arith, leb,
  leb→le, leb→lt, Bool-cases, length, take, drop, get_or,
}
use adventure.Btree.Leaf.Items.{Item, find_item, insert, value_of, Rises, insert-Rises}
use adventure.Btree.Tree.Order.{Within}
use adventure.Btree.Tree.Put.{insert-Within, value_of-none_left, value_of-none_right}
use adventure.Btree.Tree.Split.Halves.{
  take-drop, insert-left, insert-right, take-Rises, drop-Rises, take-Within, drop-Within, key-lt,
  key-gt,
}
use adventure.Btree.Tree.Split.Cut.{cut, cut-lt, left_half, right_half, mid_key}

pub halves-items :
    (key val : ℕ) (xs : List Item)
    → left_half key val xs ++ right_half key val xs ≡ insert key val xs
unfolding left_half right_half
halves-items key val xs =
    let m = cut (find_item key xs) (length xs) in
    elim (Bool-cases (leb (find_item key xs) m)) [
      | inl e ↦ rw e (insert-left key val m xs (leb→le _ m e))
      | inr e ↦ rw e (insert-right key val m xs (omega (arith, leb→lt (find_item key xs) m e)))
    ]

item-lt : (hi m : ℕ) (xs : List Item) → Within 0 hi xs → m < length xs → (get_or xs m (0, 0)).0 < hi
unfolding Within
item-lt hi m [] w h = absurd (omega arith)
item-lt hi zero (x ∷ xs) w h = w.1
item-lt hi (suc m) (x ∷ xs) w h = item-lt hi m xs w.2 (omega arith)

module _ (key val hi : ℕ) (xs : List Item) (rises : Rises 0 xs) (within : Within 0 hi xs)
    (new : value_of key xs ≡ none) (many : 3 ≤ length xs) (small : key < 2 ^ 63)
    (fits : val < 2 ^ 64) (below : key < hi) where
  abbrev m : ℕ
  m = cut (find_item key xs) (length xs)

  inside : m < length xs
  inside = cut-lt (find_item key xs) (length xs) many

  none_halves : value_of key (take m xs ++ drop m xs) ≡ none
  none_halves = ap (value_of key) (take-drop m xs) ∙ new

  pub left-Rises : Rises 0 (left_half key val xs)
  unfolding left_half
  left-Rises = elim (Bool-cases (leb (find_item key xs) m)) [
    | inl e ↦ rw e (
        insert-Rises key val 0 (take m xs) (take-Rises 0 m xs rises) (omega arith) small fits
          (value_of-none_left key (take m xs) (drop m xs) none_halves))
    | inr e ↦ rw e (take-Rises 0 m xs rises)
  ]

  pub left-Within : Within 0 (mid_key key xs) (left_half key val xs)
  unfolding left_half mid_key
  left-Within = elim (Bool-cases (leb (find_item key xs) m)) [
    | inl e ↦ rw e (
        insert-Within key val 0 _ (take m xs) (take-Within 0 m xs rises inside) (omega arith)
          (key-lt key 0 m xs rises new inside (leb→le (find_item key xs) m e)))
    | inr e ↦ rw e (take-Within 0 m xs rises inside)
  ]

  pub right-Rises : Rises (mid_key key xs) (right_half key val xs)
  unfolding right_half mid_key
  right-Rises = elim (Bool-cases (leb (find_item key xs) m)) [
    | inl e ↦ rw e (drop-Rises 0 m xs rises inside)
    | inr e ↦ rw e (
        insert-Rises key val _ (drop m xs) (drop-Rises 0 m xs rises inside)
          (omega (arith, key-gt key m xs (leb→lt (find_item key xs) m e))) small fits
          (value_of-none_right key (take m xs) (drop m xs) none_halves))
  ]

  pub right-Within : Within (mid_key key xs) hi (right_half key val xs)
  unfolding right_half mid_key
  right-Within = elim (Bool-cases (leb (find_item key xs) m)) [
    | inl e ↦ rw e (drop-Within 0 0 hi m xs rises within inside)
    | inr e ↦ rw e (
        insert-Within key val _ hi (drop m xs) (drop-Within 0 0 hi m xs rises within inside)
          (omega (arith, key-gt key m xs (leb→lt (find_item key xs) m e))) below)
  ]

  pub mid_key-lt : mid_key key xs < hi
  unfolding mid_key
  mid_key-lt = item-lt hi m xs within inside
