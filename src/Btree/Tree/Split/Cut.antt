-- ===== src/Btree/Tree/Split/Cut.antt =====
-- Where a full leaf's items are divided.
use adventure.Base.{
  ℕ, ◌+◌, ◌/◌, ◌≤◌, ◌<◌, List, arith, ltb, leb, length, get_or, take, drop, if◌then◌else◌,
}
use adventure.Btree.Leaf.Items.{Item, find_item, insert}

-- The number of old items that go to the left leaf, where the new item's place is `f` of `n`.
unfoldable pub cut : (f n : ℕ) → ℕ
cut f n = if ltb (n / 2) f then n / 2 + 1 else n / 2

unfoldable pub left_half : (key val : ℕ) → List Item → List Item
unfolding cut
left_half key val xs =
    let m = cut (find_item key xs) (length xs) in
    if leb (find_item key xs) m then insert key val (take m xs) else take m xs

unfoldable pub right_half : (key val : ℕ) → List Item → List Item
unfolding cut
right_half key val xs =
    let m = cut (find_item key xs) (length xs) in
    if leb (find_item key xs) m then drop m xs else insert key val (drop m xs)

-- The key that goes up.
unfoldable pub mid_key : (key : ℕ) → List Item → ℕ
unfolding cut
mid_key key xs = (get_or xs (cut (find_item key xs) (length xs)) (0, 0)).0

pub cut-lt : (f n : ℕ) → 3 ≤ n → cut f n < n
unfolding cut
cut-lt f n h = ground arith

pub cut-ge : (f n : ℕ) → 3 ≤ n → 1 ≤ cut f n
unfolding cut
cut-ge f n h = ground arith
