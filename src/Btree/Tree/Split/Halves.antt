-- ===== src/Btree/Tree/Split/Halves.antt =====
-- The two halves of a full leaf's items, with the new item in one of them.
use adventure.Base.{
  ℕ, zero, suc, ◌+◌, ◌*◌, ◌≤◌, ◌<◌, ◌≡◌, List, [], ◌∷◌, ◌++◌, refl, sym, ◌∙◌, ap, inl, inr, none,
  arith, leb, leb→le, Bool-cases, length, get_or, take, drop,
}
use adventure.Store.{Store}
use adventure.Store.Access.{word}
use adventure.Btree.Leaf.Items.{Item, find_item, insert, value_of, value_of-none, Rises}
use adventure.Btree.Tree.Order.{Within}
use adventure.Btree.Tree.Split.Items.{HasItems}

pub length-take : (m : ℕ) (xs : List Item) → m ≤ length xs → length (take m xs) ≡ m
length-take zero xs h = refl
length-take (suc m) [] h = absurd (omega arith)
length-take (suc m) (x ∷ xs) h = ap suc (length-take m xs (omega arith))

pub length-drop : (m : ℕ) (xs : List Item) → m ≤ length xs → length (drop m xs) + m ≡ length xs
length-drop zero xs h = omega arith
length-drop (suc m) [] h = absurd (omega arith)
length-drop (suc m) (x ∷ xs) h = omega (arith, length-drop m xs (omega arith))

get_or-take :
    (m : ℕ) (xs : List Item) (i : ℕ) → i < m → get_or (take m xs) i (0, 0) ≡ get_or xs i (0, 0)
get_or-take zero xs i h = absurd (omega arith)
get_or-take (suc m) [] i h = refl
get_or-take (suc m) (x ∷ xs) zero h = refl
get_or-take (suc m) (x ∷ xs) (suc i) h = get_or-take m xs i (omega arith)

get_or-drop :
    (m : ℕ) (xs : List Item) (i : ℕ) → get_or (drop m xs) i (0, 0) ≡ get_or xs (m + i) (0, 0)
get_or-drop zero xs i = ap (λ j. get_or xs j (0, 0)) (omega arith)
get_or-drop (suc m) [] i = refl
get_or-drop (suc m) (x ∷ xs) i =
    get_or-drop m xs i ∙ sym (ap (λ j. get_or (x ∷ xs) j (0, 0)) (succ m i))
  where
    succ : (m i : ℕ) → suc m + i ≡ suc (m + i)
    succ m i = omega arith

pub take-HasItems :
    (s : Store) (base m : ℕ) (xs : List Item)
    → m ≤ length xs
    → HasItems s base xs
    → HasItems s base (take m xs)
take-HasItems s base m xs le h = record {
  keys = λ i lt.
      h.keys i (omega (arith, length-take m xs le))
      ∙ ap (λ x. x.0) (sym (get_or-take m xs i (omega (arith, length-take m xs le))));
  vals = λ i lt.
      h.vals i (omega (arith, length-take m xs le))
      ∙ ap (λ x. x.1) (sym (get_or-take m xs i (omega (arith, length-take m xs le))));
}

pub drop-HasItems :
    (s : Store) (base m : ℕ) (xs : List Item)
    → m ≤ length xs
    → HasItems s base xs
    → HasItems s (base + 16 * m) (drop m xs)
drop-HasItems s base m xs le h = record {
  keys = λ i lt.
      ap (word s) (omega arith)
      ∙ h.keys (m + i) (omega (arith, length-drop m xs le))
      ∙ ap (λ x. x.0) (sym (get_or-drop m xs i));
  vals = λ i lt.
      ap (word s) (omega arith)
      ∙ h.vals (m + i) (omega (arith, length-drop m xs le))
      ∙ ap (λ x. x.1) (sym (get_or-drop m xs i));
}

pub take-drop : (m : ℕ) (xs : List Item) → take m xs ++ drop m xs ≡ xs
take-drop zero xs = refl
take-drop (suc m) [] = refl
take-drop (suc m) (x ∷ xs) = ap (λ ys. x ∷ ys) (take-drop m xs)

-- The new item in the first part, and in the second.
module _ (key val : ℕ) where
  pub find_item-take :
      (m : ℕ) (xs : List Item)
      → find_item key xs ≤ m
      → m ≤ length xs
      → find_item key (take m xs) ≡ find_item key xs
  unfolding find_item
  find_item-take zero xs h le = omega arith
  find_item-take (suc m) [] h le = refl
  find_item-take (suc m) (x ∷ xs) h le = elim (Bool-cases (leb key x.0)) [
    | inl e ↦ rw e refl
    | inr e ↦ rw e (ap suc (find_item-take m xs (ground arith) (omega arith)))
  ]

  pub find_item-drop :
      (m : ℕ) (xs : List Item)
      → m ≤ find_item key xs
      → find_item key (drop m xs) + m ≡ find_item key xs
  unfolding find_item
  find_item-drop zero xs h = omega arith
  find_item-drop (suc m) [] h = absurd (omega arith)
  find_item-drop (suc m) (x ∷ xs) h = elim (Bool-cases (leb key x.0)) [
    | inl e ↦ absurd (ground arith)
    | inr e ↦ rw e (omega (arith, find_item-drop m xs (ground arith)))
  ]

  pub insert-left :
      (m : ℕ) (xs : List Item)
      → find_item key xs ≤ m
      → insert key val (take m xs) ++ drop m xs ≡ insert key val xs
  unfolding find_item insert
  insert-left zero [] h = refl
  insert-left zero (x ∷ xs) h = elim (Bool-cases (leb key x.0)) [
    | inl e ↦ rw e refl
    | inr e ↦ absurd (ground arith)
  ]
  insert-left (suc m) [] h = refl
  insert-left (suc m) (x ∷ xs) h = elim (Bool-cases (leb key x.0)) [
    | inl e ↦ rw e (ap (λ ys. (key, val) ∷ x ∷ ys) (take-drop m xs))
    | inr e ↦ rw e (ap (λ ys. x ∷ ys) (insert-left m xs (ground arith)))
  ]

  pub insert-right :
      (m : ℕ) (xs : List Item)
      → m ≤ find_item key xs
      → take m xs ++ insert key val (drop m xs) ≡ insert key val xs
  unfolding find_item insert
  insert-right zero xs h = refl
  insert-right (suc m) [] h = absurd (omega arith)
  insert-right (suc m) (x ∷ xs) h = elim (Bool-cases (leb key x.0)) [
    | inl e ↦ absurd (ground arith)
    | inr e ↦ rw e (ap (λ ys. x ∷ ys) (insert-right m xs (ground arith)))
  ]

-- The key at which a rising list is divided.
pub item-ge :
    (low m : ℕ) (xs : List Item) → Rises low xs → m < length xs → low ≤ (get_or xs m (0, 0)).0
unfolding Rises
item-ge low m [] v h = absurd (omega arith)
item-ge low zero (x ∷ xs) v h = v.0
item-ge low (suc m) (x ∷ xs) v h = omega (arith, item-ge (suc (x.0)) m xs v.3 (omega arith), v.0)

pub take-Rises : (low m : ℕ) (xs : List Item) → Rises low xs → Rises low (take m xs)
unfolding Rises
take-Rises low zero xs v = tt
take-Rises low (suc m) [] v = tt
take-Rises low (suc m) (x ∷ xs) v = (v.0, v.1, v.2, take-Rises (suc (x.0)) m xs v.3)

pub drop-Rises :
    (low m : ℕ) (xs : List Item)
    → Rises low xs
    → m < length xs
    → Rises (get_or xs m (0, 0)).0 (drop m xs)
unfolding Rises
drop-Rises low m [] v h = absurd (omega arith)
drop-Rises low zero (x ∷ xs) v h = (omega arith, v.1, v.2, v.3)
drop-Rises low (suc m) (x ∷ xs) v h = drop-Rises (suc (x.0)) m xs v.3 (omega arith)

Within-low : (low low' hi : ℕ) (xs : List Item) → low' ≤ low → Within low hi xs → Within low' hi xs
unfolding Within
Within-low low low' hi [] h w = tt
Within-low low low' hi (x ∷ xs) h w = (omega (arith, w.0), w.1, Within-low low low' hi xs h w.2)

pub take-Within :
    (low m : ℕ) (xs : List Item)
    → Rises low xs
    → m < length xs
    → Within low (get_or xs m (0, 0)).0 (take m xs)
unfolding Rises Within
take-Within low zero xs v h = tt
take-Within low (suc m) [] v h = tt
take-Within low (suc m) (x ∷ xs) v h = (
  v.0,
  omega (arith, item-ge (suc (x.0)) m xs v.3 (omega arith)),
  Within-low (suc (x.0)) low _ (take m xs) (omega (arith, v.0))
      (take-Within (suc (x.0)) m xs v.3 (omega arith)),
)

Within-Rises :
    (low low' hi : ℕ) (xs : List Item) → Rises low xs → Within low' hi xs → Within low hi xs
unfolding Rises Within
Within-Rises low low' hi [] v w = tt
Within-Rises low low' hi (x ∷ xs) v w = (
  v.0,
  w.1,
  Within-low (suc (x.0)) low hi xs (omega (arith, v.0))
      (Within-Rises (suc (x.0)) low' hi xs v.3 w.2),
)

pub drop-Within :
    (low low' hi m : ℕ) (xs : List Item)
    → Rises low xs
    → Within low' hi xs
    → m < length xs
    → Within (get_or xs m (0, 0)).0 hi (drop m xs)
unfolding Rises Within
drop-Within low low' hi m [] v w h = absurd (omega arith)
drop-Within low low' hi zero (x ∷ xs) v w h = (
  omega arith,
  w.1,
  Within-low (suc (x.0)) (x.0) hi xs (omega arith) (Within-Rises (suc (x.0)) low' hi xs v.3 w.2),
)
drop-Within low low' hi (suc m) (x ∷ xs) v w h =
    drop-Within (suc (x.0)) low' hi m xs v.3 w.2 (omega arith)

module _ (key : ℕ) where
  pub key-lt :
      (low m : ℕ) (xs : List Item)
      → Rises low xs
      → value_of key xs ≡ none
      → m < length xs
      → find_item key xs ≤ m
      → key < (get_or xs m (0, 0)).0
  unfolding Rises find_item
  key-lt low m [] v new h f = absurd (omega arith)
  key-lt low zero (x ∷ xs) v new h f = elim (Bool-cases (leb key x.0)) [
    | inl e ↦ omega (arith, leb→le key x.0 e, (value_of-none key x xs new).0)
    | inr e ↦ absurd (ground arith)
  ]
  key-lt low (suc m) (x ∷ xs) v new h f = elim (Bool-cases (leb key x.0)) [
    | inl e ↦ omega (arith, leb→le key x.0 e, item-ge (suc (x.0)) m xs v.3 (omega arith))
    | inr e ↦
        key-lt (suc (x.0)) m xs v.3 (value_of-none key x xs new).1 (omega arith) (ground arith)
  ]

  pub key-gt : (m : ℕ) (xs : List Item) → m < find_item key xs → (get_or xs m (0, 0)).0 < key
  unfolding find_item
  key-gt m [] h = absurd (omega arith)
  key-gt zero (x ∷ xs) h = ground arith
  key-gt (suc m) (x ∷ xs) h = elim (Bool-cases (leb key x.0)) [
    | inl e ↦ absurd (ground arith)
    | inr e ↦ key-gt m xs (ground arith)
  ]
