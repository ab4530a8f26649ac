-- ===== src/Btree/Leaf/Items.antt =====
-- The items of a leaf page as a sorted list of keys and values.
use adventure.Base.{
  ℕ, zero, suc, ◌^◌, ◌≤◌, ◌<◌, ◌≡◌, ◌≢◌, refl, Bool, true, false, Option, none, some, List, [], ◌∷◌,
  leb, ◌==◌, if◌then◌else◌, arith, length, get_or, Bool-cases, inl, inr, ◌⊎◌, sym, ◌∙◌, ap, ap₂,
  le→leb, ==_iff, lt→leb,
}

abbrev pub Item : Type 0
Item = ℕ × ℕ

-- The place of the first item whose key is not below `key`, or the length.
unfoldable pub find_item : (key : ℕ) → List Item → ℕ
find_item key [] = 0
find_item key (x ∷ xs) = if leb key x.0 then 0 else suc (find_item key xs)

-- The list with a new item in its place.
unfoldable pub insert : (key val : ℕ) → List Item → List Item
insert key val [] = (key, val) ∷ []
insert key val (x ∷ xs) = if leb key x.0 then (key, val) ∷ x ∷ xs else x ∷ insert key val xs

-- The value of a key.
unfoldable pub value_of : (key : ℕ) → List Item → Option ℕ
value_of key [] = none
value_of key (x ∷ xs) = if x.0 == key then some x.1 else value_of key xs

-- The keys rise, each of them above `low`, and have no overflow bit.
unfoldable pub Rises : (low : ℕ) → List Item → Type 0
Rises low [] = Unit
Rises low (x ∷ xs) = (low ≤ x.0) × (x.0 < 2 ^ 63) × (x.1 < 2 ^ 64) × Rises (suc (x.0)) xs

absent :
    (b : Bool) (v : ℕ) (rest : Option ℕ)
    → (if b then some v else rest) ≡ none
    → (b ≡ false) × (rest ≡ none)
absent true v rest e = (cc)
absent false v rest e = (refl, e)

pub value_of-none :
    (key : ℕ) (x : Item) (xs : List Item)
    → value_of key (x ∷ xs) ≡ none
    → (x.0 ≢ key) × (value_of key xs ≡ none)
unfolding value_of
value_of-none key x xs e =
    let (other, rest) = absent (x.0 == key) x.1 (value_of key xs) e in
    (λ same. ground (arith, ==_iff x.0 key), rest)

pub find_item-le : (key : ℕ) (xs : List Item) → find_item key xs ≤ length xs
unfolding find_item
find_item-le key [] = omega arith
find_item-le key (x ∷ xs) = ground (arith, find_item-le key xs)

pub length-insert : (key val : ℕ) (xs : List Item) → length (insert key val xs) ≡ suc (length xs)
unfolding insert
length-insert key val [] = refl
length-insert key val (x ∷ xs) = ground (arith, length-insert key val xs)

module _ (key val : ℕ) where
  pub get_or-insert_before :
      (xs : List Item) (i : ℕ)
      → i < find_item key xs
      → get_or (insert key val xs) i (0, 0) ≡ get_or xs i (0, 0)
  unfolding find_item insert
  get_or-insert_before [] i h = absurd (omega arith)
  get_or-insert_before (x ∷ xs) zero h = ground arith
  get_or-insert_before (x ∷ xs) (suc i) h = ground (arith, get_or-insert_before xs i)

  pub get_or-insert_at :
      (xs : List Item) → get_or (insert key val xs) (find_item key xs) (0, 0) ≡ (key, val)
  unfolding find_item insert
  get_or-insert_at [] = refl
  get_or-insert_at (x ∷ xs) = ground (arith, get_or-insert_at xs)

  pub get_or-insert_behind :
      (xs : List Item) (i : ℕ)
      → find_item key xs ≤ i
      → get_or (insert key val xs) (suc i) (0, 0) ≡ get_or xs i (0, 0)
  unfolding find_item insert
  get_or-insert_behind [] i h = refl
  get_or-insert_behind (x ∷ xs) zero h = ground arith
  get_or-insert_behind (x ∷ xs) (suc i) h = ground (arith, get_or-insert_behind xs i)

  pub insert-Rises :
      (low : ℕ) (xs : List Item)
      → Rises low xs
      → low ≤ key
      → key < 2 ^ 63
      → val < 2 ^ 64
      → value_of key xs ≡ none
      → Rises low (insert key val xs)
  unfolding insert Rises value_of
  insert-Rises low [] rises above small fits new = (above, small, fits, tt)
  insert-Rises low (x ∷ xs) rises above small fits new = elim (Bool-cases (leb key x.0)) [
    | inl e ↦ rw e (
      above,
      small,
      fits,
      (ground (arith, (value_of-none key x xs new).0), rises.1, rises.2, rises.3),
    )
    | inr e ↦ rw e (
      rises.0,
      rises.1,
      rises.2,
      insert-Rises (suc (x.0)) xs rises.3 (ground arith) small fits (value_of-none key x xs new).1,
    )
  ]

  -- The new item's value under its key, and every other as it was.
  pub value_of-insert :
      (xs : List Item) (other : ℕ)
      → value_of key xs ≡ none
      → value_of other (insert key val xs) ≡ (if key == other then some val else value_of other xs)
  unfolding insert value_of
  value_of-insert [] other new = refl
  value_of-insert (x ∷ xs) other new = elim (Bool-cases (leb key x.0)) [
    | inl e ↦ rw e refl
    | inr e ↦
        rw (e, value_of-insert xs other (value_of-none key x xs new).1)
          (ground (arith, (value_of-none key x xs new).0, ==_iff key other, ==_iff x.0 other))
  ]

pub item_other :
    (key : ℕ) (xs : List Item) (i : ℕ)
    → value_of key xs ≡ none
    → i < length xs
    → (get_or xs i (0, 0)).0 ≢ key
item_other key [] i new lt = absurd (omega arith)
item_other key (x ∷ xs) zero new lt = (value_of-none key x xs new).0
item_other key (x ∷ xs) (suc i) new lt =
    item_other key xs i (value_of-none key x xs new).1 (omega arith)

pub item_small :
    (low : ℕ) (xs : List Item) (i : ℕ)
    → Rises low xs
    → i < length xs
    → (get_or xs i (0, 0)).0 < 2 ^ 63
unfolding Rises
item_small low [] i rises lt = absurd (omega arith)
item_small low (x ∷ xs) zero rises lt = rises.1
item_small low (x ∷ xs) (suc i) rises lt = item_small (suc (x.0)) xs i rises.3 (omega arith)

-- What a test for the key of an item gives, where a value was found.
value_of-cases :
    (key v : ℕ) (x : Item) (xs : List Item)
    → value_of key (x ∷ xs) ≡ some v
    → ((x.0 ≡ key) × (x.1 ≡ v)) ⊎ ((x.0 ≢ key) × (value_of key xs ≡ some v))
unfolding value_of
value_of-cases key v x xs e = elim (Bool-cases (x.0 == key)) [
  | inl same ↦ inl (
    (==_iff x.0 key).0 same,
    cc (sym (ap (λ b. if b then some x.1 else value_of key xs) same) ∙ e),
  )
  | inr other ↦ inr (
    (λ same. ground (arith, ==_iff x.0 key)),
    sym (ap (λ b. if b then some x.1 else value_of key xs) other) ∙ e,
  )
]

low-le : (low key v : ℕ) (xs : List Item) → Rises low xs → value_of key xs ≡ some v → low ≤ key
unfolding Rises
low-le low key v [] rises e = unfold value_of in (cc)
low-le low key v (x ∷ xs) rises e = elim (value_of-cases key v x xs e) [
  | inl (same, is) ↦ omega (arith, rises.0)
  | inr (other, rest) ↦ omega (arith, rises.0, low-le (suc (x.0)) key v xs rises.3 rest)
]

-- In a rising list the search for a key that is there stops at it.
pub find_item-value_of :
    (low key v : ℕ) (xs : List Item)
    → Rises low xs
    → value_of key xs ≡ some v
    → (find_item key xs < length xs) × (get_or xs (find_item key xs) (0, 0) ≡ (key, v))
unfolding Rises find_item
find_item-value_of low key v [] rises e = unfold value_of in (cc)
find_item-value_of low key v (x ∷ xs) rises e = elim (value_of-cases key v x xs e) [
  | inl (same, is) ↦ rw (le→leb key x.0 (omega arith)) (omega arith, ap₂ (λ a b. (a, b)) same is)
  | inr (other, rest) ↦
      let (lt, item) = find_item-value_of (suc (x.0)) key v xs rises.3 rest in
      rw (lt→leb key x.0 (low-le (suc (x.0)) key v xs rises.3 rest)) (omega arith, item)
]
