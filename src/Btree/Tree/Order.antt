-- ===== src/Btree/Tree/Order.antt =====
-- Trees whose keys are in order: where a search goes is where the items of its key are.
use adventure.Base.{
  ℕ, ◌≤◌, ◌<◌, ◌≡◌, ◌⊎◌, refl, ◌∙◌, none, List, [], ◌∷◌, ◌++◌, ltb, ltb→lt, ltb→le, Bool-cases, inl,
  inr, arith, ne→==,
}
use adventure.Btree.Leaf.Items.{Item, value_of, value_of-none, Rises}
use adventure.Btree.Tree.Shape.{
  Tree, leaf, branch, Trees, nil, cons, items_of, items_behind, chosen,
}

-- Every key is from `lo` on and below `hi`.
unfoldable pub Within : (lo hi : ℕ) → List Item → Type 0
Within lo hi [] = Unit
Within lo hi (x ∷ xs) = (lo ≤ x.0) × (x.0 < hi) × Within lo hi xs

-- The first of the keys, or `hi`.
unfoldable pub bound : (hi : ℕ) → Trees → ℕ
bound hi nil = hi
bound hi (cons k u ts) = k

-- The keys of the tree rise from `lo` on and are below `hi`, those of a child between the keys
-- around it.
unfoldable mutual
  unfolding bound

  pub Ordered : (lo hi : ℕ) → Tree → Type 0
  Ordered lo hi (leaf page flags xs) = Rises lo xs × Within lo hi xs × (lo ≤ hi)
  Ordered lo hi (branch page flags t ts) = Ordered lo (bound hi ts) t × OrderedBehind hi ts

  pub OrderedBehind : (hi : ℕ) → Trees → Type 0
  OrderedBehind hi nil = Unit
  OrderedBehind hi (cons k u ts) = Ordered k (bound hi ts) u × OrderedBehind hi ts

Within-++ :
    (lo hi : ℕ) (xs ys : List Item) → Within lo hi xs → Within lo hi ys → Within lo hi (xs ++ ys)
unfolding Within
Within-++ lo hi [] ys v w = w
Within-++ lo hi (x ∷ xs) ys v w = (v.0, v.1, Within-++ lo hi xs ys v.2 w)

Within-wider :
    (lo hi lo' hi' : ℕ) (xs : List Item) → lo' ≤ lo → hi ≤ hi' → Within lo hi xs → Within lo' hi' xs
unfolding Within
Within-wider lo hi lo' hi' [] a b v = v
Within-wider lo hi lo' hi' (x ∷ xs) a b v =
    (omega (arith, v.0), omega (arith, v.1), Within-wider lo hi lo' hi' xs a b v.2)

mutual
  unfolding Ordered OrderedBehind bound

  pub Ordered-le : (lo hi : ℕ) (t : Tree) → Ordered lo hi t → lo ≤ hi
  Ordered-le lo hi (leaf page flags xs) v = v.2
  Ordered-le lo hi (branch page flags t ts) v =
      omega (arith, Ordered-le lo (bound hi ts) t v.0, bound-le hi ts v.1)

  pub bound-le : (hi : ℕ) (ts : Trees) → OrderedBehind hi ts → bound hi ts ≤ hi
  bound-le hi nil v = omega arith
  bound-le hi (cons k u ts) v = omega (arith, Ordered-le k (bound hi ts) u v.0, bound-le hi ts v.1)

mutual
  unfolding Ordered OrderedBehind bound items_of items_behind Within

  pub Ordered-Within : (lo hi : ℕ) (t : Tree) → Ordered lo hi t → Within lo hi (items_of t)
  Ordered-Within lo hi (leaf page flags xs) v = v.1
  Ordered-Within lo hi (branch page flags t ts) v =
      Within-++ lo hi (items_of t) (items_behind ts)
        (Within-wider lo (bound hi ts) lo hi (items_of t) (omega arith) (bound-le hi ts v.1)
          (Ordered-Within lo (bound hi ts) t v.0))
        (Within-wider (bound hi ts) hi lo hi (items_behind ts) (Ordered-le lo (bound hi ts) t v.0)
          (omega arith) (OrderedBehind-Within hi ts v.1))

  pub OrderedBehind-Within :
      (hi : ℕ) (ts : Trees) → OrderedBehind hi ts → Within (bound hi ts) hi (items_behind ts)
  OrderedBehind-Within hi nil v = tt
  OrderedBehind-Within hi (cons k u ts) v =
      Within-++ k hi (items_of u) (items_behind ts)
        (Within-wider k (bound hi ts) k hi (items_of u) (omega arith) (bound-le hi ts v.1)
          (Ordered-Within k (bound hi ts) u v.0))
        (Within-wider (bound hi ts) hi k hi (items_behind ts) (Ordered-le k (bound hi ts) u v.0)
          (omega arith) (OrderedBehind-Within hi ts v.1))

-- A key outside has no item.
value_of-outside :
    (lo hi key : ℕ) (xs : List Item)
    → Within lo hi xs
    → (key < lo) ⊎ (hi ≤ key)
    → value_of key xs ≡ none
unfolding Within value_of
value_of-outside lo hi key [] v out = refl
value_of-outside lo hi key (x ∷ xs) v out =
    rw (ne→== x.0 key (omega (arith, v.0, v.1, out))) (value_of-outside lo hi key xs v.2 out)

value_of-++_none :
    (key : ℕ) (xs ys : List Item)
    → value_of key xs ≡ none
    → value_of key (xs ++ ys) ≡ value_of key ys
unfolding value_of
value_of-++_none key [] ys e = refl
value_of-++_none key (x ∷ xs) ys e =
    let (other, rest) = value_of-none key x xs e in
    rw (ne→== x.0 key other) (value_of-++_none key xs ys rest)

value_of-none_++ :
    (key : ℕ) (xs ys : List Item)
    → value_of key ys ≡ none
    → value_of key (xs ++ ys) ≡ value_of key xs
unfolding value_of
value_of-none_++ key [] ys e = e
value_of-none_++ key (x ∷ xs) ys e = rw (value_of-none_++ key xs ys e) refl

-- The items of the key are those of the child that is chosen.
pub value_of-chosen :
    (lo hi key : ℕ) (t : Tree) (ts : Trees)
    → Ordered lo (bound hi ts) t
    → OrderedBehind hi ts
    → value_of key (items_of t ++ items_behind ts) ≡ value_of key (items_of (chosen t ts key))
unfolding OrderedBehind bound items_behind chosen
value_of-chosen lo hi key t nil v vs =
    value_of-none_++ key (items_of t) [] (unfold value_of in refl)
value_of-chosen lo hi key t (cons k u ts) v vs = elim (Bool-cases (ltb key k)) [
  | inl e ↦ rw e (
      value_of-none_++ key (items_of t) (items_of u ++ items_behind ts) (
        value_of-outside k hi key (items_of u ++ items_behind ts)
          (OrderedBehind-Within hi (cons k u ts) vs) (inl (ltb→lt key k e))))
  | inr e ↦ rw e (
      value_of-++_none key (items_of t) (items_of u ++ items_behind ts)
        (value_of-outside lo k key (items_of t) (Ordered-Within lo k t v) (inr (ltb→le key k e)))
      ∙ value_of-chosen k hi key u ts vs.0 vs.1)
]

-- And the child is in order.
pub chosen-Ordered :
    (lo hi key : ℕ) (t : Tree) (ts : Trees)
    → Ordered lo (bound hi ts) t
    → OrderedBehind hi ts
    → (l : ℕ) × (h : ℕ) × Ordered l h (chosen t ts key)
unfolding OrderedBehind bound chosen
chosen-Ordered lo hi key t nil v vs = (lo, hi, v)
chosen-Ordered lo hi key t (cons k u ts) v vs = elim (Bool-cases (ltb key k)) [
  | inl e ↦ rw e (lo, k, v)
  | inr e ↦ rw e (chosen-Ordered k hi key u ts vs.0 vs.1)
]
