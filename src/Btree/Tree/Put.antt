-- ===== src/Btree/Tree/Put.antt =====
-- A tree after a new item was put in: every page on the way to its leaf is copied to the page that
-- the one below it had, the leaf to the page `q`.
use adventure.Base.{
  ℕ, ◌^◌, ◌≤◌, ◌<◌, ◌≡◌, refl, sym, ◌∙◌, ap, Bool, true, false, none, List, [], ◌∷◌, ◌++◌,
  if◌then◌else◌, ltb, leb, ltb→lt, ltb→le, le→leb, lt→leb, ne→==, ◌≢◌, Bool-cases, inl, inr, arith,
}
use adventure.Btree.Leaf.Items.{Item, insert, value_of, value_of-none, insert-Rises}
use adventure.Btree.Tree.Shape.{
  Tree, leaf, branch, Trees, nil, cons, page_of, items_of, items_behind, chosen,
}
use adventure.Btree.Tree.Order.{
  Within, bound, Ordered, OrderedBehind, Ordered-Within, OrderedBehind-Within,
}

-- A search for `key` goes no further.
unfoldable pub before : (key : ℕ) → Trees → Bool
before key nil = true
before key (cons k u ts) = ltb key k

unfoldable mutual
  unfolding before chosen

  pub put : (key val q : ℕ) → Tree → Tree
  put key val q (leaf page flags xs) = leaf q flags (insert key val xs)
  put key val q (branch page flags t ts) =
      branch (page_of (chosen t ts key)) flags (if before key ts then put key val q t else t)
        (if before key ts then ts else put_behind key val q ts)

  pub put_behind : (key val q : ℕ) → Trees → Trees
  put_behind key val q nil = nil
  put_behind key val q (cons k u ts) =
      cons k (if before key ts then put key val q u else u)
        (if before key ts then ts else put_behind key val q ts)

-- A key that has no item in two runs has none in each.
pub value_of-none_right :
    (key : ℕ) (xs ys : List Item) → value_of key (xs ++ ys) ≡ none → value_of key ys ≡ none
value_of-none_right key [] ys new = new
value_of-none_right key (x ∷ xs) ys new =
    value_of-none_right key xs ys (value_of-none key x (xs ++ ys) new).1

pub value_of-none_left :
    (key : ℕ) (xs ys : List Item) → value_of key (xs ++ ys) ≡ none → value_of key xs ≡ none
unfolding value_of
value_of-none_left key [] ys new = refl
value_of-none_left key (x ∷ xs) ys new =
    let (other, rest) = value_of-none key x (xs ++ ys) new in
    rw (ne→== x.0 key other) (value_of-none_left key xs ys rest)

module _ (key val : ℕ) where
  insert-++_left :
      (lo hi : ℕ) (xs ys : List Item)
      → Within lo hi ys
      → key < lo
      → insert key val (xs ++ ys) ≡ insert key val xs ++ ys
  unfolding insert Within
  insert-++_left lo hi [] [] w lt = refl
  insert-++_left lo hi [] (y ∷ ys) w lt = rw (le→leb key y.0 (omega (arith, w.0))) refl
  insert-++_left lo hi (x ∷ xs) ys w lt = elim (Bool-cases (leb key x.0)) [
    | inl e ↦ rw e refl
    | inr e ↦ rw e (ap (λ zs. x ∷ zs) (insert-++_left lo hi xs ys w lt))
  ]

  insert-++_right :
      (lo hi : ℕ) (xs ys : List Item)
      → Within lo hi xs
      → hi ≤ key
      → insert key val (xs ++ ys) ≡ xs ++ insert key val ys
  unfolding insert Within
  insert-++_right lo hi [] ys w le = refl
  insert-++_right lo hi (x ∷ xs) ys w le =
      rw (lt→leb key x.0 (omega (arith, w.1)))
        (ap (λ zs. x ∷ zs) (insert-++_right lo hi xs ys w.2 le))

  pub insert-Within :
      (lo hi : ℕ) (xs : List Item)
      → Within lo hi xs
      → lo ≤ key
      → key < hi
      → Within lo hi (insert key val xs)
  unfolding insert Within
  insert-Within lo hi [] w a b = (a, b, tt)
  insert-Within lo hi (x ∷ xs) w a b = elim (Bool-cases (leb key x.0)) [
    | inl e ↦ rw e (a, b, w)
    | inr e ↦ rw e (w.0, w.1, insert-Within lo hi xs w.2 a b)
  ]

before-bound : (key hi : ℕ) (ts : Trees) → before key ts ≡ true → key < hi → key < bound hi ts
unfolding before bound
before-bound key hi nil e lt = lt
before-bound key hi (cons k u ts) e lt = ltb→lt key k e

pub not_before : (key : ℕ) → before key nil ≢ false
unfolding before
not_before key e = (cc)

bound-before : (key hi : ℕ) (ts : Trees) → before key ts ≡ false → bound hi ts ≤ key
unfolding before bound
bound-before key hi nil e = absurd (not_before key e)
bound-before key hi (cons k u ts) e = ltb→le key k e

-- The items of the new tree are those of the old one with the new item in its place.
mutual
  unfolding put put_behind Ordered OrderedBehind items_of items_behind bound

  pub items_of-put :
      (key val q lo hi : ℕ) (t : Tree)
      → Ordered lo hi t
      → key < hi
      → items_of (put key val q t) ≡ insert key val (items_of t)
  items_of-put key val q lo hi (leaf page flags xs) v lt = refl
  items_of-put key val q lo hi (branch page flags t ts) v lt = elim (Bool-cases (before key ts)) [
    | inl e ↦
        let below = before-bound key hi ts e lt in
        rw e (
          ap (λ xs. xs ++ items_behind ts) (items_of-put key val q lo (bound hi ts) t v.0 below)
          ∙ sym (
              insert-++_left key val (bound hi ts) hi (items_of t) (items_behind ts)
                (OrderedBehind-Within hi ts v.1) below))
    | inr e ↦ rw e (
        ap (λ xs. items_of t ++ xs) (items_behind-put key val q hi ts v.1 lt e)
        ∙ sym (
            insert-++_right key val lo (bound hi ts) (items_of t) (items_behind ts)
              (Ordered-Within lo (bound hi ts) t v.0) (bound-before key hi ts e)))
  ]

  items_behind-put :
      (key val q hi : ℕ) (ts : Trees)
      → OrderedBehind hi ts
      → key < hi
      → before key ts ≡ false
      → items_behind (put_behind key val q ts) ≡ insert key val (items_behind ts)
  items_behind-put key val q hi nil vs lt out = absurd (not_before key out)
  items_behind-put key val q hi (cons k u ts) vs lt out = elim (Bool-cases (before key ts)) [
    | inl e ↦
        let below = before-bound key hi ts e lt in
        rw e (
          ap (λ xs. xs ++ items_behind ts) (items_of-put key val q k (bound hi ts) u vs.0 below)
          ∙ sym (
              insert-++_left key val (bound hi ts) hi (items_of u) (items_behind ts)
                (OrderedBehind-Within hi ts vs.1) below))
    | inr e ↦ rw e (
        ap (λ xs. items_of u ++ xs) (items_behind-put key val q hi ts vs.1 lt e)
        ∙ sym (
            insert-++_right key val k (bound hi ts) (items_of u) (items_behind ts)
              (Ordered-Within k (bound hi ts) u vs.0) (bound-before key hi ts e)))
  ]

bound-put : (key val q hi : ℕ) (ts : Trees) → bound hi (put_behind key val q ts) ≡ bound hi ts
unfolding put_behind bound
bound-put key val q hi nil = refl
bound-put key val q hi (cons k u ts) = refl

-- It is in order.
module _ (key val q : ℕ) (small : key < 2 ^ 63) (fits : val < 2 ^ 64) where
  mutual
    unfolding put put_behind Ordered OrderedBehind bound items_of items_behind

    pub put-Ordered :
        (lo hi : ℕ) (t : Tree)
        → Ordered lo hi t
        → lo ≤ key
        → key < hi
        → value_of key (items_of t) ≡ none
        → Ordered lo hi (put key val q t)
    put-Ordered lo hi (leaf page flags xs) v le lt new = (
      insert-Rises key val lo xs v.0 le small fits new,
      insert-Within key val lo hi xs v.1 le lt,
      v.2,
    )
    put-Ordered lo hi (branch page flags t ts) v le lt new = elim (Bool-cases (before key ts)) [
      | inl e ↦ rw e (
        put-Ordered lo (bound hi ts) t v.0 le (before-bound key hi ts e lt)
            (value_of-none_left key (items_of t) (items_behind ts) new),
        v.1,
      )
      | inr e ↦
          rw (e, bound-put key val q hi ts)
            (
              v.0,
              put_behind-Ordered hi ts v.1 lt e
                  (value_of-none_right key (items_of t) (items_behind ts) new),
            )
    ]

    put_behind-Ordered :
        (hi : ℕ) (ts : Trees)
        → OrderedBehind hi ts
        → key < hi
        → before key ts ≡ false
        → value_of key (items_behind ts) ≡ none
        → OrderedBehind hi (put_behind key val q ts)
    put_behind-Ordered hi nil vs lt out new = absurd (not_before key out)
    put_behind-Ordered hi (cons k u ts) vs lt out new = elim (Bool-cases (before key ts)) [
      | inl e ↦ rw e (
        put-Ordered k (bound hi ts) u vs.0 (bound-before key hi (cons k u ts) out)
            (before-bound key hi ts e lt)
            (value_of-none_left key (items_of u) (items_behind ts) new),
        vs.1,
      )
      | inr e ↦
          rw (e, bound-put key val q hi ts)
            (
              vs.0,
              put_behind-Ordered hi ts vs.1 lt e
                  (value_of-none_right key (items_of u) (items_behind ts) new),
            )
    ]
