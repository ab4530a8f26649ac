-- ===== src/Btree/Tree/Split/Items.antt =====
-- The items of the leaves that `btree_leaf_copy_in` makes.
use adventure.Base.{
  ℕ, suc, ◌+◌, ◌-◌, ◌*◌, ◌^◌, ◌≤◌, ◌<◌, ◌≡◌, ◌⊎◌, List, sym, ◌∙◌, ap, inl, inr, arith, length,
  get_or,
}
use adventure.Store.{Store}
use adventure.Store.Access.{word}
use adventure.Btree.Leaf.Items.{
  Item, find_item, find_item-le, insert, length-insert, get_or-insert_before, get_or-insert_at,
  get_or-insert_behind,
}
use adventure.Btree.Leaf.View.{LeafPage}
use adventure.Btree.Leaf.Filled.{before_at_behind}
use adventure.Btree.Tree.Split.Copy.{
  with_new, with_new_front, with_new_key, with_new_val, with_new_back, without, without_front,
}

-- The words from `base` on are the items `ys`.
pub record HasItems (s : Store) (base : ℕ) (ys : List Item) : Type 0 where
  pub keys : (i : ℕ) → i < length ys → word s (base + 16 * i) ≡ (get_or ys i (0, 0)).0
  pub vals : (i : ℕ) → i < length ys → word s (base + (16 * i + 8)) ≡ (get_or ys i (0, 0)).1

-- The first `m` items, and those behind.
module _ (s : Store) (src p si key val flags size n : ℕ) (ys : List Item) where
  abbrev m : ℕ
  m = length ys

  abbrev f : ℕ
  f = find_item key ys

  abbrev out : Store
  out = with_new s src p si (16 * f) (16 * (m - f)) key val flags size n

  module _ (h : HasItems s (src + si) ys)
      (far : (src + (si + 16 * m) ≤ p) ⊎ (p + (24 + 16 * m) ≤ src)) where
    far' : (src + (si + 16 * f + 16 * (m - f)) ≤ p) ⊎ (p + (24 + 16 * f + 16 * (m - f)) ≤ src)
    far' = omega (arith, find_item-le key ys, far)

    front :
        (i c : ℕ)
        → i < f
        → c ≤ 8
        → word out (p + 8 + (16 * i + c)) ≡ word s (src + si + (16 * i + c))
    front i c lt le =
        with_new_front s src p si (16 * f) (16 * (m - f)) key val flags size n far' (16 * i + c)
          (omega arith)

    back :
        (i c : ℕ)
        → f ≤ i
        → i < m
        → c ≤ 8
        → word out (p + 8 + (16 * suc i + c)) ≡ word s (src + si + (16 * i + c))
    back i c lo lt le =
        ap (word out) (omega arith)
        ∙ with_new_back s src p si (16 * f) (16 * (m - f)) key val flags size n far'
            (16 * (i - f) + c) (omega arith)
        ∙ ap (word s) (omega arith)

    fields :
        (g : Item → ℕ) (c : ℕ)
        → c ≤ 8
        → ((i : ℕ) → i < m → word s (src + si + (16 * i + c)) ≡ g (get_or ys i (0, 0)))
        → word out (p + 8 + (16 * f + c)) ≡ g (key, val)
        → (i : ℕ) → i < suc m
        → word out (p + 8 + (16 * i + c)) ≡ g (get_or (insert key val ys) i (0, 0))
    fields g c le old item i lt = elim (before_at_behind f i) [
      | inl before ↦
          front i c before le
          ∙ old i (omega (arith, find_item-le key ys))
          ∙ ap g (sym (get_or-insert_before key val ys i before))
      | inr (inl at) ↦
          ap (λ j. word out (p + 8 + (16 * j + c))) at
          ∙ item
          ∙ ap g (sym (get_or-insert_at key val ys))
          ∙ ap (λ j. g (get_or (insert key val ys) j (0, 0))) (sym at)
      | inr (inr (j, e, behind)) ↦
          ap (λ k. word out (p + 8 + (16 * k + c))) e
          ∙ back j c behind (omega arith) le
          ∙ old j (omega arith)
          ∙ ap g (sym (get_or-insert_behind key val ys j behind))
          ∙ ap (λ k. g (get_or (insert key val ys) k (0, 0))) (sym e)
    ]

    pub with_new-HasItems : key < 2 ^ 64 → val < 2 ^ 64 → HasItems out (p + 8) (insert key val ys)
    with_new-HasItems small fits = record {
      keys = λ i lt.
          ap (word out) (omega arith)
          ∙ fields (λ x. x.0) 0 (omega arith) (λ j lj. ap (word s) (omega arith) ∙ h.keys j lj)
              (ap (word out) (omega arith)
                ∙ with_new_key s src p si (16 * f) (16 * (m - f)) key val flags size n far' small)
              i (omega (arith, length-insert key val ys));
      vals = λ i lt.
          fields (λ x. x.1) 8 (omega arith) h.vals
            (ap (word out) (omega arith)
              ∙ with_new_val s src p si (16 * f) (16 * (m - f)) key val flags size n far' fits)
            i (omega (arith, length-insert key val ys));
    }

pub without-HasItems :
    (s : Store) (src p si flags size n : ℕ) (ys : List Item)
    → HasItems s (src + si) ys
    → (src + (si + 16 * length ys) ≤ p) ⊎ (p + (8 + 16 * length ys) ≤ src)
    → HasItems (without s src p si (16 * length ys) flags size n) (p + 8) ys
without-HasItems s src p si flags size n ys h far = record {
  keys = λ i lt.
      without_front s src p si (16 * length ys) flags size n far (16 * i) (omega arith)
      ∙ h.keys i lt;
  vals = λ i lt.
      without_front s src p si (16 * length ys) flags size n far (16 * i + 8) (omega arith)
      ∙ h.vals i lt;
}

-- A leaf's items are its page's.
pub LeafPage-HasItems :
    (s : Store) (page flags size : ℕ) (xs : List Item)
    → LeafPage s page flags size xs
    → HasItems s (page + 8) xs
LeafPage-HasItems s page flags size xs v = record {
  keys = λ i lt. ap (word s) (omega arith) ∙ v.keys i lt;
  vals = λ i lt. ap (word s) (omega arith) ∙ v.vals i lt;
}
