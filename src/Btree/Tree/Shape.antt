-- ===== src/Btree/Tree/Shape.antt =====
-- A B+ tree as a tree of pages: a leaf has items, a branch a first child and, behind each key,
-- another; every leaf is at the same depth.
use adventure.Base.{
  ℕ, zero, suc, ◌≡◌, refl, ◌∙◌, true, false, List, [], ◌∷◌, ◌++◌, if◌then◌else◌, ltb, Bool-cases,
  inl, inr,
}
use adventure.Store.{Store}
use adventure.Btree.Leaf.Items.{Item}
use adventure.Btree.Leaf.View.{LeafPage, leaf_flag}
use adventure.Btree.Branch.View.{Link, BranchPage, find_link, child_at}

mutual
  pub data Tree : Type 0 where
    leaf : (page flags : ℕ) → List Item → Tree
    branch : (page flags : ℕ) → Tree → Trees → Tree

  -- Each child with the key before it.
  pub data Trees : Type 0 where
    nil : Trees
    cons : (key : ℕ) → Tree → Trees → Trees

abbrev pub page_of : Tree → ℕ
page_of (leaf page flags xs) = page
page_of (branch page flags t ts) = page

abbrev pub links : Trees → List Link
links nil = []
links (cons key t ts) = (key, page_of t) ∷ links ts

-- The items from left to right.
unfoldable mutual
  pub items_of : Tree → List Item
  items_of (leaf page flags xs) = xs
  items_of (branch page flags t ts) = items_of t ++ items_behind ts

  pub items_behind : Trees → List Item
  items_behind nil = []
  items_behind (cons key t ts) = items_of t ++ items_behind ts

-- The pages of the tree, each page behind those below it.
unfoldable mutual
  pub pages_of : Tree → List ℕ
  pages_of (leaf page flags xs) = page ∷ []
  pages_of (branch page flags t ts) = pages_of t ++ pages_behind ts ++ page ∷ []

  pub pages_behind : Trees → List ℕ
  pages_behind nil = []
  pages_behind (cons key t ts) = pages_of t ++ pages_behind ts

-- The pages of `s`, of `size` bytes each, are a tree of depth `d`.
unfoldable mutual
  pub Stands : Store → (size d : ℕ) → Tree → Type 0
  Stands s size zero (leaf page flags xs) = LeafPage s page flags size xs × (leaf_flag flags ≡ true)
  Stands s size zero (branch page flags t ts) = ⊥
  Stands s size (suc d) (leaf page flags xs) = ⊥
  Stands s size (suc d) (branch page flags t ts) =
      BranchPage s page flags size (page_of t) (links ts)
      × (leaf_flag flags ≡ false)
      × Stands s size d t
      × StandBehind s size d ts

  pub StandBehind : Store → (size d : ℕ) → Trees → Type 0
  StandBehind s size d nil = Unit
  StandBehind s size d (cons key t ts) = Stands s size d t × StandBehind s size d ts

-- The child that a search for `key` goes to.
unfoldable pub chosen : Tree → Trees → (key : ℕ) → Tree
chosen t nil key = t
chosen t (cons k u ts) key = if ltb key k then t else chosen u ts key

pub child_at-suc :
    (p : ℕ) (l : Link) (ls : List Link) (i : ℕ) → child_at p (l ∷ ls) (suc i) ≡ child_at l.1 ls i
child_at-suc p l ls zero = refl
child_at-suc p l ls (suc i) = refl

pub child_at-chosen :
    (t : Tree) (ts : Trees) (key : ℕ)
    → child_at (page_of t) (links ts) (find_link key (links ts)) ≡ page_of (chosen t ts key)
unfolding find_link chosen
child_at-chosen t nil key = refl
child_at-chosen t (cons k u ts) key = elim (Bool-cases (ltb key k)) [
  | inl e ↦ rw e refl
  | inr e ↦ rw e (
      child_at-suc (page_of t) (k, page_of u) (links ts) (find_link key (links ts))
      ∙ child_at-chosen u ts key)
]

-- It is one of the children.
pub chosen-Stands :
    (s : Store) (size d : ℕ) (t : Tree) (ts : Trees) (key : ℕ)
    → Stands s size d t
    → StandBehind s size d ts
    → Stands s size d (chosen t ts key)
unfolding chosen StandBehind
chosen-Stands s size d t nil key v vs = v
chosen-Stands s size d t (cons k u ts) key v vs = elim (Bool-cases (ltb key k)) [
  | inl e ↦ rw e v
  | inr e ↦ rw e (chosen-Stands s size d u ts key vs.0 vs.1)
]
