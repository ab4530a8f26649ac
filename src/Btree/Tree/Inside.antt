-- ===== src/Btree/Tree/Inside.antt =====
-- Where the pages of a tree lie in the file.
use adventure.Base.{ℕ, zero, suc, ◌+◌, ◌≤◌, inl, List, [], ◌∷◌, arith}
use adventure.Store.{Store}
use adventure.Btree.Leaf.Items.{Item, Rises}
use adventure.Btree.Leaf.Taken.{Coming, at_end, waiting}
use adventure.Btree.Tree.Shape.{Tree, leaf, branch, Trees, nil, cons, page_of, Stands, StandBehind}
use adventure.Btree.Tree.Pages.{AllPages, AllBehind, AllPages-map, AllPages-both, Apart}

mutual
  unfolding AllPages AllBehind Stands StandBehind

  pub Stands-inside :
      (s : Store) (size d : ℕ) (t : Tree) → Stands s size d t → AllPages (λ p. p + size ≤ s.end) t
  Stands-inside s size zero (leaf page flags xs) v = v.0.before_end
  Stands-inside s size zero (branch page flags t ts) v = absurd v
  Stands-inside s size (suc d) (leaf page flags xs) v = absurd v
  Stands-inside s size (suc d) (branch page flags t ts) v =
      (v.0.before_end, Stands-inside s size d t v.2, StandBehind-inside s size d ts v.3)

  StandBehind-inside :
      (s : Store) (size d : ℕ) (ts : Trees)
      → StandBehind s size d ts
      → AllBehind (λ p. p + size ≤ s.end) ts
  StandBehind-inside s size d nil v = tt
  StandBehind-inside s size d (cons k u ts) v =
      (Stands-inside s size d u v.0, StandBehind-inside s size d ts v.1)

pub Stands-behind : (s : Store) (size d : ℕ) (t : Tree) → Stands s size d t → 32 ≤ page_of t
unfolding Stands
Stands-behind s size zero (leaf page flags xs) v = v.0.behind_header
Stands-behind s size zero (branch page flags t ts) v = absurd v
Stands-behind s size (suc d) (leaf page flags xs) v = absurd v
Stands-behind s size (suc d) (branch page flags t ts) v = v.0.behind_header

Coming-Apart :
    (s : Store) (page size : ℕ) {q : ℕ} {ps : List ℕ}
    → page + size ≤ s.end
    → Coming s page size q ps
    → Apart size page q
Coming-Apart s page size inside (at_end list) = inl inside
Coming-Apart s page size inside (waiting list behind in_file apart) = apart

-- The page to come does not overlap the tree.
pub coming-Apart :
    (s : Store) (size d : ℕ) (t : Tree) (q : ℕ) (ps : List ℕ)
    → Stands s size d t
    → AllPages (λ p. Coming s p size q ps) t
    → AllPages (λ p. Apart size p q) t
coming-Apart s size d t q ps v coming =
    AllPages-map (λ p a. Coming-Apart s p size a.0 a.1) t
      (AllPages-both (λ p. p + size ≤ s.end) (λ p. Coming s p size q ps) t
        (Stands-inside s size d t v) coming)

pub Rises-low : (low : ℕ) (xs : List Item) → Rises low xs → Rises 0 xs
unfolding Rises
Rises-low low [] v = tt
Rises-low low (x ∷ xs) v = (omega arith, v.1, v.2, v.3)
