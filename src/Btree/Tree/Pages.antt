-- ===== src/Btree/Tree/Pages.antt =====
-- The pages of a tree: what holds of each, pages that do not overlap, and trees whose pages are as
-- they were.
use adventure.Base.{
  ℕ, zero, suc, ◌+◌, ◌≤◌, ◌<◌, ◌≡◌, ◌∙◌, ◌⊎◌, inl, inr, ltb, Bool-cases, arith, List,
}
use adventure.Store.{Store, bytes_of}
use adventure.Store.Access.{word}
use adventure.Memory.Words.{join64_ext}
use adventure.Btree.Leaf.View.{LeafPage, used_bytes}
use adventure.Btree.Leaf.Items.{Item}
use adventure.Btree.Branch.View.{Link, BranchPage, branch_bytes}
use adventure.Btree.Tree.Shape.{
  Tree, leaf, branch, Trees, nil, cons, page_of, links, chosen, Stands, StandBehind,
}

-- `P` holds of every page.
unfoldable mutual
  pub AllPages : (P : ℕ → Type 0) → Tree → Type 0
  AllPages P (leaf page flags xs) = P page
  AllPages P (branch page flags t ts) = P page × AllPages P t × AllBehind P ts

  pub AllBehind : (P : ℕ → Type 0) → Trees → Type 0
  AllBehind P nil = Unit
  AllBehind P (cons k u ts) = AllPages P u × AllBehind P ts

mutual
  unfolding AllPages AllBehind

  pub AllPages-map :
      {P Q : ℕ → Type 0} (f : (p : ℕ) → P p → Q p) (t : Tree) → AllPages P t → AllPages Q t
  AllPages-map f (leaf page flags xs) a = f page a
  AllPages-map f (branch page flags t ts) a =
      (f page a.0, AllPages-map f t a.1, AllBehind-map f ts a.2)

  pub AllBehind-map :
      {P Q : ℕ → Type 0} (f : (p : ℕ) → P p → Q p) (ts : Trees) → AllBehind P ts → AllBehind Q ts
  AllBehind-map f nil a = tt
  AllBehind-map f (cons k u ts) a = (AllPages-map f u a.0, AllBehind-map f ts a.1)

mutual
  unfolding AllPages AllBehind

  AllPages-all : (P : ℕ → Type 0) (f : (p : ℕ) → P p) (t : Tree) → AllPages P t
  AllPages-all P f (leaf page flags xs) = f page
  AllPages-all P f (branch page flags t ts) = (f page, AllPages-all P f t, AllBehind-all P f ts)

  pub AllBehind-all : (P : ℕ → Type 0) (f : (p : ℕ) → P p) (ts : Trees) → AllBehind P ts
  AllBehind-all P f nil = tt
  AllBehind-all P f (cons k u ts) = (AllPages-all P f u, AllBehind-all P f ts)

mutual
  unfolding AllPages AllBehind

  pub AllPages-both :
      (P Q : ℕ → Type 0) (t : Tree) → AllPages P t → AllPages Q t → AllPages (λ p. P p × Q p) t
  AllPages-both P Q (leaf page flags xs) a b = (a, b)
  AllPages-both P Q (branch page flags t ts) a b =
      ((a.0, b.0), AllPages-both P Q t a.1 b.1, AllBehind-both P Q ts a.2 b.2)

  pub AllBehind-both :
      (P Q : ℕ → Type 0) (ts : Trees)
      → AllBehind P ts
      → AllBehind Q ts
      → AllBehind (λ p. P p × Q p) ts
  AllBehind-both P Q nil a b = tt
  AllBehind-both P Q (cons k u ts) a b =
      (AllPages-both P Q u a.0 b.0, AllBehind-both P Q ts a.1 b.1)

pub AllPages-page_of : (P : ℕ → Type 0) (t : Tree) → AllPages P t → P (page_of t)
unfolding AllPages
AllPages-page_of P (leaf page flags xs) a = a
AllPages-page_of P (branch page flags t ts) a = a.0

pub AllPages-chosen :
    (P : ℕ → Type 0) (t : Tree) (ts : Trees) (key : ℕ)
    → AllPages P t
    → AllBehind P ts
    → AllPages P (chosen t ts key)
unfolding AllBehind chosen
AllPages-chosen P t nil key a b = a
AllPages-chosen P t (cons k u ts) key a b = elim (Bool-cases (ltb key k)) [
  | inl e ↦ rw e a
  | inr e ↦ rw e (AllPages-chosen P u ts key b.0 b.1)
]

-- Two pages of `size` bytes that do not overlap.
abbrev pub Apart : (size p q : ℕ) → Type 0
Apart size p q = (p + size ≤ q) ⊎ (q + size ≤ p)

-- No two pages of the tree overlap.
unfoldable mutual
  unfolding AllPages AllBehind

  pub Spread : (size : ℕ) → Tree → Type 0
  Spread size (leaf page flags xs) = Unit
  Spread size (branch page flags t ts) =
      AllPages (Apart size page) t
      × AllBehind (Apart size page) ts
      × AllPages (λ p. AllBehind (Apart size p) ts) t
      × Spread size t
      × SpreadBehind size ts

  pub SpreadBehind : (size : ℕ) → Trees → Type 0
  SpreadBehind size nil = Unit
  SpreadBehind size (cons k u ts) =
      AllPages (λ p. AllBehind (Apart size p) ts) u × Spread size u × SpreadBehind size ts

pub chosen-Spread :
    (size key : ℕ) (t : Tree) (ts : Trees)
    → Spread size t
    → SpreadBehind size ts
    → Spread size (chosen t ts key)
unfolding chosen SpreadBehind
chosen-Spread size key t nil v vs = v
chosen-Spread size key t (cons k u ts) v vs = elim (Bool-cases (ltb key k)) [
  | inl e ↦ rw e v
  | inr e ↦ rw e (chosen-Spread size key u ts vs.1 vs.2)
]

-- The bytes of the page at `p` are those they were.
abbrev pub SamePage : (s g : Store) (size p : ℕ) → Type 0
SamePage s g size p =
    (a : ℕ) → p ≤ a → a < p + size → 14 ≤ a → a < s.end → bytes_of g a ≡ bytes_of s a

module _ (s g : Store) (size : ℕ) (longer : s.end ≤ g.end) where
  same_word :
      (p q : ℕ)
      → SamePage s g size p
      → 14 ≤ p
      → p + size ≤ s.end
      → p ≤ q
      → q + 8 ≤ p + size
      → word g q ≡ word s q
  same_word p q same behind inside lo hi =
      join64_ext (bytes_of s) (bytes_of g) q q
        (λ i lt. same (q + i) (omega arith) (omega arith) (omega arith) (omega arith))

  pub LeafPage-kept :
      (p flags : ℕ) (xs : List Item)
      → SamePage s g size p
      → LeafPage s p flags size xs
      → LeafPage g p flags size xs
  LeafPage-kept p flags xs same v =
      let w : (q : ℕ) → p ≤ q → q + 8 ≤ p + size → word g q ≡ word s q =
        λ q lo hi. same_word p q same (omega (arith, v.behind_header)) v.before_end lo hi in
      record {
        behind_header = v.behind_header;
        before_end = omega (arith, v.before_end);
        byte_flags = v.byte_flags;
        small_size = v.small_size;
        whole = v.whole;
        fits = v.fits;
        header = w p (omega arith) (omega (arith, v.fits)) ∙ v.header;
        keys = λ i lt. w (p + used_bytes i) (omega arith) (omega (arith, v.fits)) ∙ v.keys i lt;
        vals = λ i lt. w (p + used_bytes i + 8) (omega arith) (omega (arith, v.fits)) ∙ v.vals i lt;
      }

  pub BranchPage-kept :
      (p flags first : ℕ) (ls : List Link)
      → SamePage s g size p
      → BranchPage s p flags size first ls
      → BranchPage g p flags size first ls
  BranchPage-kept p flags first ls same v =
      let w : (q : ℕ) → p ≤ q → q + 8 ≤ p + size → word g q ≡ word s q =
        λ q lo hi. same_word p q same (omega (arith, v.behind_header)) v.before_end lo hi in
      record {
        behind_header = v.behind_header;
        before_end = omega (arith, v.before_end);
        byte_flags = v.byte_flags;
        small_size = v.small_size;
        fits = v.fits;
        header = w p (omega arith) (omega (arith, v.fits)) ∙ v.header;
        leftmost = w (p + 8) (omega arith) (omega (arith, v.fits)) ∙ v.leftmost;
        keys = λ i lt. w (p + branch_bytes i) (omega arith) (omega (arith, v.fits)) ∙ v.keys i lt;
        children = λ i lt.
            w (p + branch_bytes i + 8) (omega arith) (omega (arith, v.fits)) ∙ v.children i lt;
      }

  mutual
    unfolding AllPages AllBehind Stands StandBehind

    pub Stands-kept :
        (d : ℕ) (t : Tree) → AllPages (SamePage s g size) t → Stands s size d t → Stands g size d t
    Stands-kept zero (leaf page flags xs) same v = (LeafPage-kept page flags xs same v.0, v.1)
    Stands-kept zero (branch page flags t ts) same v = absurd v
    Stands-kept (suc d) (leaf page flags xs) same v = absurd v
    Stands-kept (suc d) (branch page flags t ts) same v = (
      BranchPage-kept page flags (page_of t) (links ts) same.0 v.0,
      v.1,
      Stands-kept d t same.1 v.2,
      StandBehind-kept d ts same.2 v.3,
    )

    pub StandBehind-kept :
        (d : ℕ) (ts : Trees)
        → AllBehind (SamePage s g size) ts
        → StandBehind s size d ts
        → StandBehind g size d ts
    StandBehind-kept d nil same v = tt
    StandBehind-kept d (cons k u ts) same v =
        (Stands-kept d u same.0 v.0, StandBehind-kept d ts same.1 v.1)
