-- ===== src/Btree/Tree/Copied.antt =====
-- The tree that an item was put in, in the store where the pages on the way to its leaf are copied.
use adventure.Base.{
  ℕ, zero, suc, ◌+◌, ◌≤◌, ◌<◌, ◌≡◌, ◌≢◌, refl, ◌∙◌, ap, ◌⊎◌, inl, inr, ltb, Bool-cases,
  if◌then◌else◌, List, length, get_or, ◌∷◌, arith, sym, subst,
}
use adventure.Store.{Store, bytes_of}
use adventure.Btree.Branch.View.{Link, find_link, child_at}
use adventure.Btree.Branch.Replaced.{OneChild}
use adventure.Btree.Tree.Shape.{
  Tree, leaf, branch, Trees, nil, cons, page_of, links, chosen, Stands, StandBehind, child_at-suc,
}
use adventure.Btree.Tree.Pages.{
  AllPages, AllBehind, AllPages-map, AllBehind-map, AllPages-both, AllBehind-both, AllBehind-all,
  Apart, SpreadBehind, SamePage, Stands-kept, StandBehind-kept,
}
use adventure.Btree.Tree.Put.{before, put, put_behind}
use adventure.Btree.Tree.Disjoint.{AllBehind-chosen, chosen-before, chosen-behind, swap}

-- The first child, and those behind it.
abbrev pub put_first : (key val q : ℕ) → Tree → Trees → Tree
put_first key val q t ts = if before key ts then put key val q t else t

abbrev pub put_rest : (key val q : ℕ) → Trees → Trees
put_rest key val q ts = if before key ts then ts else put_behind key val q ts

OneChild-zero : (first new : ℕ) (ls : List Link) → OneChild first ls 0 new new ls
OneChild-zero first new ls = record {
  place = omega arith;
  same_length = refl;
  same_keys = λ j lt. refl;
  at = refl;
  other = λ j ne. later j ne;
}
  where
    later : (j : ℕ) → j ≢ 0 → child_at new ls j ≡ child_at first ls j
    later zero ne = absurd (ne refl)
    later (suc j) ne = refl

OneChild-suc :
    (first k u u' i new : ℕ) (ls ls' : List Link)
    → OneChild u ls i new u' ls'
    → OneChild first ((k, u) ∷ ls) (suc i) new first ((k, u') ∷ ls')
OneChild-suc first k u u' i new ls ls' one = record {
  place = omega (arith, one.place);
  same_length = ap suc one.same_length;
  same_keys = λ j lt. keys j lt;
  at = child_at-suc first (k, u') ls' i ∙ one.at;
  other = λ j ne. later j ne;
}
  where
    keys :
        (j : ℕ)
        → j < suc (length ls)
        → (get_or ((k, u') ∷ ls') j (0, 0)).0 ≡ (get_or ((k, u) ∷ ls) j (0, 0)).0
    keys zero lt = refl
    keys (suc j) lt = one.same_keys j (omega arith)

    later : (j : ℕ) → j ≢ suc i → child_at first ((k, u') ∷ ls') j ≡ child_at first ((k, u) ∷ ls) j
    later zero ne = refl
    later (suc j) ne =
        child_at-suc first (k, u') ls' j
        ∙ one.other j (λ e. ne (ap suc e))
        ∙ sym (child_at-suc first (k, u) ls j)

-- The links of the copied branch have one new child.
pub put-OneChild :
    (key val q : ℕ) (t : Tree) (ts : Trees)
    → OneChild
        (page_of t)
        (links ts)
        (find_link key (links ts))
        (page_of (put key val q (chosen t ts key)))
        (page_of (put_first key val q t ts))
        (links (put_rest key val q ts))
unfolding before chosen put_behind find_link
put-OneChild key val q t nil = OneChild-zero (page_of t) (page_of (put key val q t)) (links nil)
put-OneChild key val q t (cons k u ts) = elim (Bool-cases (ltb key k)) [
  | inl e ↦ rw e (OneChild-zero (page_of t) (page_of (put key val q t)) (links (cons k u ts)))
  | inr e ↦ rw e (
      OneChild-suc (page_of t) k (page_of u) (page_of (put_first key val q u ts))
        (find_link key (links ts)) (page_of (put key val q (chosen u ts key))) (links ts)
        (links (put_rest key val q ts)) (put-OneChild key val q u ts))
]

-- A relation between the pages of a tree and those of others, turned round.
mutual
  unfolding AllPages AllBehind

  turned :
      (R : ℕ → ℕ → Type 0) (t : Tree) (ts : Trees)
      → AllPages (λ p. AllBehind (R p) ts) t
      → AllBehind (λ r. AllPages (λ p. R p r) t) ts
  turned R (leaf page flags xs) ts a = a
  turned R (branch page flags t us) ts a =
      AllBehind-map (λ r a. (a.0, a.1.0, a.1.1)) ts
        (AllBehind-both (R page) (λ r. AllPages (λ p. R p r) t × AllBehind (λ p. R p r) us) ts a.0
          (AllBehind-both (λ r. AllPages (λ p. R p r) t) (λ r. AllBehind (λ p. R p r) us) ts
            (turned R t ts a.1) (turned_behind R us ts a.2)))

  turned_behind :
      (R : ℕ → ℕ → Type 0) (us ts : Trees)
      → AllBehind (λ p. AllBehind (R p) ts) us
      → AllBehind (λ r. AllBehind (λ p. R p r) us) ts
  turned_behind R nil ts a = AllBehind-all (λ r. Unit) (λ r. tt) ts
  turned_behind R (cons k u us) ts a =
      AllBehind-both (λ r. AllPages (λ p. R p r) u) (λ r. AllBehind (λ p. R p r) us) ts
        (turned R u ts a.0) (turned_behind R us ts a.1)

-- The byte at `a` is not in the page at `p`.
abbrev pub Clear : (size a p : ℕ) → Type 0
Clear size a p = (a < p) ⊎ (p + size ≤ a)

-- Nothing has changed outside the page at `q` and those of the tree.
abbrev pub Kept : (s g : Store) (size q : ℕ) → Tree → Type 0
Kept s g size q c =
    (a : ℕ)
    → 14 ≤ a
    → a < s.end
    → Clear size a q
    → AllPages (Clear size a) c
    → bytes_of g a ≡ bytes_of s a

module _ (s g : Store) (size q : ℕ) (longer : s.end ≤ g.end) where
  pub SamePage-Kept :
      (c : Tree)
      → Kept s g size q c
      → (p : ℕ) → Apart size p q × AllPages (Apart size p) c
      → SamePage s g size p
  SamePage-Kept c kept p far a lo hi behind inside =
      kept a behind inside (omega (arith, far.0)) (AllPages-map (λ r apart. clear r apart) c far.1)
    where
      clear : (r : ℕ) → Apart size p r → Clear size a r
      clear r apart = omega (arith, apart)

  module _ (d key val : ℕ) where
    -- The children other than the one that was chosen stand as they did.
    pub put-StandBehind :
        (t : Tree) (ts : Trees)
        → Stands s size d t
        → StandBehind s size d ts
        → AllPages (λ p. Apart size p q) t
        → AllBehind (λ p. Apart size p q) ts
        → AllPages (λ p. AllBehind (Apart size p) ts) t
        → SpreadBehind size ts
        → Kept s g size q (chosen t ts key)
        → Stands g size d (put key val q (chosen t ts key))
        → Stands g size d (put_first key val q t ts) × StandBehind g size d (put_rest key val q ts)
    unfolding before chosen put_behind AllBehind SpreadBehind StandBehind
    put-StandBehind t nil v vs out outs cross spread kept new = (new, tt)
    put-StandBehind t (cons k u ts) v vs out outs cross spread kept new =
        elim (Bool-cases (ltb key k)) [
          | inl e ↦
              let first = chosen-before key t (cons k u ts) e in
              let kept_first = subst (Kept s g size q) first kept in
              let far =
                AllBehind-map (λ r a. AllPages-map (λ p b. swap key val q size p r b) t a)
                  (cons k u ts) (turned (Apart size) t (cons k u ts) cross) in
              let same = AllBehind-map (SamePage-Kept t kept_first) (cons k u ts) (
                AllBehind-both (λ p. Apart size p q) (λ p. AllPages (Apart size p) t) (cons k u ts)
                  outs far) in
              rw e (
                subst (λ c. Stands g size d (put key val q c)) first new,
                StandBehind-kept s g size longer d (cons k u ts) same vs,
              )
          | inr e ↦
              let next = chosen-behind key k t u ts e in
              let c = chosen t (cons k u ts) key in
              let far =
                AllPages-map (λ p a. AllBehind-chosen (Apart size p) key t (cons k u ts) e a) t
                  cross in
              let same =
                AllPages-map (SamePage-Kept c kept) t (
                  AllPages-both (λ p. Apart size p q) (λ p. AllPages (Apart size p) c) t out far) in
              let rest =
                put-StandBehind u ts vs.0 vs.1 outs.0 outs.1 spread.0 spread.2
                  (subst (Kept s g size q) next kept)
                  (subst (λ c. Stands g size d (put key val q c)) next new) in
              rw e (Stands-kept s g size longer d t same v, rest)
        ]
