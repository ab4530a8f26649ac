-- ===== src/Btree/Tree/Disjoint.antt =====
-- The pages of the tree that an item was put in: those of the old tree and `q`, without the old root.
use adventure.Base.{ℕ, ◌≡◌, refl, inl, inr, true, false, ltb, Bool-cases}
use adventure.Btree.Tree.Shape.{Tree, leaf, branch, Trees, nil, cons, page_of, chosen}
use adventure.Btree.Tree.Pages.{
  AllPages, AllBehind, AllPages-map, AllBehind-map, AllPages-both, AllPages-page_of,
  AllPages-chosen, Apart, Spread, SpreadBehind,
}
use adventure.Btree.Tree.Put.{before, not_before, put, put_behind}

pub chosen-before : (key : ℕ) (t : Tree) (ts : Trees) → before key ts ≡ true → chosen t ts key ≡ t
unfolding before chosen
chosen-before key t nil e = refl
chosen-before key t (cons k u ts) e = rw e refl

-- Behind the first key, the first child is not chosen.
pub chosen-behind :
    (key k : ℕ) (t u : Tree) (ts : Trees)
    → ltb key k ≡ false
    → chosen t (cons k u ts) key ≡ chosen u ts key
unfolding chosen
chosen-behind key k t u ts e = rw e refl

pub AllBehind-chosen :
    (P : ℕ → Type 0) (key : ℕ) (t : Tree) (ts : Trees)
    → before key ts ≡ false
    → AllBehind P ts
    → AllPages P (chosen t ts key)
unfolding before chosen AllBehind
AllBehind-chosen P key t nil e a = absurd (not_before key e)
AllBehind-chosen P key t (cons k u ts) e a = rw e (AllPages-chosen P u ts key a.0 a.1)

AllBehind-chosen_page :
    (P : ℕ → Type 0) (key : ℕ) (t : Tree) (ts : Trees)
    → before key ts ≡ false
    → AllBehind P ts
    → P (page_of (chosen t ts key))
AllBehind-chosen_page P key t ts e a =
    AllPages-page_of P (chosen t ts key) (AllBehind-chosen P key t ts e a)

module _ (key val q : ℕ) where
  mutual
    unfolding put put_behind AllPages AllBehind

    pub AllPages-put :
        (P : ℕ → Type 0) (t : Tree) → P q → AllPages P t → AllPages P (put key val q t)
    AllPages-put P (leaf page flags xs) new a = new
    AllPages-put P (branch page flags t ts) new a = elim (Bool-cases (before key ts)) [
      | inl e ↦ rw e (
        AllPages-page_of P (chosen t ts key) (AllPages-chosen P t ts key a.1 a.2),
        AllPages-put P t new a.1,
        a.2,
      )
      | inr e ↦ rw e (AllBehind-chosen_page P key t ts e a.2, a.1, AllBehind-put P ts new a.2)
    ]

    pub AllBehind-put :
        (P : ℕ → Type 0) (ts : Trees) → P q → AllBehind P ts → AllBehind P (put_behind key val q ts)
    AllBehind-put P nil new a = tt
    AllBehind-put P (cons k u ts) new a = elim (Bool-cases (before key ts)) [
      | inl e ↦ rw e (AllPages-put P u new a.0, a.1)
      | inr e ↦ rw e (a.0, AllBehind-put P ts new a.1)
    ]

  module _ (size : ℕ) where
    pub swap : (p r : ℕ) → Apart size p r → Apart size r p
    swap p r (inl h) = inr h
    swap p r (inr h) = inl h

    -- The old root does not overlap the new tree.
    pub AllPages-put_Apart :
        (t : Tree)
        → AllPages (λ p. Apart size p q) t
        → Spread size t
        → AllPages (Apart size (page_of t)) (put key val q t)
    unfolding put AllPages Spread
    AllPages-put_Apart (leaf page flags xs) out v = out
    AllPages-put_Apart (branch page flags t ts) out v = elim (Bool-cases (before key ts)) [
      | inl e ↦ rw e (
        AllPages-page_of (Apart size page) (chosen t ts key)
            (AllPages-chosen (Apart size page) t ts key v.0 v.1),
        AllPages-put (Apart size page) t out.0 v.0,
        v.1,
      )
      | inr e ↦ rw e (
        AllBehind-chosen_page (Apart size page) key t ts e v.1,
        v.0,
        AllBehind-put (Apart size page) ts out.0 v.1,
      )
    ]

    AllBehind-put_Apart :
        (t : Tree) (ts : Trees)
        → before key ts ≡ false
        → AllBehind (λ p. Apart size p q) ts
        → SpreadBehind size ts
        → AllBehind (Apart size (page_of (chosen t ts key))) (put_behind key val q ts)
    unfolding before chosen put put_behind AllBehind SpreadBehind
    AllBehind-put_Apart t nil e out v = absurd (not_before key e)
    AllBehind-put_Apart t (cons k u ts) e out v = elim (Bool-cases (before key ts)) [
      | inl f ↦
          rw (e, f, chosen-before key u ts f)
            (
              AllPages-put_Apart u out.0 v.1,
              AllPages-page_of (λ p. AllBehind (Apart size p) ts) u v.0,
            )
      | inr f ↦
          rw (e, f)
            (
              AllPages-map
                  (λ p a.
                    swap p (page_of (chosen u ts key))
                      (AllBehind-chosen_page (Apart size p) key u ts f a))
                  u v.0,
              AllBehind-put_Apart u ts f out.1 v.2,
            )
    ]

    across :
        (t : Tree) (ts : Trees)
        → AllPages (λ p. Apart size p q) t
        → AllPages (λ p. AllBehind (Apart size p) ts) t
        → AllPages (λ p. AllBehind (Apart size p) (put_behind key val q ts)) t
    across t ts out v =
        AllPages-map (λ p a. AllBehind-put (Apart size p) ts a.0 a.1) t
          (AllPages-both (λ p. Apart size p q) (λ p. AllBehind (Apart size p) ts) t out v)

    mutual
      unfolding put put_behind AllPages AllBehind Spread SpreadBehind

      pub put-Spread :
          (t : Tree)
          → AllPages (λ p. Apart size p q) t
          → Spread size t
          → Spread size (put key val q t)
      put-Spread (leaf page flags xs) out v = tt
      put-Spread (branch page flags t ts) out v = elim (Bool-cases (before key ts)) [
        | inl e ↦
            rw (e, chosen-before key t ts e)
              (
                AllPages-put_Apart t out.1 v.3,
                AllPages-page_of (λ p. AllBehind (Apart size p) ts) t v.2,
                AllPages-put (λ p. AllBehind (Apart size p) ts) t
                    (AllBehind-map (λ p a. swap p q a) ts out.2) v.2,
                put-Spread t out.1 v.3,
                v.4,
              )
        | inr e ↦ rw e (
          AllPages-map
              (λ p a.
                swap p (page_of (chosen t ts key))
                  (AllBehind-chosen_page (Apart size p) key t ts e a))
              t v.2,
          AllBehind-put_Apart t ts e out.2 v.4,
          across t ts out.1 v.2,
          v.3,
          put_behind-Spread ts out.2 v.4,
        )
      ]

      put_behind-Spread :
          (ts : Trees)
          → AllBehind (λ p. Apart size p q) ts
          → SpreadBehind size ts
          → SpreadBehind size (put_behind key val q ts)
      put_behind-Spread nil out v = tt
      put_behind-Spread (cons k u ts) out v = elim (Bool-cases (before key ts)) [
        | inl e ↦ rw e (
          AllPages-put (λ p. AllBehind (Apart size p) ts) u
              (AllBehind-map (λ p a. swap p q a) ts out.1) v.0,
          put-Spread u out.0 v.1,
          v.2,
        )
        | inr e ↦ rw e (across u ts out.0 v.0, v.1, put_behind-Spread ts out.1 v.2)
      ]
