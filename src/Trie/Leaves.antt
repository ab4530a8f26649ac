-- ===== src/Trie/Leaves.antt =====
-- What `trie_get` finds are the nodes without children, in the order of the child lists.
use adventure.Base.{
  ℕ, suc, ◌≡◌, refl, sym, ◌∙◌, ap, ap₂, Bool, true, false, not, ◌&&◌, inl, inr, Option, none, some,
  List, [], ◌∷◌, ◌++◌, ◌==◌, if◌then◌else◌, Bool-cases, length, ==_iff, ne→==, arith,
}
use adventure.Trie.{
  Strings, Documented, Trie, leaf, branch, Tries, nil, cons, key_of, bytes, is_prefix, or_else,
  key_len, trie_get_subtrie, first_subtrie, trie_get,
}
use adventure.Trie.Form.{IsTrie, AreChildren}
use adventure.Trie.Loop.{key_len-eq, foreign, clash}

abbrev pub same_bytes : List ℕ → List ℕ → Bool
same_bytes [] [] = true
same_bytes [] (y ∷ b) = false
same_bytes (x ∷ a) [] = false
same_bytes (x ∷ a) (y ∷ b) = x == y && same_bytes a b

-- The value of the first pair whose key is the string.
abbrev pub find_leaf : List (List ℕ × ℕ) → List ℕ → Option ℕ
find_leaf [] key = none
find_leaf ((k, v) ∷ rows) key = if same_bytes k key then some v else find_leaf rows key

abbrev mutual
  pub leaves : Trie → List (List ℕ × ℕ)
  leaves (leaf k v) = (bytes k, v) ∷ []
  leaves (branch k v ts) = leaves_of ts

  pub leaves_of : Tries → List (List ℕ × ℕ)
  leaves_of nil = []
  leaves_of (cons t ts) = leaves t ++ leaves_of ts

find_leaf-append :
    (xs ys : List (List ℕ × ℕ)) (key : List ℕ)
    → find_leaf (xs ++ ys) key ≡ or_else (find_leaf xs key) (find_leaf ys key)
find_leaf-append [] ys key = refl
find_leaf-append ((k, v) ∷ xs) ys key = elim (Bool-cases (same_bytes k key)) [
  | inl e ↦ rw e refl
  | inr e ↦ rw (e, find_leaf-append xs ys key) refl
]

suc_test : (m n : ℕ) → (m == n) ≡ (suc m == suc n)
suc_test m n = ground (arith, ==_iff m n, ==_iff (suc m) (suc n))

same_bytes_lem : (a b : List ℕ) → same_bytes a b ≡ (is_prefix a b && (length a == length b))
same_bytes_lem [] [] = refl
same_bytes_lem [] (y ∷ b) = sym (ne→== 0 (suc (length b)) (omega arith))
same_bytes_lem (x ∷ a) [] = refl
same_bytes_lem (x ∷ a) (y ∷ b) = elim (Bool-cases (x == y)) [
  | inl e ↦
      rw (e, same_bytes_lem a b) (ap (λ t. is_prefix a b && t) (suc_test (length a) (length b)))
  | inr e ↦ rw e refl
]

is_prefix_trans :
    (a b c : List ℕ) → is_prefix a b ≡ true → is_prefix b c ≡ true → is_prefix a c ≡ true
is_prefix_trans [] b c ab bc = refl
is_prefix_trans (x ∷ a) [] c ab bc = (cc)
is_prefix_trans (x ∷ a) (y ∷ b) [] ab bc = (cc)
is_prefix_trans (x ∷ a) (y ∷ b) (z ∷ c) ab bc =
    ground (arith, ==_iff x y, ==_iff y z, ==_iff x z, is_prefix_trans a b c)

leaf_test :
    (v : ℕ) (p l : Bool)
    → (if not p then none else if l then some v else none) ≡ (if p && l then some v else none)
leaf_test v true l = refl
leaf_test v false l = refl

module _ {sds : Strings} (doc : Documented sds) where
  -- Below a node whose key is no prefix of the string nothing is found.
  apart :
      (k key : List ℕ) (ts : Tries)
      → AreChildren k ts
      → is_prefix k key ≡ false
      → first_subtrie sds ts key ≡ none
  unfolding first_subtrie IsTrie
  apart k key nil all differs = refl
  apart k key (cons t ts) all differs = elim (Bool-cases (is_prefix (bytes (key_of t)) key)) [
    | inl e ↦ clash (sym (is_prefix_trans k (bytes (key_of t)) key all.0 e) ∙ differs)
    | inr e ↦
        ap (λ o. or_else o (first_subtrie sds ts key)) (foreign doc key 0 t e)
        ∙ apart k key ts all.3 differs
  ]

  mutual
    unfolding trie_get_subtrie IsTrie

    pub trie_get_subtrie-leaves :
        (t : Trie) (key : List ℕ) → IsTrie t → trie_get_subtrie sds t key ≡ find_leaf (leaves t) key
    trie_get_subtrie-leaves (leaf k v) key form =
        leaf_test v (is_prefix (bytes k) key) (key_len sds k == length key)
        ∙ ap (λ b. if b then some v else none)
            (ap (λ n. is_prefix (bytes k) key && n == length key) (key_len-eq doc [] 0 k)
              ∙ sym (same_bytes_lem (bytes k) key))
    trie_get_subtrie-leaves (branch k v ts) key form = elim (Bool-cases (is_prefix (bytes k) key)) [
      | inl e ↦ rw e (first_subtrie-leaves (bytes k) ts key form)
      | inr e ↦
          rw e (sym (apart (bytes k) key ts form e) ∙ first_subtrie-leaves (bytes k) ts key form)
    ]

    first_subtrie-leaves :
        (k : List ℕ) (ts : Tries) (key : List ℕ)
        → AreChildren k ts
        → first_subtrie sds ts key ≡ find_leaf (leaves_of ts) key
    first_subtrie-leaves k nil key all = refl
    first_subtrie-leaves k (cons t ts) key all =
        ap₂ or_else (trie_get_subtrie-leaves t key all.2) (first_subtrie-leaves k ts key all.3)
        ∙ sym (find_leaf-append (leaves t) (leaves_of ts) key)

  -- On a trie in form, trie_get gives what a search through the list of the nodes without children
  -- gives for the string: the value of the one with that key, or NULL.
  pub trie_get-leaves :
      (t : Trie) (key : List ℕ)
      → IsTrie t
      → trie_get sds t key ≡ elim (find_leaf (leaves t) key) [ none ↦ 0 | some v ↦ v ]
  unfolding trie_get
  trie_get-leaves t key form =
      ap (λ o. elim o [ none ↦ 0 | some v ↦ v ]) (trie_get_subtrie-leaves t key form)
