-- ===== src/Trie/Form.antt =====
-- The form of a trie: a child's key is its parent's key and one byte more.
use adventure.Base.{
  ℕ, zero, suc, ◌≤◌, ◌≡◌, refl, Bool, true, List, [], ◌∷◌, ◌==◌, ◌&&◌, false, ==_refl, ==_iff,
  arith, length, take,
}
use adventure.Trie.{Trie, leaf, branch, Tries, nil, cons, key_of, bytes, is_prefix, push}

-- How many bytes the key of a node has.
abbrev pub width : Trie → ℕ
width t = length (bytes (key_of t))

-- The children of a node with the key `k`, and the nodes below them, are in form.
unfoldable mutual
  pub IsTrie : Trie → Type 0
  IsTrie (leaf k v) = Unit
  IsTrie (branch k v ts) = AreChildren (bytes k) ts

  pub AreChildren : List ℕ → Tries → Type 0
  AreChildren k nil = Unit
  AreChildren k (cons t ts) =
      (is_prefix k (bytes (key_of t)) ≡ true)
      × (width t ≡ suc (length k))
      × IsTrie t
      × AreChildren k ts

pub AreChildren-push :
    (k : List ℕ) (ts : Tries) (t : Trie)
    → AreChildren k ts
    → is_prefix k (bytes (key_of t)) ≡ true
    → width t ≡ suc (length k)
    → IsTrie t
    → AreChildren k (push ts t)
unfolding push IsTrie
AreChildren-push k nil t all pre wide form = (pre, wide, form, tt)
AreChildren-push k (cons u us) t all pre wide form =
    (all.0, all.1, all.2, AreChildren-push k us t all.3 pre wide form)

pub length-take : (n : ℕ) (s : List ℕ) → n ≤ length s → length (take n s) ≡ n
length-take zero s h = refl
length-take (suc n) [] h = absurd (omega arith)
length-take (suc n) (x ∷ s) h = omega (arith, length-take n s (omega arith))

pub is_prefix-take : (n : ℕ) (s : List ℕ) → is_prefix (take n s) s ≡ true
is_prefix-take zero s = refl
is_prefix-take (suc n) [] = refl
is_prefix-take (suc n) (x ∷ s) = rw (==_refl x, is_prefix-take n s) refl

-- A prefix of `s` is a prefix of any longer prefix of `s`.
pub is_prefix-take_longer :
    (a s : List ℕ) (n : ℕ) → is_prefix a s ≡ true → length a ≤ n → is_prefix a (take n s) ≡ true
is_prefix-take_longer [] s n pre le = refl
is_prefix-take_longer (x ∷ a) [] n pre le = (cc)
is_prefix-take_longer (x ∷ a) (y ∷ s) zero pre le = absurd (omega arith)
is_prefix-take_longer (x ∷ a) (y ∷ s) (suc n) pre le = ground (arith, is_prefix-take_longer a s n)

pub length-le_of_prefix : (a s : List ℕ) → is_prefix a s ≡ true → length a ≤ length s
length-le_of_prefix [] s pre = omega arith
length-le_of_prefix (x ∷ a) [] pre = (cc)
length-le_of_prefix (x ∷ a) (y ∷ s) pre = ground (arith, length-le_of_prefix a s)

-- A prefix of the same length is the string.
pub eq_of_prefix : (a s : List ℕ) → is_prefix a s ≡ true → length s ≤ length a → a ≡ s
eq_of_prefix [] [] pre le = refl
eq_of_prefix [] (y ∷ s) pre le = absurd (omega arith)
eq_of_prefix (x ∷ a) [] pre le = (cc)
eq_of_prefix (x ∷ a) (y ∷ s) pre le = ground (arith, ==_iff x y, eq_of_prefix a s)

-- The test of `IsTrie`.
abbrev mutual
  pub is_trie : Trie → Bool
  is_trie (leaf k v) = true
  is_trie (branch k v ts) = are_children (bytes k) ts

  are_children : List ℕ → Tries → Bool
  are_children k nil = true
  are_children k (cons t ts) =
      is_prefix k (bytes (key_of t)) && width t == suc (length k) && is_trie t && are_children k ts

all_four :
    (a b c d : Bool) → (a && b && c && d) ≡ true → (a ≡ true) × (b ≡ true) × (c ≡ true) × (d ≡ true)
all_four true true true true e = (refl, refl, refl, refl)
all_four true true true false e = (cc)
all_four true true false d e = (cc)
all_four true false c d e = (cc)
all_four false b c d e = (cc)

mutual
  unfolding IsTrie

  pub is_trie-IsTrie : (t : Trie) → is_trie t ≡ true → IsTrie t
  is_trie-IsTrie (leaf k v) e = tt
  is_trie-IsTrie (branch k v ts) e = are_children-AreChildren (bytes k) ts e

  are_children-AreChildren : (k : List ℕ) (ts : Tries) → are_children k ts ≡ true → AreChildren k ts
  are_children-AreChildren k nil e = tt
  are_children-AreChildren k (cons t ts) e =
      let (pre, wide, form, rest) = all_four _ _ (is_trie t) (are_children k ts) e in
      (pre, (==_iff _ _).0 wide, is_trie-IsTrie t form, are_children-AreChildren k ts rest)
