-- ===== src/Trie.antt =====
-- src/struct/trie.c: a trie of strings, each node with its whole key. Strings are lists of bytes
-- without the final NUL; a value is a number, 0 is NULL. A child list is never shared, so a trie is
-- a tree; `leaf` has the NULL list of children. The strings of lib/sds are the argument `Strings`.
pub mod Form
pub mod Loop
pub mod Node
pub mod Add
pub mod Leaves
pub mod Reference
use adventure.Base.{
  ℕ, zero, suc, ◌+◌, ◌≡◌, ◌≤◌, Bool, true, false, not, Option, none, some, List, [], ◌∷◌, ◌++◌,
  ◌==◌, leb, ◌&&◌, if◌then◌else◌, Out, ok, fault, hang, length, take,
}

-- `sdslen(s)` and `sdsnewlen(init, initlen)`.
pub record Strings : Type 0 where
  pub sdslen : List ℕ → ℕ
  pub sdsnewlen : List ℕ → ℕ → List ℕ

-- What is documented of them: the length of a string, and the copy of its first bytes.
pub record Documented (sds : Strings) : Type 0 where
  pub counts : (s : List ℕ) → sds.sdslen s ≡ length s
  pub copies : (s : List ℕ) (n : ℕ) → n ≤ length s → sds.sdsnewlen s n ≡ take n s

mutual
  -- `key` NULL is `none`, which only `trie_create` makes.
  pub data Trie : Type 0 where
    leaf : Option (List ℕ) → ℕ → Trie
    branch : Option (List ℕ) → ℕ → Tries → Trie

  pub data Tries : Type 0 where
    nil : Tries
    cons : Trie → Tries → Tries

abbrev pub key_of : Trie → Option (List ℕ)
key_of (leaf k v) = k
key_of (branch k v ts) = k

-- The bytes that `strncmp` compares; of a NULL key there are none.
abbrev pub bytes : Option (List ℕ) → List ℕ
bytes none = []
bytes (some k) = k

-- `strncmp(a, b, length of a) == 0`
abbrev pub is_prefix : List ℕ → List ℕ → Bool
is_prefix [] b = true
is_prefix (x ∷ a) [] = false
is_prefix (x ∷ a) (y ∷ b) = x == y && is_prefix a b

abbrev pub trie_create : Trie
trie_create = leaf none 0

-- `list_push`
unfoldable pub push : Tries → Trie → Tries
push nil t = cons t nil
push (cons u us) t = cons u (push us t)

-- What the loop does with the result for a child, `ts` and `rest` being the children behind it and
-- the loop's result for them.
unfoldable pub after_child : Tries → Out Tries Bool → Out Trie Bool → Out Tries Bool
after_child ts rest (ok true u) = ok true (cons u ts)
after_child ts (ok r us) (ok false u) = ok r (cons u us)
after_child ts fault (ok false u) = fault
after_child ts hang (ok false u) = hang
after_child ts rest fault = fault
after_child ts rest hang = hang

-- The loop of `trie_add` over the children, `add` being the call for one; `true` is the result 0.
unfoldable pub add_children : (Trie → Out Trie Bool) → Tries → Out Tries Bool
add_children add nil = ok false nil
add_children add (cons t ts) = let rest = add_children add ts in after_child ts rest (add t)

-- The first that is not NULL.
abbrev pub or_else : Option ℕ → Option ℕ → Option ℕ
or_else (some v) rest = some v
or_else none rest = rest

-- The trie with the new node at the end of its children, from the call for that node.
unfoldable pub insert_node : Option (List ℕ) → ℕ → Tries → Out Trie Bool → Out Trie Bool
insert_node k v ts (ok r u) = ok r (branch k v (push ts u))
insert_node k v ts fault = fault
insert_node k v ts hang = hang

-- What follows the loop: `inserted` is the call for the new node.
unfoldable pub after_loop : Option (List ℕ) → ℕ → Out Trie Bool → Out Tries Bool → Out Trie Bool
after_loop k v inserted (ok true us) = ok true (branch k v us)
after_loop k v inserted (ok false us) = insert_node k v us inserted
after_loop k v inserted fault = fault
after_loop k v inserted hang = hang

-- What follows the two tests of `trie_add`.
unfoldable pub add_below : (Trie → Out Trie Bool) → Trie → Trie → Out Trie Bool
add_below add node (leaf k v) = insert_node k v nil (add node)
add_below add node (branch k v ts) = after_loop k v (add node) (add_children add ts)

module _ (sds : Strings) where
  -- `trie->key? sdslen(trie->key) : 0`
  unfoldable pub key_len : Option (List ℕ) → ℕ
  key_len none = 0
  key_len (some k) = sds.sdslen k

  unfoldable pub trie_make_node : (key : List ℕ) (len val : ℕ) → Trie
  trie_make_node key len val = leaf (some (sds.sdsnewlen key len)) val

  -- Recursion on fuel; `true` is the result 0, `false` is -1.
  unfoldable pub trie_add : (fuel : ℕ) (key : List ℕ) (val : ℕ) → Trie → Out Trie Bool
  trie_add zero key val t = hang
  trie_add (suc fuel) key val t =
      let len = key_len (key_of t) in
      let below = add_below (trie_add fuel key val) (trie_make_node key (len + 1) val) t in
      if not (is_prefix (bytes (key_of t)) key)
      then ok false t
      else if len == length key
      then ok true t
      else below

  -- `none` is NULL, `some v` a node with the value `v`.
  unfoldable mutual
    pub trie_get_subtrie : Trie → List ℕ → Option ℕ
    trie_get_subtrie (leaf k v) key =
        if not (is_prefix (bytes k) key)
        then none
        else if key_len k == length key
        then some v
        else none
    trie_get_subtrie (branch k v ts) key =
        if not (is_prefix (bytes k) key) then none else first_subtrie ts key

    pub first_subtrie : Tries → List ℕ → Option ℕ
    first_subtrie nil key = none
    first_subtrie (cons t ts) key = or_else (trie_get_subtrie t key) (first_subtrie ts key)

  unfoldable pub trie_get : Trie → List ℕ → ℕ
  trie_get t key = elim (trie_get_subtrie t key) [ none ↦ 0 | some v ↦ v ]

  -- Whether `trie_get_keys` goes on at a node.
  unfoldable pub agrees : Option (List ℕ) → List ℕ → Bool
  agrees k prefix = not (leb (key_len k) (length prefix) && not (is_prefix (bytes k) prefix))

  -- The list that was given, with the keys pushed behind it.
  unfoldable mutual
    pub trie_get_keys : Trie → List ℕ → List (Option (List ℕ)) → List (Option (List ℕ))
    trie_get_keys (leaf k v) prefix list = if agrees k prefix then list ++ k ∷ [] else list
    trie_get_keys (branch k v ts) prefix list =
        if agrees k prefix then children_keys ts prefix list else list

    pub children_keys : Tries → List ℕ → List (Option (List ℕ)) → List (Option (List ℕ))
    children_keys nil prefix list = list
    children_keys (cons t ts) prefix list = children_keys ts prefix (trie_get_keys t prefix list)
