-- ===== src/Trie/Node.antt =====
-- The node that `trie_add` makes, and the trie that has it as its last child.
use adventure.Base.{
  ℕ, suc, ◌+◌, ◌<◌, ◌≡◌, refl, sym, ◌∙◌, ap, subst, inl, inr, Bool, true, false, not, Option, none,
  some, List, ◌==◌, ==_iff, Bool-cases, if◌then◌else◌, Out, ok, arith, length, take,
}
use adventure.Trie.{
  Strings, Documented, Trie, branch, Tries, key_of, bytes, is_prefix, push, trie_make_node,
  insert_node, trie_get_subtrie, first_subtrie,
}
use adventure.Trie.Form.{
  width, IsTrie, AreChildren, AreChildren-push, length-take, is_prefix-take, is_prefix-take_longer,
}
use adventure.Trie.Loop.{
  has_key, key_len-eq, IsNew, Added, Adds, Refuses, leaf_other, first_subtrie-push,
  first_subtrie-push_other,
}

module _ {sds : Strings} (doc : Documented sds) (key : List ℕ) (val : ℕ) where
  -- A node of one byte more than `o`, as `trie_add` makes it.
  module _ (o : Option (List ℕ)) (pre : is_prefix (bytes o) key ≡ true)
      (shorter : length (bytes o) < length key) where
    abbrev node : Trie
    node = trie_make_node sds key (length (bytes o) + 1) val

    node_key : bytes (key_of node) ≡ take (length (bytes o) + 1) key
    unfolding trie_make_node
    node_key = doc.copies key (length (bytes o) + 1) (omega arith)

    node-width : width node ≡ suc (length (bytes o))
    node-width =
        ap length node_key ∙ length-take (length (bytes o) + 1) key (omega arith) ∙ omega arith

    node_prefix : is_prefix (bytes (key_of node)) key ≡ true
    node_prefix = rw node_key (is_prefix-take (length (bytes o) + 1) key)

    node_child : is_prefix (bytes o) (bytes (key_of node)) ≡ true
    node_child =
        rw node_key (is_prefix-take_longer (bytes o) key (length (bytes o) + 1) pre (omega arith))

    node-IsTrie : IsTrie node
    unfolding trie_make_node IsTrie
    node-IsTrie = tt

    -- A string that is no prefix of `key` is the key of no node on its path.
    node_other :
        (other : List ℕ) → is_prefix other key ≡ false → trie_get_subtrie sds node other ≡ none
    unfolding trie_make_node trie_get_subtrie
    node_other other no_prefix =
        leaf_other doc key val (key_of node) val node_prefix other no_prefix

    node-IsNew : IsNew doc key val node
    unfolding trie_make_node trie_get_subtrie has_key
    node-IsNew = elim (Bool-cases (suc (length (bytes o)) == length key)) [
      | inr short ↦ inl (rw (node_prefix, node-width, short) refl)
      | inl whole ↦ inr (
        node-width ∙ (==_iff _ _).0 whole,
        rw (node_prefix, key_len-eq doc key val (key_of node), node-width, whole) refl,
      )
    ]

    -- What follows the tests, `add` being the call with less fuel.
    module _ (add : Trie → Out Trie Bool) (adds : Adds doc key val add (suc (length (bytes o))))
        (refuses : Refuses doc key val add) where
      inserted : (u : Trie) × (add node ≡ ok true u) × Added doc key val node u
      inserted = adds node node-IsTrie (omega (arith, node-width)) node_prefix

      -- The new node as the last child.
      pub pushed :
          (v : ℕ) (ts : Tries)
          → AreChildren (bytes o) ts
          → first_subtrie sds ts key ≡ none
          → (u : Trie) × (insert_node o v ts (add node) ≡ ok true u)
            × (key_of u ≡ o)
            × IsTrie u
            × (trie_get_subtrie sds u key ≡ some val)
            × ((other : List ℕ)
                → is_prefix other key ≡ false
                → trie_get_subtrie sds u other
                  ≡ (if not (is_prefix (bytes o) other) then none else first_subtrie sds ts other))
      unfolding insert_node IsTrie trie_get_subtrie
      pushed v ts all absent =
          let (u, done, a) = inserted in
          (
            branch o v (push ts u),
            ap (insert_node o v ts) done,
            refl,
            AreChildren-push (bytes o) ts u all
                (subst (λ x. is_prefix (bytes o) (bytes x) ≡ true) (sym a.same_key) node_child)
                (ap (λ x. length (bytes x)) a.same_key ∙ node-width) a.IsTrie-after,
            rw pre (first_subtrie-push doc key val ts u absent (a.found node-IsNew)),
            λ other no_prefix.
                ap (λ x. if not (is_prefix (bytes o) other) then none else x)
                  (first_subtrie-push_other doc key val ts u other
                    (a.keeps other no_prefix ∙ node_other other no_prefix)),
          )
