-- ===== src/Trie/Add.antt =====
-- `trie_add` ends, keeps the form of the trie, and the key that it added is found.
use adventure.Base.{
  ℕ, zero, suc, ◌+◌, ◌<◌, ◌≡◌, refl, sym, ◌∙◌, ap, inl, inr, Bool, true, false, not, Option, none,
  List, ◌==◌, ==_refl, ==_iff, ne→==, Bool-cases, if◌then◌else◌, Out, ok, arith, length,
}
use adventure.Trie.{
  Strings, Documented, Trie, leaf, branch, Tries, nil, key_of, bytes, is_prefix, after_loop,
  trie_make_node, add_below, trie_add, trie_get_subtrie, first_subtrie,
}
use adventure.Trie.Form.{width, IsTrie, length-le_of_prefix}
use adventure.Trie.Node.{pushed}
use adventure.Trie.Loop.{
  has_key, any_key, neither, either_way, clash, key_len-eq, IsNew, Added, Adds, Refuses, taken,
  refused, add_children-Loop, leaf_other,
}

module _ {sds : Strings} (doc : Documented sds) (key : List ℕ) (val : ℕ) where
  Refuses-trie_add : (fuel : ℕ) → Refuses doc key val (trie_add sds (suc fuel) key val)
  unfolding trie_add
  Refuses-trie_add fuel t differs = rw differs refl

  -- The two tests of `trie_add` on a trie on the path of `key`.
  whole :
      (fuel : ℕ) (t : Trie)
      → is_prefix (bytes (key_of t)) key ≡ true
      → width t ≡ length key
      → trie_add sds (suc fuel) key val t ≡ ok true t
  unfolding trie_add
  whole fuel t pre same =
      rw (pre, key_len-eq doc key val (key_of t), same, ==_refl (length key)) refl

  part :
      (fuel : ℕ) (t : Trie)
      → is_prefix (bytes (key_of t)) key ≡ true
      → width t < length key
      → trie_add sds (suc fuel) key val t
        ≡ add_below (trie_add sds fuel key val) (trie_make_node sds key (width t + 1) val) t
  unfolding trie_add
  part fuel t pre less =
      rw (pre, key_len-eq doc key val (key_of t), ne→== (width t) (length key) (omega arith)) refl

  no_key :
      (t : Trie)
      → is_prefix (bytes (key_of t)) key ≡ true
      → width t ≡ length key
      → has_key t key ≡ true
  unfolding has_key
  no_key (leaf k v) pre same = rw (pre, same, ==_refl (length key)) refl
  no_key (branch k v ts) pre same = rw (pre, same, ==_refl (length key)) refl

  whole-Added :
      (t : Trie)
      → IsTrie t
      → is_prefix (bytes (key_of t)) key ≡ true
      → width t ≡ length key
      → Added doc key val t t
  whole-Added t form pre same = record {
    same_key = refl;
    IsTrie-after = form;
    found = λ new. elim new [
      | inl fresh ↦ clash (sym (no_key t pre same) ∙ fresh)
      | inr there ↦ there.1
    ];
    keeps = λ other no_prefix. refl;
  }

  none_below :
      (k : Option (List ℕ)) (v : ℕ) (ts : Tries)
      → is_prefix (bytes k) key ≡ true
      → length (bytes k) < length key
      → IsNew doc key val (branch k v ts)
      → any_key ts key ≡ false
  unfolding has_key
  none_below k v ts pre less (inl fresh) = (neither _ _ (rw pre at fresh)).1
  none_below k v ts pre less (inr there) = absurd (omega (arith, there.0))

  part-Added :
      (add : Trie → Out Trie Bool) (t : Trie)
      → IsTrie t
      → is_prefix (bytes (key_of t)) key ≡ true
      → width t < length key
      → Adds doc key val add (suc (width t))
      → Refuses doc key val add
      → (u : Trie) × (add_below add (trie_make_node sds key (width t + 1) val) t ≡ ok true u)
        × Added doc key val t u
  unfolding add_below after_loop IsTrie first_subtrie trie_get_subtrie
  part-Added add (leaf k v) form pre less adds refuses =
      let (u, e, key_u, form_u, found, keeps) =
        pushed doc key val k pre less add adds refuses v nil tt refl in
      (
        u,
        e,
        record {
          same_key = key_u;
          IsTrie-after = form_u;
          found = λ _. found;
          keeps = λ other no_prefix.
              keeps other no_prefix
              ∙ either_way (not (is_prefix (bytes k) other)) none
              ∙ sym (leaf_other doc key val k v pre other no_prefix);
        },
      )
  part-Added add (branch k v ts) form pre less adds refuses =
      elim (add_children-Loop doc key val add (bytes k) adds refuses ts form) [
        | taken us e form_us found keeps ↦ (
          branch k v us,
          ap (after_loop k v (add (trie_make_node sds key (length (bytes k) + 1) val))) e,
          record {
            same_key = refl;
            IsTrie-after = form_us;
            found = λ new. rw pre (found (none_below k v ts pre less new));
            keeps = λ other no_prefix.
                ap (λ x. if not (is_prefix (bytes k) other) then none else x)
                  (keeps other no_prefix);
          },
        )
        | refused e absent ↦
            let (u, done, key_u, form_u, found, keeps) =
              pushed doc key val k pre less add adds refuses v ts form absent in
            (
              u,
              ap (after_loop k v (add (trie_make_node sds key (length (bytes k) + 1) val))) e
                  ∙ done,
              record { same_key = key_u; IsTrie-after = form_u; found = λ _. found; keeps = keeps },
            )
      ]

  -- On a trie in form (a child's key is its parent's and one byte more) whose own key is a prefix
  -- of the new key, with more fuel than the bytes between them, trie_add returns 0; the trie has
  -- its key and its form after it, the new key is found with its value if no node had it or the
  -- trie itself has it with that value, and what is found for any string that is no prefix of the
  -- new key is as it was.
  pub trie_add-Added :
      (fuel : ℕ) (t : Trie)
      → IsTrie t
      → is_prefix (bytes (key_of t)) key ≡ true
      → length key < fuel + width t
      → (u : Trie) × (trie_add sds fuel key val t ≡ ok true u) × Added doc key val t u
  trie_add-Added zero t form pre enough =
      absurd (omega (arith, length-le_of_prefix (bytes (key_of t)) key pre))
  trie_add-Added (suc zero) t form pre enough =
      let same : width t ≡ length key =
        omega (arith, length-le_of_prefix (bytes (key_of t)) key pre) in
      (t, whole zero t pre same, whole-Added t form pre same)
  trie_add-Added (suc (suc fuel)) t form pre enough = elim (Bool-cases (width t == length key)) [
    | inl same ↦
        let e = (==_iff _ _).0 same in (t, whole (suc fuel) t pre e, whole-Added t form pre e)
    | inr other ↦
        let less : width t < length key =
          ground (arith, length-le_of_prefix (bytes (key_of t)) key pre) in
        let (u, done, a) =
          part-Added (trie_add sds (suc fuel) key val) t form pre less
            (λ c form_c wide pre_c. trie_add-Added (suc fuel) c form_c pre_c (omega arith))
            (Refuses-trie_add fuel) in
        (u, part (suc fuel) t pre less ∙ done, a)
  ]
