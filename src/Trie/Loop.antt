-- ===== src/Trie/Loop.antt =====
-- The loop of `trie_add` over the children, from what the call for a child does.
use adventure.Base.{
  ℕ, suc, ◌≤◌, ◌≡◌, refl, sym, ◌∙◌, ap, ap₂, subst, ◌⊎◌, inl, inr, Bool, true, false, Option, none,
  some, List, ◌==◌, ◌&&◌, ◌||◌, ==_iff, Bool-cases, if◌then◌else◌, Out, ok, arith, length,
}
use adventure.Trie.{
  Strings, Documented, Trie, leaf, branch, Tries, nil, cons, key_of, bytes, is_prefix, push,
  add_children, after_child, or_else, key_len, trie_get_subtrie, first_subtrie,
}
use adventure.Trie.Form.{width, IsTrie, AreChildren, eq_of_prefix}

-- Whether a node has the key.
unfoldable mutual
  pub has_key : Trie → List ℕ → Bool
  has_key (leaf k v) key = is_prefix (bytes k) key && length (bytes k) == length key
  has_key (branch k v ts) key =
      is_prefix (bytes k) key && (length (bytes k) == length key || any_key ts key)

  pub any_key : Tries → List ℕ → Bool
  any_key nil key = false
  any_key (cons t ts) key = has_key t key || any_key ts key

pub neither : (a b : Bool) → (a || b) ≡ false → (a ≡ false) × (b ≡ false)
neither true b h = (cc)
neither false b h = (refl, h)

pub either_way : (b : Bool) (o : Option ℕ) → (if b then o else o) ≡ o
either_way true o = refl
either_way false o = refl

pub clash : {A : Type 0} → true ≡ false → A
clash e = (cc)

pub or_else_later :
    {v : ℕ} (o a b : Option ℕ) → or_else o a ≡ none → (a ≡ none → b ≡ some v) → or_else o b ≡ some v
or_else_later none a b e next = next e
or_else_later (some w) a b e next = (cc)

module _ {sds : Strings} (doc : Documented sds) (key : List ℕ) (val : ℕ) where
  pub key_len-eq : (k : Option (List ℕ)) → key_len sds k ≡ length (bytes k)
  unfolding key_len
  key_len-eq none = refl
  key_len-eq (some k) = doc.counts k

  -- No node has the key, or it is the trie itself and the value is there.
  abbrev pub IsNew : Trie → Type 0
  IsNew t =
      (has_key t key ≡ false) ⊎ ((width t ≡ length key) × (trie_get_subtrie sds t key ≡ some val))

  -- What the call for one trie gives: the trie has its key and its form, a key that was
  -- new is found with the value, and what is found for a string that is no prefix of the key is as
  -- it was.
  pub record Added (t u : Trie) : Type 0 where
    pub same_key : key_of u ≡ key_of t
    pub IsTrie-after : IsTrie u
    pub found : IsNew t → trie_get_subtrie sds u key ≡ some val
    pub keeps :
        (other : List ℕ)
        → is_prefix other key ≡ false
        → trie_get_subtrie sds u other ≡ trie_get_subtrie sds t other

  -- What the call is to do on each child.
  abbrev pub Adds : (Trie → Out Trie Bool) → ℕ → Type 0
  Adds add n =
      (t : Trie)
      → IsTrie t
      → n ≤ width t
      → is_prefix (bytes (key_of t)) key ≡ true
      → (u : Trie) × (add t ≡ ok true u) × Added t u

  abbrev pub Refuses : (Trie → Out Trie Bool) → Type 0
  Refuses add = (t : Trie) → is_prefix (bytes (key_of t)) key ≡ false → add t ≡ ok false t

  pub foreign :
      (t : Trie) → is_prefix (bytes (key_of t)) key ≡ false → trie_get_subtrie sds t key ≡ none
  unfolding trie_get_subtrie
  foreign (leaf k v) differs = rw differs refl
  foreign (branch k v ts) differs = rw differs refl

  -- The loop over the children: either one took the key, or none has it as its prefix and they are
  -- as they were.
  pub data Loop (k : List ℕ) (ts : Tries) (o : Out Tries Bool) : Type 0 where
    taken :
        (us : Tries)
        → o ≡ ok true us
        → AreChildren k us
        → (any_key ts key ≡ false → first_subtrie sds us key ≡ some val)
        → ((other : List ℕ)
            → is_prefix other key ≡ false
            → first_subtrie sds us other ≡ first_subtrie sds ts other)
        → Loop k ts o
    refused : o ≡ ok false ts → first_subtrie sds ts key ≡ none → Loop k ts o

  pub add_children-Loop :
      (add : Trie → Out Trie Bool) (k : List ℕ)
      → Adds add (suc (length k))
      → Refuses add
      → (ts : Tries) → AreChildren k ts
      → Loop k ts (add_children add ts)
  unfolding add_children after_child first_subtrie IsTrie has_key
  add_children-Loop add k adds refuses nil all = refused refl refl
  add_children-Loop add k adds refuses (cons t ts) all =
      elim (Bool-cases (is_prefix (bytes (key_of t)) key)) [
        | inl agrees ↦
            let (u, e, a) = adds t all.2 (omega (arith, all.1)) agrees in
            taken (cons u ts) (ap (after_child ts (add_children add ts)) e)
              (
                subst (λ o. is_prefix k (bytes o) ≡ true) (sym a.same_key) all.0,
                ap (λ k. length (bytes k)) a.same_key ∙ all.1,
                a.IsTrie-after,
                all.3,
              )
              (λ new.
                ap (λ o. or_else o (first_subtrie sds ts key)) (a.found (inl (neither _ _ new).0)))
              (λ other no_prefix.
                ap (λ o. or_else o (first_subtrie sds ts other)) (a.keeps other no_prefix))
        | inr differs ↦ elim (add_children-Loop add k adds refuses ts all.3) [
          | taken us e form found keeps ↦
              taken (cons t us) (ap₂ (after_child ts) e (refuses t differs))
                (all.0, all.1, all.2, form)
                (λ new.
                  ap (λ o. or_else o (first_subtrie sds us key)) (foreign t differs)
                  ∙ found (neither _ _ new).1)
                (λ other no_prefix.
                  ap (or_else (trie_get_subtrie sds t other)) (keeps other no_prefix))
          | refused e absent ↦
              refused (ap₂ (after_child ts) e (refuses t differs))
                (ap (λ o. or_else o (first_subtrie sds ts key)) (foreign t differs) ∙ absent)
        ]
      ]

  -- A leaf on the path of `key` is not found for a string that is no prefix of `key`.
  pub leaf_other :
      (k : Option (List ℕ)) (v : ℕ)
      → is_prefix (bytes k) key ≡ true
      → (other : List ℕ) → is_prefix other key ≡ false
      → trie_get_subtrie sds (leaf k v) other ≡ none
  unfolding trie_get_subtrie
  leaf_other k v pre other no_prefix = elim (Bool-cases (is_prefix (bytes k) other)) [
    | inr differs ↦ rw differs refl
    | inl agrees ↦
        rw (agrees, key_len-eq k)
          (elim (Bool-cases (length (bytes k) == length other)) [
            | inr shorter ↦ rw shorter refl
            | inl same ↦
                let e : bytes k ≡ other =
                  eq_of_prefix (bytes k) other agrees (omega (arith, (==_iff _ _).0 same)) in
                clash (sym pre ∙ ap (λ s. is_prefix s key) e ∙ no_prefix)
          ])
  ]

  pub first_subtrie-push :
      (ts : Tries) (t : Trie)
      → first_subtrie sds ts key ≡ none
      → trie_get_subtrie sds t key ≡ some val
      → first_subtrie sds (push ts t) key ≡ some val
  unfolding first_subtrie push
  first_subtrie-push nil t absent found = ap (λ o. or_else o none) found
  first_subtrie-push (cons u us) t absent found =
      or_else_later (trie_get_subtrie sds u key) (first_subtrie sds us key) _ absent
        (λ e. first_subtrie-push us t e found)

  pub first_subtrie-push_other :
      (ts : Tries) (t : Trie) (other : List ℕ)
      → trie_get_subtrie sds t other ≡ none
      → first_subtrie sds (push ts t) other ≡ first_subtrie sds ts other
  unfolding first_subtrie push
  first_subtrie-push_other nil t other absent = ap (λ o. or_else o none) absent
  first_subtrie-push_other (cons u us) t other absent =
      ap (or_else (trie_get_subtrie sds u other)) (first_subtrie-push_other us t other absent)
