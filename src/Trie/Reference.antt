-- ===== src/Trie/Reference.antt =====
-- Any strings that do what is documented of them make the same trie as `reference`, which computes.
use mathlib.Core.Path.{fun_ext}
use adventure.Base.{
  ℕ, zero, suc, ◌+◌, ◌≤◌, ◌≡◌, refl, sym, ap, ◌∙◌, Bool, true, false, not, inl, inr, Bool-cases,
  some, List, ◌==◌, ==_iff, if◌then◌else◌, Out, ok, length, take, arith,
}
use adventure.Trie.{
  Strings, Documented, Trie, leaf, key_of, bytes, is_prefix, key_len, trie_make_node, add_below,
  trie_add,
}
use adventure.Trie.Form.{width, length-le_of_prefix}
use adventure.Trie.Loop.{key_len-eq}

abbrev pub reference : Strings
reference = record { sdslen = length; sdsnewlen = λ s n. take n s }

pub reference-Documented : Documented reference
reference-Documented = record { counts = λ s. refl; copies = λ s n le. refl }

module _ {sds : Strings} (doc : Documented sds) (key : List ℕ) (val : ℕ) where
  make_node :
      (len : ℕ)
      → len ≤ length key
      → trie_make_node sds key len val ≡ trie_make_node reference key len val
  unfolding trie_make_node
  make_node len le = ap (λ k. leaf (some k) val) (doc.copies key len le)

  -- What the call does once the lengths are written out.
  step : Strings → (Trie → Out Trie Bool) → Trie → Out Trie Bool
  step strings add t =
      if not (is_prefix (bytes (key_of t)) key)
      then ok false t
      else if width t == length key
      then ok true t
      else add_below add (trie_make_node strings key (width t + 1) val) t

  unrolled :
      {strings : Strings} (d : Documented strings) (add : Trie → Out Trie Bool) (t : Trie)
      → (if not (is_prefix (bytes (key_of t)) key)
          then ok false t
          else if key_len strings (key_of t) == length key
          then ok true t
          else add_below add (trie_make_node strings key (key_len strings (key_of t) + 1) val) t)
        ≡ step strings add t
  unfolding step
  unrolled {strings = strings} d add t =
      ap
        (λ n.
          if not (is_prefix (bytes (key_of t)) key)
          then ok false t
          else if n == length key
          then ok true t
          else add_below add (trie_make_node strings key (n + 1) val) t)
        (key_len-eq d key val (key_of t))

  step-reference : (add : Trie → Out Trie Bool) (t : Trie) → step sds add t ≡ step reference add t
  unfolding step
  step-reference add t = elim (Bool-cases (is_prefix (bytes (key_of t)) key)) [
    | inr e ↦ rw e refl
    | inl e ↦ elim (Bool-cases (width t == length key)) [
      | inl whole ↦ rw (e, whole) refl
      | inr part ↦
          let shorter : width t + 1 ≤ length key =
            ground (
              arith,
              length-le_of_prefix (bytes (key_of t)) key e,
              ==_iff (width t) (length key),
            ) in
          rw (e, part) (ap (λ node. add_below add node t) (make_node (width t + 1) shorter))
    ]
  ]

  pub trie_add-reference :
      (fuel : ℕ) (t : Trie) → trie_add sds fuel key val t ≡ trie_add reference fuel key val t
  unfolding trie_add
  trie_add-reference zero t = refl
  trie_add-reference (suc fuel) t =
      unrolled doc (trie_add sds fuel key val) t
      ∙ ap (λ add. step sds add t) (fun_ext (trie_add-reference fuel))
      ∙ step-reference (trie_add reference fuel key val) t
      ∙ sym (unrolled reference-Documented (trie_add reference fuel key val) t)
