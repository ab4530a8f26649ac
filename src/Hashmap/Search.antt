-- ===== src/Hashmap/Search.antt =====
-- The search of `hmap_get_entry` in the list of a bucket, and what a write at the place that it
-- gives does to the searches for other keys.
use adventure.Base.{
  ℕ, suc, ◌≡◌, refl, ◌⊎◌, inl, inr, Bool, true, false, Option, none, some, List, [], ◌∷◌,
  Bool-cases, if◌then◌else◌,
}
use adventure.Hashmap.{Entry, read_val, write_val, place, behind}

module _ {K : Type 0} where
  -- The value of the first entry that `p` is true of.
  unfoldable pub find : (K → ℕ → Bool) → List (Entry K) → Option ℕ
  find p [] = none
  find p (e ∷ es) = if p e.key e.hash then some e.val else find p es

  -- The element that `hmap_get_entry` leads to.
  pub record Found (p : K → ℕ → Bool) (es : List (Entry K)) (i : ℕ) : Type 0 where
    pub at : place p es ≡ some i
    pub val : ℕ
    pub reads : read_val es i ≡ some val
    pub finds : find p es ≡ some val
    pub rewrites : (v : ℕ) → find p (write_val es i v) ≡ some v
    pub keeps :
        (q : K → ℕ → Bool)
        → ((k : K) (h : ℕ) → p k h ≡ true → q k h ≡ false)
        → (v : ℕ) → find q (write_val es i v) ≡ find q es

  Found-here :
      (p : K → ℕ → Bool) (e : Entry K) (es : List (Entry K))
      → p e.key e.hash ≡ true
      → Found p (e ∷ es) 0
  unfolding place behind find read_val write_val
  Found-here p e es hit = record {
    at = rw hit refl;
    val = e.val;
    reads = refl;
    finds = rw hit refl;
    rewrites = λ v. rw hit refl;
    keeps = λ q apart v. rw (apart e.key e.hash hit) refl;
  }

  Found-behind :
      (p : K → ℕ → Bool) (e : Entry K) (es : List (Entry K)) (i : ℕ)
      → p e.key e.hash ≡ false
      → Found p es i
      → Found p (e ∷ es) (suc i)
  unfolding place behind find read_val write_val
  Found-behind p e es i miss f = record {
    at = rw (miss, f.at) refl;
    val = f.val;
    reads = f.reads;
    finds = rw miss f.finds;
    rewrites = λ v. rw miss (f.rewrites v);
    keeps = λ q apart v. rw (f.keeps q apart v) refl;
  }

  pub place-cases :
      (p : K → ℕ → Bool) (es : List (Entry K))
      → ((place p es ≡ none) × (find p es ≡ none)) ⊎ ((i : ℕ) × Found p es i)
  unfolding place behind find
  place-cases p [] = inl (refl, refl)
  place-cases p (e ∷ es) = elim (Bool-cases (p e.key e.hash)) [
    | inl hit ↦ inr (0, Found-here p e es hit)
    | inr miss ↦ elim (place-cases p es) [
      | inl (nowhere, absent) ↦ inl (rw (miss, nowhere) refl, rw miss absent)
      | inr (i, f) ↦ inr (suc i, Found-behind p e es i miss f)
    ]
  ]

  pub find_ext :
      (p q : K → ℕ → Bool)
      → ((k : K) (h : ℕ) → q k h ≡ p k h)
      → (es : List (Entry K)) → find q es ≡ find p es
  unfolding find
  find_ext p q same [] = refl
  find_ext p q same (e ∷ es) = rw (same e.key e.hash, find_ext p q same es) refl
