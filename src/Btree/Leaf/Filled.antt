-- ===== src/Btree/Leaf/Filled.antt =====
-- The items of the page that `btree_leaf_add` fills.
use adventure.Base.{
  ℕ, suc, ◌+◌, ◌-◌, ◌*◌, ◌^◌, ◌≤◌, ◌<◌, ◌≡◌, sym, ◌∙◌, ap, ap₂, ◌⊎◌, inl, inr, List, arith, length,
  get_or, ltb, ltb→lt, ltb→le, ◌==◌, ==_iff, Bool-cases,
}
use adventure.Store.{Store, bytes_of}
use adventure.Store.Access.{word}
use adventure.Page.{hdr_word}
use adventure.Btree.Leaf.Items.{
  Item, find_item, find_item-le, insert, length-insert, get_or-insert_before, get_or-insert_at,
  get_or-insert_behind,
}
use adventure.Btree.Leaf.View.{used_bytes, LeafPage, word-kept}
use adventure.Btree.Leaf.Fill.{
  filled, filled_header, filled_front, filled_key, filled_val, filled_back,
}

-- Where a place of the new list comes from, `m` being the new item's.
pub before_at_behind : (m i : ℕ) → (i < m) ⊎ ((i ≡ m) ⊎ ((j : ℕ) × (i ≡ suc j) × (m ≤ j)))
before_at_behind m i = elim (Bool-cases (ltb i m)) [
  | inl e ↦ inl (ltb→lt i m e)
  | inr e ↦ elim (Bool-cases (i == m)) [
    | inl same ↦ inr (inl ((==_iff i m).0 same))
    | inr other ↦ inr (
        inr (
          i - 1,
          ground (arith, ltb→le i m e, ==_iff i m),
          ground (arith, ltb→le i m e, ==_iff i m),
        ))
  ]
]

module _ (s g : Store) (page p key val flags size : ℕ) (xs : List Item) (ps : List ℕ)
    (v : LeafPage s page flags size xs) (behind : 32 ≤ p)
    (apart : (page + size ≤ p) ⊎ (p + size ≤ page)) (room : used_bytes (length xs) + 16 ≤ size)
    (kept : (a : ℕ) → 14 ≤ a → a < s.end → bytes_of g a ≡ bytes_of s a) where
  abbrev n : ℕ
  n = length xs

  abbrev place : ℕ
  place = used_bytes (find_item key xs)

  abbrev out : Store
  out = filled g page p place key val flags size n (used_bytes n) ps

  within_page : place ≤ used_bytes n
  within_page = omega (arith, find_item-le key xs)

  before_copy : (page + used_bytes n ≤ p) ⊎ (p + (used_bytes n + 16) ≤ page)
  before_copy = omega (arith, v.fits)

  old_word : (q : ℕ) → page ≤ q → q + 8 ≤ page + size → word g q ≡ word s q
  old_word q lo hi =
      word-kept s g kept q (omega (arith, v.behind_header)) (omega (arith, v.before_end))

  front :
      (i c : ℕ)
      → i < find_item key xs
      → c ≤ 8
      → word out (p + used_bytes i + c) ≡ word s (page + used_bytes i + c)
  front i c lt le =
      ap (word out) (omega arith)
      ∙ filled_front g page p place key val flags size n (used_bytes n) (omega arith) within_page
          before_copy ps (16 * i + c) (omega arith)
      ∙ ap (word g) (omega arith)
      ∙ old_word (page + used_bytes i + c) (omega arith)
          (omega (arith, find_item-le key xs, v.fits))

  back :
      (i c : ℕ)
      → find_item key xs ≤ i
      → i < n
      → c ≤ 8
      → word out (p + used_bytes (suc i) + c) ≡ word s (page + used_bytes i + c)
  back i c lo lt le =
      let k : ℕ = 16 * (i - find_item key xs) + c in
      ap (word out) (omega arith)
      ∙ filled_back g page p place key val flags size n (used_bytes n) (omega arith) within_page
          before_copy ps k (omega arith)
      ∙ ap (word g) (omega arith)
      ∙ old_word (page + used_bytes i + c) (omega arith) (omega (arith, v.fits))

  -- A field `f` of the items, at byte `c` of each.
  fields :
      (f : Item → ℕ) (c : ℕ)
      → c ≤ 8
      → ((i : ℕ) → i < n → word s (page + used_bytes i + c) ≡ f (get_or xs i (0, 0)))
      → word out (p + place + c) ≡ f (key, val)
      → (i : ℕ) → i < suc n
      → word out (p + used_bytes i + c) ≡ f (get_or (insert key val xs) i (0, 0))
  fields f c le old item i lt = elim (before_at_behind (find_item key xs) i) [
    | inl before ↦
        front i c before le
        ∙ old i (omega (arith, find_item-le key xs))
        ∙ ap f (sym (get_or-insert_before key val xs i before))
    | inr (inl at) ↦
        ap (λ j. word out (p + used_bytes j + c)) at
        ∙ item
        ∙ ap f (sym (get_or-insert_at key val xs))
        ∙ ap (λ j. f (get_or (insert key val xs) j (0, 0))) (sym at)
    | inr (inr (j, e, behind)) ↦
        ap (λ k. word out (p + used_bytes k + c)) e
        ∙ back j c behind (omega arith) le
        ∙ old j (omega arith)
        ∙ ap f (sym (get_or-insert_behind key val xs j behind))
        ∙ ap (λ k. f (get_or (insert key val xs) k (0, 0))) (sym e)
  ]

  pub filled-LeafPage :
      p + size ≤ g.end → key < 2 ^ 64 → val < 2 ^ 64 → LeafPage out p flags size (insert key val xs)
  filled-LeafPage more fits_key fits_val =
      let lo : 8 ≤ place = omega arith in
      record {
        behind_header = behind;
        before_end = more;
        byte_flags = v.byte_flags;
        small_size = v.small_size;
        whole = v.whole;
        fits = omega (arith, length-insert key val xs);
        header =
            filled_header g page p place key val flags size n (used_bytes n) lo within_page
              before_copy ps
            ∙ ap₂ (λ c u. hdr_word flags size c u) (omega (arith, length-insert key val xs))
                (omega (arith, length-insert key val xs));
        keys = λ i lt.
            ap (word out) (omega arith)
            ∙ fields (λ x. x.0) 0 (omega arith) (λ j lj. ap (word s) (omega arith) ∙ v.keys j lj)
                (ap (word out) (omega arith)
                  ∙ filled_key g page p place key val flags size n (used_bytes n) lo within_page
                      before_copy ps fits_key)
                i (omega (arith, length-insert key val xs));
        vals = λ i lt.
            fields (λ x. x.1) 8 (omega arith) v.vals
              (ap (word out) (omega arith)
                ∙ filled_val g page p place key val flags size n (used_bytes n) lo within_page
                    before_copy ps fits_val)
              i (omega (arith, length-insert key val xs));
      }
