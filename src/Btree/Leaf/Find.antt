-- ===== src/Btree/Leaf/Find.antt =====
-- The search of a leaf page.
use adventure.Base.{
  ℕ, zero, suc, ◌+◌, ◌^◌, ◌≤◌, ◌<◌, ◌≡◌, ◌∙◌, ap, inl, inr, List, [], ◌∷◌, Bool-cases, arith,
  length, get_or, leb, lt→ltb, le→ltb, u16, ok, and_then-ok,
}
use adventure.Store.{Store}
use adventure.Store.Access.{word}
use adventure.Store.Valid.{IsOpen}
use adventure.Page.{pg_used, hdr_word}
use adventure.Page.Access.{page_read-ok, header_read-ok}
use adventure.Btree.Search.{page_rounds, leaf_scan, btree_leaf_find}
use adventure.Btree.Leaf.Items.{Item, find_item, find_item-le}
use adventure.Btree.Leaf.View.{used_bytes, LeafPage, LeafPage-Fields}

module _ (s : Store) (o : IsOpen s) (page key hdr : ℕ) where
  -- From the item `j` on, of which the items `ys` are left.
  leaf_scan-eq :
      (r j : ℕ) (ys : List Item)
      → length ys < r
      → pg_used hdr ≡ used_bytes (j + length ys)
      → used_bytes (j + length ys) + 16 < 2 ^ 16
      → page + used_bytes (j + length ys) ≤ s.end
      → ((i : ℕ) → i < length ys → word s (page + used_bytes (j + i)) ≡ (get_or ys i (0, 0)).0)
      → leaf_scan r page key hdr (used_bytes j) s ≡ ok (used_bytes (j + find_item key ys)) s
  unfolding leaf_scan find_item
  leaf_scan-eq zero j ys rounds used small room items = absurd (omega arith)
  leaf_scan-eq (suc r) j [] rounds used small room items =
      rw (used, le→ltb (used_bytes j) (used_bytes (j + 0)) (omega arith))
        (ap (λ (t : ℕ). ok t s) (omega arith))
  leaf_scan-eq (suc r) j (y ∷ ys) rounds used small room items =
      let next : u16 (used_bytes j + 16) ≡ used_bytes (suc j) = omega arith in
      let first : word s (page + used_bytes j) ≡ y.0 =
        ap (word s) (omega arith) ∙ items 0 (omega arith) in
      let rest =
        leaf_scan-eq r (suc j) ys (omega arith) (omega (arith, used)) (omega arith) (omega arith)
          (λ i lt. ap (word s) (omega arith) ∙ items (suc i) (omega arith)) in
      rw (used, lt→ltb (used_bytes j) (used_bytes (j + suc (length ys))) (omega arith))
        (rw (page_read-ok s o page (used_bytes j) (omega arith) (omega arith), first, next)
          (elim (Bool-cases (leb key y.0)) [
            | inl e ↦ rw e (ap (λ (t : ℕ). ok t s) (omega arith))
            | inr e ↦ rw e (rest ∙ ap (λ (t : ℕ). ok t s) (omega arith))
          ]))

-- In an open store btree_leaf_find on a leaf page returns the offset of the first item whose key is
-- not below the one that is searched, or the end of the items, and changes nothing; that offset is
-- not behind the part of the page that is in use.
pub btree_leaf_find-eq :
    (s : Store) (page key flags size : ℕ) (xs : List Item)
    → IsOpen s
    → LeafPage s page flags size xs
    → (btree_leaf_find page key s ≡ ok (used_bytes (find_item key xs)) s)
      × (used_bytes (find_item key xs) ≤ used_bytes (length xs))
unfolding btree_leaf_find
btree_leaf_find-eq s page key flags size xs o v = (
  and_then-ok (λ hdr. leaf_scan page_rounds page key hdr 8)
        (header_read-ok s o page (omega (arith, v.before_end, v.fits)) ∙ ap (λ h. ok h s) v.header)
      ∙ leaf_scan-eq s o page key (hdr_word flags size (length xs) (used_bytes (length xs)))
          page_rounds 0 xs (omega (arith, v.fits, v.small_size))
          ((LeafPage-Fields s page flags size xs v).used_field ∙ omega arith)
          (omega (arith, v.fits, v.small_size)) (omega (arith, v.fits, v.before_end))
          (λ i lt. ap (word s) (omega arith) ∙ v.keys i lt)
      ∙ ap (λ (t : ℕ). ok t s) (omega arith),
  omega (arith, find_item-le key xs),
)
