-- ===== src/Btree/Tree/Split/Half.antt =====
-- The leaf page that `btree_leaf_copy_in` makes of a run of a leaf's items, with the new item where
-- it belongs there.
use adventure.Base.{
  ℕ, suc, ◌+◌, ◌-◌, ◌*◌, ◌^◌, ◌%◌, ◌≤◌, ◌<◌, ◌≡◌, ◌⊎◌, List, refl, ◌∙◌, ap, ap₂, arith, ◌==◌, ltb,
  leb, ◌&&◌, ◌||◌, true, false, length, subst, Returns, returns,
}
use adventure.Store.{Store, bytes_of}
use adventure.Store.Access.{word}
use adventure.Store.Valid.{IsOpen}
use adventure.Page.{hdr_word}
use adventure.Btree.Leaf.{btree_leaf_copy_in}
use adventure.Btree.Leaf.Items.{Item, find_item, find_item-le, insert, length-insert}
use adventure.Btree.Leaf.View.{used_bytes, LeafPage, LeafPage-Fields}
use adventure.Btree.Tree.Split.Copy.{
  with_new, with_new_header, with_new_kept, IsOpen-with_new, without, without_header, without_kept,
  IsOpen-without,
}
use adventure.Btree.Tree.Split.Items.{HasItems, with_new-HasItems, without-HasItems}
use adventure.Btree.Tree.Split.CopyIn.{no_root, copy_in-without, copy_in-with}

HasItems-LeafPage :
    (s : Store) (p flags size : ℕ) (ys : List Item)
    → 32 ≤ p
    → p + size ≤ s.end
    → flags < 2 ^ 8
    → size < 2 ^ 16
    → size % 16 ≡ 0
    → used_bytes (length ys) ≤ size
    → word s p ≡ hdr_word flags size (length ys) (used_bytes (length ys))
    → HasItems s (p + 8) ys
    → LeafPage s p flags size ys
HasItems-LeafPage s p flags size ys behind inside byte small whole fits header h = record {
  behind_header = behind;
  before_end = inside;
  byte_flags = byte;
  small_size = small;
  whole = whole;
  fits = fits;
  header = header;
  keys = λ i lt. ap (word s) (omega arith) ∙ h.keys i lt;
  vals = λ i lt. ap (word s) (omega arith) ∙ h.vals i lt;
}

-- The leaf at `p` of `g` has the items `ys`, and the rest of `s` is as it was.
pub record Half (s : Store) (p flags size : ℕ) (ys : List Item) (g : Store) : Type 0 where
  pub IsOpen-after : IsOpen g
  pub leaf : LeafPage g p flags size ys
  pub same_end : g.end ≡ s.end
  pub same_size : g.file.size ≡ s.file.size
  pub same_list : g.free_list ≡ s.free_list
  pub kept : (a : ℕ) → (a < p) ⊎ (p + size ≤ a) → bytes_of g a ≡ bytes_of s a

-- The items `ys` of the leaf at `page` begin at its offset 8 + 16 * b.
module _ (s : Store) (page p key val flags size b : ℕ) (xs ys : List Item) (o : IsOpen s)
    (v : LeafPage s page flags size xs) (byte : no_root flags < 2 ^ 8) (behind : 32 ≤ p)
    (inside : p + size ≤ s.end) (apart : (page + size ≤ p) ⊎ (p + size ≤ page))
    (h : HasItems s (page + (8 + 16 * b)) ys) (run : b + length ys ≤ length xs) where
  abbrev hdr : ℕ
  hdr = hdr_word flags size (length xs) (used_bytes (length xs))

  abbrev si : ℕ
  si = 8 + 16 * b

  abbrev m : ℕ
  m = length ys

  pub Half-without :
      (i ei : ℕ)
      → ei ≡ si + 16 * m
      → ((si == 8 || ltb si i) && leb i ei) ≡ false
      → Returns
          (λ _ g. Half s p (no_root flags) size ys g)
          (btree_leaf_copy_in p page m si ei key val i s)
  Half-without i ei end outside =
      let into : si + 16 * m ≤ size = omega (arith, run, v.fits) in
      let far : (page + (si + 16 * m) ≤ p) ⊎ (p + (8 + 16 * m) ≤ page) =
        omega (arith, apart, into) in
      let run_eq =
        copy_in-without s o page p hdr flags size (length xs) (used_bytes (length xs))
          (LeafPage-Fields s page flags size xs v) v.header v.small_size v.before_end inside behind
          (omega (arith, v.fits)) key val m si (16 * m) i
          (subst (λ e. ((si == 8 || ltb si i) && leb i e) ≡ false) end outside) (omega arith) into
          (omega (arith, into)) far in
      rw (end, run_eq)
        (returns record {
          IsOpen-after =
              IsOpen-without s page p si (16 * m) (no_root flags) size m far (omega arith) o;
          leaf =
              HasItems-LeafPage (without s page p si (16 * m) (no_root flags) size m) p
                (no_root flags) size ys behind inside byte v.small_size v.whole
                (omega (arith, into))
                (without_header s page p si (16 * m) (no_root flags) size m far
                  ∙ ap (hdr_word (no_root flags) size m) (omega arith))
                (without-HasItems s page p si (no_root flags) size m ys h far);
          same_end = refl;
          same_size = refl;
          same_list = refl;
          kept = λ a out.
              without_kept s page p si (16 * m) (no_root flags) size m far a (omega (arith, into));
        })

  pub Half-with :
      (i ei : ℕ)
      → ei ≡ si + 16 * m
      → i ≡ si + 16 * find_item key ys
      → ((si == 8 || ltb si i) && leb i ei) ≡ true
      → used_bytes (suc m) ≤ size
      → key < 2 ^ 64
      → val < 2 ^ 64
      → Returns
          (λ _ g. Half s p (no_root flags) size (insert key val ys) g)
          (btree_leaf_copy_in p page m si ei key val i s)
  Half-with i ei end place within room small fits =
      let f = find_item key ys in
      let k : ℕ = 16 * f in
      let l : ℕ = 16 * (m - f) in
      let le = find_item-le key ys in
      let ends : ei ≡ si + k + l = omega (arith, end, le) in
      let far : (page + (si + k + l) ≤ p) ⊎ (p + (24 + k + l) ≤ page) =
        omega (arith, apart, run, v.fits, room, le) in
      let far_m : (page + (si + 16 * m) ≤ p) ⊎ (p + (24 + 16 * m) ≤ page) =
        omega (arith, apart, run, v.fits, room) in
      let fl = no_root flags in
      let out = with_new s page p si k l key val fl size (m + 1) in
      let run_eq =
        copy_in-with s o page p hdr flags size (length xs) (used_bytes (length xs))
          (LeafPage-Fields s page flags size xs v) v.header v.small_size v.before_end inside behind
          (omega (arith, v.fits)) key val m si k l
          (subst (λ e. ((si == 8 || ltb si (si + k)) && leb (si + k) e) ≡ true) ends
            (subst (λ j. ((si == 8 || ltb si j) && leb j ei) ≡ true) place within))
          (omega arith) (omega (arith, run, v.fits, le)) (omega (arith, room, le)) far in
      rw (ends, place, run_eq)
        (returns record {
          IsOpen-after =
              IsOpen-with_new s page p si k l key val fl size (m + 1) far (omega arith) o;
          leaf =
              HasItems-LeafPage out p fl size (insert key val ys) behind inside byte v.small_size
                v.whole (omega (arith, room, length-insert key val ys))
                (with_new_header s page p si k l key val fl size (m + 1) far
                    (omega (arith, room, v.small_size))
                  ∙ ap₂ (hdr_word fl size) (omega (arith, length-insert key val ys))
                      (omega (arith, length-insert key val ys)))
                (with_new-HasItems s page p si key val fl size (m + 1) ys h far_m small fits);
          same_end = refl;
          same_size = refl;
          same_list = refl;
          kept = λ a out.
              with_new_kept s page p si k l key val fl size (m + 1) far a (omega (arith, room, le));
        })
