-- ===== src/Btree/Leaf/Add.antt =====
-- `btree_leaf_add` of a key that the leaf does not have.
use adventure.Base.{
  ℕ, suc, ◌+◌, ◌-◌, ◌*◌, ◌^◌, ◌≤◌, ◌<◌, ◌≡◌, ◌⊎◌, refl, ◌∙◌, ap, inl, inr, none, some, List, ◌∷◌,
  arith, length, ltb, ◌==◌, ◌&&◌, ok, false, if◌then◌else◌, Bool-cases, lt→ltb, le→ltb, ltb→lt,
  ne→==, Returns, returns, Returns-eq, Returns-mono, pure,
}
use adventure.Bits.{bit_and_mask}
use adventure.Fs.{Os, Grants}
use adventure.Store.{Store, bytes_of, store_alloc}
use adventure.Store.Access.{word}
use adventure.Store.Valid.{IsOpen}
use adventure.Page.{pg_free, hdr_word}
use adventure.Page.Header.{Fields}
use adventure.Page.Access.{header_read-ok, page_read-ok}
use adventure.Btree.Search.{key_get}
use adventure.Btree.Leaf.{insert_item, btree_leaf_add}
use adventure.Btree.Leaf.Items.{
  Item, find_item, insert, value_of, Rises, find_item-le, item_other, item_small, insert-Rises,
}
use adventure.Btree.Leaf.View.{used_bytes, LeafPage, LeafPage-Fields}
use adventure.Btree.Leaf.Find.{btree_leaf_find-eq}
use adventure.Btree.Leaf.Taken.{Coming, waiting, Taken, store_alloc-Taken}
use adventure.Btree.Leaf.Filled.{filled-LeafPage}
use adventure.Btree.Leaf.Fill.{insert_item-eq, kept-filled, IsOpen-filled}

pg_free-eq :
    (hdr flags size n used : ℕ)
    → Fields hdr flags size n used
    → used ≤ size
    → size < 2 ^ 16
    → pg_free hdr ≡ size - used
unfolding pg_free
pg_free-eq hdr flags size n used f fits small = rw (f.size_field, f.used_field) (omega arith)

pub key_get-eq : (key : ℕ) → key < 2 ^ 63 → key_get key ≡ key
unfolding key_get
key_get-eq key small = bit_and_mask 63 key ∙ omega arith

module _ (os : Os) (fuel : ℕ) (s : Store) (page key val flags size : ℕ) (xs : List Item)
    (o : IsOpen s) (v : LeafPage s page flags size xs) (rises : Rises 0 xs)
    (new : value_of key xs ≡ none) where
  abbrev place : ℕ
  place = used_bytes (find_item key xs)

  abbrev hdr : ℕ
  hdr = hdr_word flags size (length xs) (used_bytes (length xs))

  -- The item that the search stops at has another key.
  no_dup : (ltb place (used_bytes (length xs)) && key_get (word s (page + place)) == key) ≡ false
  no_dup = elim (Bool-cases (ltb place (used_bytes (length xs)))) [
    | inr e ↦ rw e refl
    | inl e ↦
        let inside : find_item key xs < length xs =
          omega (arith, ltb→lt place (used_bytes (length xs)) e) in
        let small = item_small 0 xs (find_item key xs) rises inside in
        rw (e, v.keys (find_item key xs) inside, key_get-eq _ small)
          (ne→== _ key (item_other key xs (find_item key xs) new inside))
  ]

  absent_eq :
      btree_leaf_add os fuel page key val s
      ≡ (if ltb (size - used_bytes (length xs)) 16
            then pure 0
            else insert_item os fuel page hdr place key val)
          s
  unfolding btree_leaf_add
  absent_eq =
      let f = LeafPage-Fields s page flags size xs v in
      let (found, inside) = btree_leaf_find-eq s page key flags size xs o v in
      rw (header_read-ok s o page (omega (arith, v.before_end, v.fits)), v.header)
        (rw found (
          rw
            (page_read-ok s o page place (omega (arith, inside, v.fits, v.small_size))
              (omega (arith, inside, v.fits, v.whole, v.before_end)))
            (rw
              (f.used_field, no_dup, pg_free-eq hdr flags size (length xs) _ f v.fits v.small_size)
              refl)))

  -- In an open store, for a leaf with rising keys below 2^63 and less than 16 bytes of room, and a
  -- key that it does not have, btree_leaf_add returns 0 and changes nothing.
  pub btree_leaf_add_full :
      size < used_bytes (length xs) + 16 → btree_leaf_add os fuel page key val s ≡ ok 0 s
  btree_leaf_add_full full =
      absent_eq
      ∙ ap (λ b. (if b then pure 0 else insert_item os fuel page hdr place key val) s)
          (lt→ltb (size - used_bytes (length xs)) 16 (omega arith))

-- The leaf at `p` of `g` has the items of `page` and the new one. It is where a page was to come, the
-- old page is in front of the rest of the free list, and nothing else that `s` held behind the `end`
-- field of its header has changed.
pub record Inserted (s : Store) (page flags size : ℕ) (xs : List Item) (key val q : ℕ) (ps : List ℕ)
    (p : ℕ) (g : Store) : Type 0 where
  pub IsOpen-after : IsOpen g
  pub new_page : p ≡ q
  pub leaf : LeafPage g p flags size (insert key val xs)
  pub Rises-after : Rises 0 (insert key val xs)
  pub next : Coming g p size page ps
  pub freed : g.free_list ≡ some (page ∷ ps)
  pub longer : s.end ≤ g.end
  pub kept : (a : ℕ) → 14 ≤ a → a < s.end → (a < q) ⊎ (q + size ≤ a) → bytes_of g a ≡ bytes_of s a

module _ (os : Os) (fuel : ℕ) (s : Store) (page key val flags size : ℕ) (xs : List Item) where
  -- From the page that was taken: nothing is allocated behind it.
  pub btree_leaf_add-Taken :
      {q p : ℕ} {ps : List ℕ} {g : Store}
      → IsOpen s
      → LeafPage s page flags size xs
      → Rises 0 xs
      → value_of key xs ≡ none
      → key < 2 ^ 63
      → val < 2 ^ 64
      → used_bytes (length xs) + 16 ≤ size
      → store_alloc os fuel size s ≡ ok p g
      → Taken s page size q ps p g
      → Returns
          (λ r h.
            Inserted s page flags size xs key val q ps r h
            × (h.end ≡ g.end)
            × (h.file.size ≡ g.file.size))
          (btree_leaf_add os fuel page key val s)
  btree_leaf_add-Taken {p = p} {ps = ps} {g = g} o v rises new fits_key fits_val room eq a =
      let i : ℕ = used_bytes (find_item key xs) in
      let n : ℕ = length xs in
      let lo : 8 ≤ i = omega arith in
      let hi : i ≤ used_bytes n = omega (arith, find_item-le key xs) in
      let far : (page + used_bytes n ≤ p) ⊎ (p + (used_bytes n + 16) ≤ page) =
        omega (arith, a.apart, v.fits) in
      let done =
        insert_item-eq os fuel s g page p i key val _ flags size n (used_bytes n)
          (LeafPage-Fields s page flags size xs v) ps a.IsOpen-after eq a.rest lo hi room
          v.small_size v.behind_header a.behind_header a.apart
          (omega (arith, v.before_end, a.longer)) a.inside in
      rw (absent_eq os fuel s page key val flags size xs o v rises new) (
        rw (le→ltb (size - used_bytes n) 16 (omega arith), done)
          (returns (
            record {
              IsOpen-after =
                  IsOpen-filled g page p i key val flags size n (used_bytes n) lo hi far ps
                    (omega (arith, a.behind_header)) a.IsOpen-after;
              new_page = a.is;
              leaf =
                  filled-LeafPage s g page p key val flags size xs ps v a.behind_header a.apart room
                    a.same_bytes a.inside (omega arith) fits_val;
              Rises-after = insert-Rises key val 0 xs rises (omega arith) fits_key fits_val new;
              next =
                  waiting refl v.behind_header (omega (arith, v.before_end, a.longer))
                    (omega (arith, a.apart));
              freed = refl;
              longer = a.longer;
              kept = λ b lo_b lt out.
                  kept-filled g page p i key val flags size n (used_bytes n) lo hi far ps b
                    (omega (arith, a.is))
                  ∙ a.same_bytes b lo_b lt;
            },
            refl,
            refl,
          )))

module _ {os : Os} {limit : ℕ} (grants : Grants os limit) (small : limit < 2 ^ 63) (k : ℕ)
    (s : Store) (page key val flags size : ℕ) (xs : List Item) where
  -- On an open store where a page is to come (no page is freed, or one of the leaf's size that does
  -- not overlap it waits in front of the free list) and the file has room to grow (doubled k times
  -- it holds a page more, within a granted limit below 2^63), for a leaf whose keys rise below 2^63
  -- and that has room for an item, and a new key below 2^63 with a value below 2^64, btree_leaf_add
  -- with k + 1 rounds of fuel returns that page; its header and items are those of the old leaf
  -- with the new item in its place, the keys rise, the old leaf is in front of the free list and
  -- does not overlap the new one, and no byte outside the new page has changed of the old file
  -- behind the end field of its header.
  pub btree_leaf_add-Inserted :
      {q : ℕ} {ps : List ℕ}
      → IsOpen s
      → Coming s page size q ps
      → LeafPage s page flags size xs
      → Rises 0 xs
      → value_of key xs ≡ none
      → key < 2 ^ 63
      → val < 2 ^ 64
      → used_bytes (length xs) + 16 ≤ size
      → s.end + size ≤ s.file.size * 2 ^ k
      → s.file.size * 2 ^ k ≤ limit
      → Returns
          (Inserted s page flags size xs key val q ps)
          (btree_leaf_add os (suc k) page key val s)
  btree_leaf_add-Inserted o coming v rises new fits_key fits_val room granted_room granted =
      let (p, g, eq, a) =
        Returns-eq (
          store_alloc-Taken grants small k s page size o v.before_end coming granted_room
            granted) in
      Returns-mono
        (btree_leaf_add-Taken os (suc k) s page key val flags size xs o v rises new fits_key
          fits_val room eq a)
        (λ r h b. b.0)
