-- ===== src/Btree/Leaf/Fill.antt =====
-- The copy of a leaf page that `btree_leaf_add` makes, with a new item in its place.
use adventure.Base.{
  ℕ, ◌+◌, ◌-◌, ◌^◌, ◌≤◌, ◌<◌, ◌≡◌, ◌⊎◌, List, refl, ◌∙◌, inl, some, ◌∷◌, arith, ok,
}
use adventure.Memory.{pokes_outside, length-peeks}
use adventure.Memory.Words.{split64, join64-pokes, join64-pokes_outside}
use adventure.Fs.{Os}
use adventure.Store.{Store, bytes_of, store_alloc}
use adventure.Store.Access.{word, written, copied, word-copied, word-copied_outside}
use adventure.Store.Valid.{IsOpen, IsOpen-written, IsOpen-copied, IsOpen-list}
use adventure.Store.Alloc.{store_free-eq}
use adventure.Page.{hdr_word, sub16}
use adventure.Page.Header.{Fields, hdr_word-lt}
use adventure.Page.Access.{page_write-ok, header_write-ok, page_copy-ok}
use adventure.Btree.Leaf.{insert_item}

-- The store `g` with the copy at `p`: its header, the items before offset `i`, the new item, and the
-- items behind it.
module _ (g : Store) (page p i key val flags size n used : ℕ) (ps : List ℕ) where
  abbrev with_header : Store
  with_header = written g p (split64 (hdr_word flags size (n + 1) (used + 16)))

  abbrev with_front : Store
  with_front = copied with_header (p + 8) (page + 8) (i - 8)

  abbrev with_key : Store
  with_key = written with_front (p + i) (split64 key)

  abbrev with_item : Store
  with_item = written with_key (p + (i + 8)) (split64 val)

  abbrev with_all : Store
  with_all = copied with_item (p + (i + 16)) (page + i) (used - i)

  abbrev pub filled : Store
  filled = record with_all { free_list = some (page ∷ ps) }

module _ (os : Os) (fuel : ℕ) (s g : Store) (page p i key val hdr flags size n used : ℕ)
    (f : Fields hdr flags size n used) (ps : List ℕ) where
  pub insert_item-eq :
      IsOpen g
      → store_alloc os fuel size s ≡ ok p g
      → g.free_list ≡ some ps
      → 8 ≤ i
      → i ≤ used
      → used + 16 ≤ size
      → size < 2 ^ 16
      → 32 ≤ page
      → 32 ≤ p
      → (page + size ≤ p) ⊎ (p + size ≤ page)
      → page + size ≤ g.end
      → p + size ≤ g.end
      → insert_item os fuel page hdr i key val s
        ≡ ok p (filled g page p i key val flags size n used ps)
  unfolding insert_item
  insert_item-eq o alloc list lo hi room small behind behind_p far inside_page inside =
      let front : sub16 i 8 ≡ i - 8 = omega arith in
      let back : sub16 used i ≡ used - i = omega arith in
      let s1 = with_header g page p i key val flags size n used ps in
      let s2 = with_front g page p i key val flags size n used ps in
      let s3 = with_key g page p i key val flags size n used ps in
      let s4 = with_item g page p i key val flags size n used ps in
      let o1 = IsOpen-written g p _ (omega arith) o in
      let o2 = IsOpen-copied s1 (p + 8) (page + 8) (i - 8) (omega arith) o1 in
      let o3 = IsOpen-written s2 (p + i) (split64 key) (omega arith) o2 in
      let o4 = IsOpen-written s3 (p + (i + 8)) (split64 val) (omega arith) o3 in
      rw (f.flags_field, f.size_field, f.nkeys_field, f.used_field, front, back)
        (rw alloc (
          rw (header_write-ok g o p flags size (n + 1) (used + 16) (omega arith)) (
            rw
              (page_copy-ok s1 o1 p 8 page 8 (i - 8) (omega arith) (omega arith) (omega arith)
                (omega arith) (omega arith) (omega arith))
              (rw (page_write-ok s2 o2 p i key (omega arith) (omega arith)) (
                rw (page_write-ok s3 o3 p (i + 8) val (omega arith) (omega arith)) (
                  rw
                    (page_copy-ok s4 o4 p (i + 16) page i (used - i) (omega arith) (omega arith)
                      (omega arith) (omega arith) (omega arith) (omega arith))
                    (rw
                      (store_free-eq page ps (with_all g page p i key val flags size n used ps)
                        list)
                      refl)))))))

-- The words of the filled page: the header, those before the new item, the item, and those behind.
module _ (g : Store) (page p i key val flags size n used : ℕ) (lo : 8 ≤ i) (hi : i ≤ used)
    (far : (page + used ≤ p) ⊎ (p + (used + 16) ≤ page)) (ps : List ℕ) where
  abbrev s1 : Store
  s1 = with_header g page p i key val flags size n used ps

  abbrev s2 : Store
  s2 = with_front g page p i key val flags size n used ps

  abbrev s3 : Store
  s3 = with_key g page p i key val flags size n used ps

  abbrev s4 : Store
  s4 = with_item g page p i key val flags size n used ps

  -- Where the last copy, and both words of the item, leave a word as it was.
  last :
      (q : ℕ)
      → q + 8 ≤ p + (i + 16)
      → word (filled g page p i key val flags size n used ps) q ≡ word s4 q
  last q h = word-copied_outside s4 (p + (i + 16)) (page + i) (used - i) q (inl h)

  items_behind : (q : ℕ) → q + 8 ≤ p + i → word s4 q ≡ word s2 q
  items_behind q h =
      join64-pokes_outside (bytes_of s3) (p + (i + 8)) q (split64 val) (inl (omega arith))
      ∙ join64-pokes_outside (bytes_of s2) (p + i) q (split64 key) (inl h)

  outside : (q : ℕ) → (q + 8 ≤ p) ⊎ (p + (used + 16) ≤ q) → word s4 q ≡ word g q
  outside q h =
      join64-pokes_outside (bytes_of s3) (p + (i + 8)) q (split64 val) (omega arith)
      ∙ join64-pokes_outside (bytes_of s2) (p + i) q (split64 key) (omega arith)
      ∙ word-copied_outside s1 (p + 8) (page + 8) (i - 8) q (omega arith)
      ∙ join64-pokes_outside (bytes_of g) p q _ (omega arith)

  -- Nothing outside the new page has changed.
  pub kept-filled :
      (a : ℕ)
      → (a < p) ⊎ (p + (used + 16) ≤ a)
      → bytes_of (filled g page p i key val flags size n used ps) a ≡ bytes_of g a
  kept-filled a h =
      pokes_outside (bytes_of s4) (p + (i + 16)) _ a
        (omega (arith, length-peeks (bytes_of s4) (page + i) (used - i)))
      ∙ pokes_outside (bytes_of s3) (p + (i + 8)) (split64 val) a (omega arith)
      ∙ pokes_outside (bytes_of s2) (p + i) (split64 key) a (omega arith)
      ∙ pokes_outside (bytes_of s1) (p + 8) _ a
          (omega (arith, length-peeks (bytes_of s1) (page + 8) (i - 8)))
      ∙ pokes_outside (bytes_of g) p _ a (omega arith)

  -- It is as open as the store was.
  pub IsOpen-filled : 14 ≤ p → IsOpen g → IsOpen (filled g page p i key val flags size n used ps)
  IsOpen-filled h o =
      IsOpen-list (with_all g page p i key val flags size n used ps) (some (page ∷ ps)) (
        IsOpen-copied s4 (p + (i + 16)) (page + i) (used - i) (omega arith) (
          IsOpen-written s3 (p + (i + 8)) (split64 val) (omega arith) (
            IsOpen-written s2 (p + i) (split64 key) (omega arith) (
              IsOpen-copied s1 (p + 8) (page + 8) (i - 8) (omega arith)
                (IsOpen-written g p (split64 (hdr_word flags size (n + 1) (used + 16))) h o)))))

  pub filled_header :
      word (filled g page p i key val flags size n used ps) p
      ≡ hdr_word flags size (n + 1) (used + 16)
  filled_header =
      last p (omega arith)
      ∙ items_behind p (omega arith)
      ∙ word-copied_outside s1 (p + 8) (page + 8) (i - 8) p (inl (omega arith))
      ∙ join64-pokes (bytes_of g) p (hdr_word flags size (n + 1) (used + 16))
      ∙ omega (arith, hdr_word-lt flags size (n + 1) (used + 16))

  pub filled_front :
      (k : ℕ)
      → k + 8 ≤ i - 8
      → word (filled g page p i key val flags size n used ps) (p + 8 + k) ≡ word g (page + 8 + k)
  filled_front k h =
      last (p + 8 + k) (omega arith)
      ∙ items_behind (p + 8 + k) (omega arith)
      ∙ word-copied s1 (p + 8) (page + 8) (i - 8) k h
      ∙ join64-pokes_outside (bytes_of g) p (page + 8 + k) _ (omega arith)

  pub filled_key :
      key < 2 ^ 64 → word (filled g page p i key val flags size n used ps) (p + i) ≡ key
  filled_key small =
      last (p + i) (omega arith)
      ∙ join64-pokes_outside (bytes_of s3) (p + (i + 8)) (p + i) (split64 val) (inl (omega arith))
      ∙ join64-pokes (bytes_of s2) (p + i) key
      ∙ omega arith

  pub filled_val :
      val < 2 ^ 64 → word (filled g page p i key val flags size n used ps) (p + (i + 8)) ≡ val
  filled_val small =
      last (p + (i + 8)) (omega arith) ∙ join64-pokes (bytes_of s3) (p + (i + 8)) val ∙ omega arith

  pub filled_back :
      (k : ℕ)
      → k + 8 ≤ used - i
      → word (filled g page p i key val flags size n used ps) (p + (i + 16) + k)
        ≡ word g (page + i + k)
  filled_back k h =
      word-copied s4 (p + (i + 16)) (page + i) (used - i) k h ∙ outside (page + i + k) (omega arith)
