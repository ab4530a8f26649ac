-- ===== src/Btree/Branch/Replace.antt =====
-- The copy of a branch page that `btree_branch_add` makes for a child that was not split: one
-- pointer is new.
use adventure.Base.{
  ℕ, ◌+◌, ◌-◌, ◌^◌, ◌≤◌, ◌<◌, ◌≡◌, ◌⊎◌, List, refl, ◌∙◌, ap, inl, inr, some, ◌∷◌, arith, ok,
}
use adventure.Memory.{pokes_outside, length-peeks}
use adventure.Memory.Words.{split64, join64-pokes, join64-pokes_outside}
use adventure.Fs.{Os}
use adventure.Store.{Store, bytes_of, store_alloc}
use adventure.Store.Access.{word, written, copied, word-copied, word-copied_outside}
use adventure.Store.Valid.{IsOpen, IsOpen-written, IsOpen-copied, IsOpen-list}
use adventure.Store.Alloc.{store_free-eq}
use adventure.Page.{hdr_word, sub16}
use adventure.Page.Header.{Fields, hdr_word-lt}
use adventure.Page.Access.{page_write-ok, header_write-ok, page_copy-ok}
use adventure.Btree.Branch.{replace_child}

-- The store `g` with the copy at `p` of the branch at `page`, with `orig` at `idx`.
module _ (g : Store) (page p idx orig flags size n used : ℕ) (ps : List ℕ) where
  abbrev with_front : Store
  with_front = copied g (p + 8) (page + 8) (idx - 8)

  abbrev with_child : Store
  with_child = written with_front (p + idx) (split64 orig)

  abbrev with_back : Store
  with_back = copied with_child (p + (idx + 8)) (page + (idx + 8)) (used - (idx + 8))

  abbrev with_header : Store
  with_header = written with_back p (split64 (hdr_word flags size n used))

  abbrev pub replaced : Store
  replaced = record with_header { free_list = some (page ∷ ps) }

module _ (os : Os) (fuel : ℕ) (s g : Store) (page p idx key orig hdr flags size n used : ℕ)
    (f : Fields hdr flags size n used) (ps : List ℕ) where
  pub replace_child-eq :
      IsOpen g
      → store_alloc os fuel size s ≡ ok p g
      → g.free_list ≡ some ps
      → 8 ≤ idx
      → idx + 8 ≤ used
      → used ≤ size
      → size < 2 ^ 16
      → 32 ≤ p
      → (page + size ≤ p) ⊎ (p + size ≤ page)
      → page + size ≤ g.end
      → p + size ≤ g.end
      → replace_child os fuel page hdr idx key orig 0 s
        ≡ ok p (replaced g page p idx orig flags size n used ps)
  unfolding replace_child
  replace_child-eq o alloc list lo hi room small behind_p far inside_page inside =
      let front : sub16 idx 8 ≡ idx - 8 = omega arith in
      let back : sub16 used (idx + 8) ≡ used - (idx + 8) = omega arith in
      let at : idx + 8 + 0 ≡ idx + 8 = omega arith in
      let same : used + 0 ≡ used = omega arith in
      let s1 = with_front g page p idx orig flags size n used ps in
      let s2 = with_child g page p idx orig flags size n used ps in
      let s3 = with_back g page p idx orig flags size n used ps in
      let o1 = IsOpen-copied g (p + 8) (page + 8) (idx - 8) (omega arith) o in
      let o2 = IsOpen-written s1 (p + idx) (split64 orig) (omega arith) o1 in
      let o3 =
        IsOpen-copied s2 (p + (idx + 8)) (page + (idx + 8)) (used - (idx + 8)) (omega arith) o2 in
      rw (f.flags_field, f.size_field, f.nkeys_field, f.used_field, front, back, at, same)
        (rw alloc (
          rw
            (page_copy-ok g o p 8 page 8 (idx - 8) (omega arith) (omega arith) (omega arith)
              (omega arith) (omega arith) (omega arith))
            (rw (page_write-ok s1 o1 p idx orig (omega arith) (omega arith)) (
              rw
                (page_copy-ok s2 o2 p (idx + 8) page (idx + 8) (used - (idx + 8)) (omega arith)
                  (omega arith) (omega arith) (omega arith) (omega arith) (omega arith))
                (rw (header_write-ok s3 o3 p flags size n used (omega arith)) (
                  rw
                    (store_free-eq page ps (with_header g page p idx orig flags size n used ps)
                      list)
                    refl))))))

-- The words of the copy.
module _ (g : Store) (page p idx orig flags size n used : ℕ) (ps : List ℕ) (lo : 8 ≤ idx)
    (hi : idx + 8 ≤ used) (far : (page + used ≤ p) ⊎ (p + used ≤ page)) where
  abbrev s1 : Store
  s1 = with_front g page p idx orig flags size n used ps

  abbrev s2 : Store
  s2 = with_child g page p idx orig flags size n used ps

  abbrev s3 : Store
  s3 = with_back g page p idx orig flags size n used ps

  abbrev out : Store
  out = replaced g page p idx orig flags size n used ps

  behind_header : (q : ℕ) → p + 8 ≤ q → word out q ≡ word s3 q
  behind_header q h = join64-pokes_outside (bytes_of s3) p q _ (inr h)

  pub replaced_header : word out p ≡ hdr_word flags size n used
  replaced_header =
      join64-pokes (bytes_of s3) p (hdr_word flags size n used)
      ∙ omega (arith, hdr_word-lt flags size n used)

  pub replaced_child : orig < 2 ^ 64 → word out (p + idx) ≡ orig
  replaced_child small =
      behind_header (p + idx) (omega arith)
      ∙ word-copied_outside s2 (p + (idx + 8)) (page + (idx + 8)) (used - (idx + 8)) (p + idx)
          (inl (omega arith))
      ∙ join64-pokes (bytes_of s1) (p + idx) orig
      ∙ omega arith

  pub replaced_front : (k : ℕ) → 8 ≤ k → k + 8 ≤ idx → word out (p + k) ≡ word g (page + k)
  replaced_front k a b =
      behind_header (p + k) (omega arith)
      ∙ word-copied_outside s2 (p + (idx + 8)) (page + (idx + 8)) (used - (idx + 8)) (p + k)
          (inl (omega arith))
      ∙ join64-pokes_outside (bytes_of s1) (p + idx) (p + k) (split64 orig) (inl (omega arith))
      ∙ ap (word s1) (omega arith)
      ∙ word-copied g (p + 8) (page + 8) (idx - 8) (k - 8) (omega arith)
      ∙ ap (word g) (omega arith)

  pub replaced_back : (k : ℕ) → idx + 8 ≤ k → k + 8 ≤ used → word out (p + k) ≡ word g (page + k)
  replaced_back k a b =
      behind_header (p + k) (omega arith)
      ∙ ap (word s3) (omega arith)
      ∙ word-copied s2 (p + (idx + 8)) (page + (idx + 8)) (used - (idx + 8)) (k - (idx + 8))
          (omega arith)
      ∙ ap (word s2) (omega arith)
      ∙ join64-pokes_outside (bytes_of s1) (p + idx) (page + k) (split64 orig) (omega arith)
      ∙ word-copied_outside g (p + 8) (page + 8) (idx - 8) (page + k) (omega arith)

  pub kept-replaced : (a : ℕ) → (a < p) ⊎ (p + used ≤ a) → bytes_of out a ≡ bytes_of g a
  kept-replaced a h =
      pokes_outside (bytes_of s3) p _ a (omega arith)
      ∙ pokes_outside (bytes_of s2) (p + (idx + 8)) _ a
          (omega (arith, length-peeks (bytes_of s2) (page + (idx + 8)) (used - (idx + 8))))
      ∙ pokes_outside (bytes_of s1) (p + idx) (split64 orig) a (omega arith)
      ∙ pokes_outside (bytes_of g) (p + 8) _ a
          (omega (arith, length-peeks (bytes_of g) (page + 8) (idx - 8)))

  pub IsOpen-replaced : 14 ≤ p → IsOpen g → IsOpen out
  IsOpen-replaced h o =
      IsOpen-list (with_header g page p idx orig flags size n used ps) (some (page ∷ ps)) (
        IsOpen-written s3 p (split64 (hdr_word flags size n used)) h (
          IsOpen-copied s2 (p + (idx + 8)) (page + (idx + 8)) (used - (idx + 8)) (omega arith) (
            IsOpen-written s1 (p + idx) (split64 orig) (omega arith)
              (IsOpen-copied g (p + 8) (page + 8) (idx - 8) (omega arith) o))))
