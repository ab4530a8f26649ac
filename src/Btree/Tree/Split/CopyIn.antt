-- ===== src/Btree/Tree/Split/CopyIn.antt =====
-- `btree_leaf_copy_in` on a run of a leaf's items.
use adventure.Base.{
  ℕ, ◌+◌, ◌-◌, ◌*◌, ◌^◌, ◌≤◌, ◌<◌, ◌≡◌, ◌⊎◌, refl, arith, ok, ◌==◌, ltb, leb, ◌&&◌, ◌||◌, true,
  false, bit_and,
}
use adventure.Store.{Store}
use adventure.Store.Access.{word, copied}
use adventure.Memory.Words.{split64}
use adventure.Store.Valid.{IsOpen, IsOpen-written, IsOpen-copied}
use adventure.Page.{sub16}
use adventure.Page.Header.{Fields}
use adventure.Page.Access.{header_read-ok, page_write-ok, header_write-ok, page_copy-ok}
use adventure.Btree.Leaf.{btree_leaf_copy_in, flags_not_root}
use adventure.Btree.Tree.Split.Copy.{c1, c2, c3, c4, with_new, without}

-- `PG_FLAGS(hdr) & ~btree_root`
abbrev pub no_root : ℕ → ℕ
no_root flags = bit_and flags (2 ^ 64 - 2)

module _ (s : Store) (o : IsOpen s) (src p hdr flags size n used : ℕ)
    (f : Fields hdr flags size n used) (header : word s src ≡ hdr) (small : size < 2 ^ 16)
    (page_in : src + size ≤ s.end) (in_file : p + size ≤ s.end) (behind_p : 32 ≤ p)
    (room : 8 ≤ size) (key val n_keys : ℕ) where
  pub copy_in-without :
      (si l i : ℕ)
      → ((si == 8 || ltb si i) && leb i (si + l)) ≡ false
      → 8 ≤ si
      → si + l ≤ size
      → 8 + l ≤ size
      → (src + (si + l) ≤ p) ⊎ (p + (8 + l) ≤ src)
      → btree_leaf_copy_in p src n_keys si (si + l) key val i s
        ≡ ok tt (without s src p si l (no_root flags) size n_keys)
  unfolding btree_leaf_copy_in flags_not_root
  copy_in-without si l i outside lo hi into far =
      let len : sub16 (si + l) si ≡ l = omega arith in
      let o1 = IsOpen-copied s (p + 8) (src + si) l (omega arith) o in
      rw (header_read-ok s o src (omega arith), header, outside, len, f.flags_field, f.size_field)
        (rw
          (page_copy-ok s o p 8 src si l (omega arith) (omega arith) (omega arith) (omega arith)
            (omega arith) (omega arith))
          (rw
            (header_write-ok (copied s (p + 8) (src + si) l) o1 p (no_root flags) size n_keys
              (n_keys * 16 + 8) (omega arith))
            refl))

  pub copy_in-with :
      (si k l : ℕ)
      → ((si == 8 || ltb si (si + k)) && leb (si + k) (si + k + l)) ≡ true
      → 8 ≤ si
      → si + k + l ≤ size
      → 24 + k + l ≤ size
      → (src + (si + k + l) ≤ p) ⊎ (p + (24 + k + l) ≤ src)
      → btree_leaf_copy_in p src n_keys si (si + k + l) key val (si + k) s
        ≡ ok tt (with_new s src p si k l key val (no_root flags) size (n_keys + 1))
  unfolding btree_leaf_copy_in flags_not_root
  copy_in-with si k l inside lo hi into far =
      let e1 : sub16 (si + k) si ≡ k = omega arith in
      let e2 : sub16 (8 + (si + k)) si ≡ 8 + k = omega arith in
      let e3 : sub16 (8 + (si + k) + 8) si ≡ 16 + k = omega arith in
      let e4 : sub16 (8 + (si + k) + 16) si ≡ 24 + k = omega arith in
      let e5 : sub16 (si + k + l) (si + k) ≡ l = omega arith in
      let fl = no_root flags in
      let s1 = c1 s src p si k l key val fl size (n_keys + 1) in
      let s2 = c2 s src p si k l key val fl size (n_keys + 1) in
      let s3 = c3 s src p si k l key val fl size (n_keys + 1) in
      let s4 = c4 s src p si k l key val fl size (n_keys + 1) in
      let o1 = IsOpen-copied s (p + 8) (src + si) k (omega arith) o in
      let o2 = IsOpen-written s1 (p + (8 + k)) (split64 key) (omega arith) o1 in
      let o3 = IsOpen-written s2 (p + (16 + k)) (split64 val) (omega arith) o2 in
      let o4 = IsOpen-copied s3 (p + (24 + k)) (src + (si + k)) l (omega arith) o3 in
      rw
        (
          header_read-ok s o src (omega arith),
          header,
          inside,
          e1,
          e2,
          e3,
          e4,
          e5,
          f.flags_field,
          f.size_field,
        )
        (rw
          (page_copy-ok s o p 8 src si k (omega arith) (omega arith) (omega arith) (omega arith)
            (omega arith) (omega arith))
          (rw (page_write-ok s1 o1 p (8 + k) key (omega arith) (omega arith)) (
            rw (page_write-ok s2 o2 p (16 + k) val (omega arith) (omega arith)) (
              rw
                (page_copy-ok s3 o3 p (24 + k) src (si + k) l (omega arith) (omega arith)
                  (omega arith) (omega arith) (omega arith) (omega arith))
                (rw
                  (header_write-ok s4 o4 p fl size (n_keys + 1) ((n_keys + 1) * 16 + 8)
                    (omega arith))
                  refl)))))
