-- ===== src/Btree/Tree/Split/Leaf.antt =====
-- `btree_leaf_split`: the two leaves it makes.
use adventure.Base.{
  ℕ, ◌+◌, ◌-◌, ◌*◌, ◌/◌, ◌^◌, ◌≤◌, ◌<◌, ◌≡◌, ◌⊎◌, List, ◌∷◌, some, refl, ◌∙◌, inl, inr, arith, ok,
  ltb, length, Bool-cases, if◌then◌else◌, Returns, returns, Returns-eq, u16, u32, le→ltb, lt→ltb,
  ltb→lt, ltb→le, Out, Cmd, and_then_assoc, and_then-ok, ◌>>=◌, ◌>>◌, pure,
}
use adventure.Fs.{Os}
use adventure.Store.{Store, bytes_of, store_alloc, store_free}
use adventure.Store.Valid.{IsOpen, IsOpen-list}
use adventure.Store.Alloc.{store_free-eq}
use adventure.Page.{hdr_word, read_ui64}
use adventure.Page.Access.{header_read-ok, page_read-ok}
use adventure.Btree.Leaf.{btree_leaf_copy_in, btree_leaf_split}
use adventure.Btree.Leaf.Items.{Item, find_item}
use adventure.Btree.Leaf.View.{used_bytes, LeafPage, LeafPage-Fields}
use adventure.Btree.Leaf.Find.{btree_leaf_find-eq}
use adventure.Btree.Leaf.Add.{key_get-eq}
use adventure.Btree.Tree.Pages.{LeafPage-kept}
use adventure.Btree.Tree.Split.CopyIn.{no_root}
use adventure.Btree.Tree.Split.Cut.{cut, cut-lt, left_half, right_half, mid_key}
use adventure.Btree.Tree.Split.Copies.{copies-LeafSplit}

-- The numbers that the code computes.
cut_numbers :
    (f n : ℕ)
    → used_bytes n < 2 ^ 16
    → 3 ≤ n
    → ((if ltb (used_bytes (n / 2)) (used_bytes f)
          then u16 (used_bytes (n / 2) + 16)
          else used_bytes (n / 2))
        ≡ used_bytes (cut f n))
      × ((if ltb (used_bytes (n / 2)) (used_bytes f) then n / 2 + 1 else n / 2) ≡ cut f n)
      × (u32 (n + 2 ^ 32 - n / 2 - (if ltb (used_bytes (n / 2)) (used_bytes f) then 1 else 0))
          ≡ n - cut f n)
unfolding cut
cut_numbers f n small many = elim (Bool-cases (ltb (n / 2) f)) [
  | inl e ↦
      rw (e, lt→ltb (used_bytes (n / 2)) (used_bytes f) (omega (arith, ltb→lt (n / 2) f e)))
        (omega arith, refl, omega arith)
  | inr e ↦
      rw (e, le→ltb (used_bytes (n / 2)) (used_bytes f) (omega (arith, ltb→le (n / 2) f e)))
        (refl, refl, omega arith)
]

-- The code up to the copies, from the pages that were taken.
module _ (os : Os) (fuel : ℕ) (s g h : Store) (page p r key val flags size : ℕ) (xs : List Item)
    (o : IsOpen s) (v : LeafPage s page flags size xs) (w : LeafPage h page flags size xs)
    (oh : IsOpen h) (first : store_alloc os fuel size s ≡ ok p g)
    (second : store_alloc os fuel size g ≡ ok r h) (small : key < 2 ^ 63)
    (many : 3 ≤ length xs) where
  abbrev hdr : ℕ
  hdr = hdr_word flags size (length xs) (used_bytes (length xs))

  -- The rest, where `m` items go to the left.
  rest_from : (m : ℕ) → Out Store (ℕ × ℕ × ℕ)
  rest_from m =
      (do
        mid ← read_ui64 page (used_bytes m)
        btree_leaf_copy_in p page m 8 (used_bytes m) key val (used_bytes (find_item key xs))
        btree_leaf_copy_in r page (length xs - m) (used_bytes m) (used_bytes (length xs)) key val
            (used_bytes (find_item key xs))
        store_free page
        pure (mid, p, r))
        h

  split-cut :
      btree_leaf_split os fuel page key val s ≡ rest_from (cut (find_item key xs) (length xs))
  unfolding btree_leaf_split rest_from
  split-cut =
      let c = LeafPage-Fields s page flags size xs v in
      let n = length xs in
      let f = find_item key xs in
      let start : u16 (16 * (n / 2) + 8) ≡ used_bytes (n / 2) =
        omega (arith, v.fits, v.small_size) in
      let (middle, left, right) = cut_numbers f n (omega (arith, v.fits, v.small_size)) many in
      rw (header_read-ok s o page (omega (arith, v.before_end, v.fits)), v.header)
        (rw
          (
            (btree_leaf_find-eq s page key flags size xs o v).0,
            c.size_field,
            c.nkeys_field,
            c.used_field,
          )
          (rw (first, second, start, key_get-eq key small) (rw (middle, left, right) refl)))

-- The leaf at `page` was split into those at `p` and `r` of `g`, and freed.
pub record Split (s : Store) (page flags size key val : ℕ) (xs : List Item) (ps : List ℕ) (p r : ℕ)
    (g : Store) : Type 0 where
  pub IsOpen-after : IsOpen g
  pub left : LeafPage g p (no_root flags) size (left_half key val xs)
  pub right : LeafPage g r (no_root flags) size (right_half key val xs)
  pub freed : g.free_list ≡ some (page ∷ ps)
  pub same_end : g.end ≡ s.end
  pub same_size : g.file.size ≡ s.file.size
  pub kept :
      (a : ℕ) → (a < p) ⊎ (p + size ≤ a) → (a < r) ⊎ (r + size ≤ a) → bytes_of g a ≡ bytes_of s a

module _ (os : Os) (fuel : ℕ) (s g h : Store) (page p r key val flags size : ℕ) (xs : List Item)
    (o : IsOpen s) (v : LeafPage s page flags size xs) (w : LeafPage h page flags size xs)
    (oh : IsOpen h) (byte : no_root flags < 2 ^ 8) (small : key < 2 ^ 63) (fits : val < 2 ^ 64)
    (many : 3 ≤ length xs) where
  -- From the pages that were taken: the items are divided between them.
  pub btree_leaf_split-Split :
      (ps : List ℕ)
      → h.free_list ≡ some ps
      → store_alloc os fuel size s ≡ ok p g
      → store_alloc os fuel size g ≡ ok r h
      → 32 ≤ p
      → 32 ≤ r
      → p + size ≤ h.end
      → r + size ≤ h.end
      → (page + size ≤ p) ⊎ (p + size ≤ page)
      → (page + size ≤ r) ⊎ (r + size ≤ page)
      → (p + size ≤ r) ⊎ (r + size ≤ p)
      → Returns
          (λ x k. (x ≡ (mid_key key xs, p, r)) × Split h page flags size key val xs ps p r k)
          (btree_leaf_split os fuel page key val s)
  unfolding rest_from mid_key
  btree_leaf_split-Split ps list first second behind_p behind_r in_p in_r apart_p apart_r apart =
      let n = length xs in
      let f = find_item key xs in
      let m = cut f n in
      let lt : m < n = cut-lt f n many in
      let (u, k, eq, a) = Returns-eq (
        copies-LeafSplit h page p r key val flags size xs oh w byte behind_p behind_r in_p in_r
          apart_p apart_r apart (omega arith) fits many) in
      let tail : Cmd Store (ℕ × ℕ × ℕ) = store_free page >> pure (mid_key key xs, p, r) in
      let done =
        and_then_assoc (btree_leaf_copy_in p page m 8 (used_bytes m) key val (used_bytes f) h)
          (λ _.
            btree_leaf_copy_in r page (n - m) (used_bytes m) (used_bytes n) key val (used_bytes f))
          (λ _. tail)
        ∙ and_then-ok (λ _. tail) eq in
      let free = record k { free_list = some (page ∷ ps) } in
      let same : (c flags : ℕ) (ys : List Item)
          → LeafPage k c flags size ys
          → LeafPage free c flags size ys =
        λ c flags ys l.
          LeafPage-kept k free size (omega arith) c flags ys (λ b lo hi x y. refl) l in
      rw (split-cut os fuel s g h page p r key val flags size xs o v w oh first second small many) (
        rw
          (
            page_read-ok h oh page (used_bytes m) (omega (arith, w.fits, w.small_size))
                (omega (arith, w.fits, w.before_end)),
            w.keys m lt,
          )
          (rw done (
            rw (store_free-eq page ps k (a.same_list ∙ list)) (
              returns (
                refl,
                record {
                  IsOpen-after = IsOpen-list k (some (page ∷ ps)) a.IsOpen-after;
                  left = same p (no_root flags) (left_half key val xs) a.left;
                  right = same r (no_root flags) (right_half key val xs) a.right;
                  freed = refl;
                  same_end = a.same_end;
                  same_size = a.same_size;
                  kept = a.kept;
                },
              )))))
