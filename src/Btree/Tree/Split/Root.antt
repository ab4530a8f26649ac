-- ===== src/Btree/Tree/Split/Root.antt =====
-- The split of a root that is a full leaf, and the new root above both halves.
use adventure.Base.{
  ℕ, suc, ◌+◌, ◌^◌, ◌≤◌, ◌<◌, ◌≡◌, List, [], ◌∷◌, some, none, ◌∙◌, ap₂, inl, inr, arith, length,
  subst, Returns, returns, Returns-eq,
}
use adventure.Fs.{Os}
use adventure.Store.{Store, bytes_of}
use adventure.Store.Valid.{IsOpen}
use adventure.Btree.Leaf.Items.{Item, value_of, Rises}
use adventure.Btree.Leaf.View.{used_bytes, LeafPage}
use adventure.Btree.Leaf.Taken.{at_end, store_alloc-waiting, store_alloc-TakenInside}
use adventure.Btree.Leaf.Add.{btree_leaf_add_full}
use adventure.Btree.Branch.{btree_root_create}
use adventure.Btree.Branch.View.{BranchPage}
use adventure.Btree.Branch.Root.{one_link, btree_root_create-RootMade}
use adventure.Btree.Tree.{leaf_part}
use adventure.Btree.Tree.Root.{root_leaf}
use adventure.Btree.Tree.Order.{Within}
use adventure.Btree.Tree.Pages.{LeafPage-kept}
use adventure.Btree.Tree.Split.CopyIn.{no_root}
use adventure.Btree.Tree.Split.Cut.{left_half, right_half, mid_key}
use adventure.Btree.Tree.Split.Leaf.{btree_leaf_split-Split}
use adventure.Btree.Tree.Split.Sides.{mid_key-lt}

-- The halves of the leaf at `page` stand behind the old end, and the leaf is freed.
pub record RootSplit (s : Store) (page key val : ℕ) (xs : List Item) (g : Store) : Type 0 where
  pub IsOpen-after : IsOpen g
  pub left : LeafPage g s.end (no_root root_leaf) 64 (left_half key val xs)
  pub right : LeafPage g (s.end + 64) (no_root root_leaf) 64 (right_half key val xs)
  pub freed : g.free_list ≡ some (page ∷ [])
  pub new_end : g.end ≡ s.end + 128
  pub same_size : g.file.size ≡ s.file.size

-- The root at `page` stands above both.
pub record Grown (s : Store) (page key val : ℕ) (xs : List Item) (h : Store) : Type 0 where
  pub IsOpen-after : IsOpen h
  pub root : BranchPage h page 1 64 s.end (one_link (mid_key key xs) (s.end + 64))
  pub left : LeafPage h s.end (no_root root_leaf) 64 (left_half key val xs)
  pub right : LeafPage h (s.end + 64) (no_root root_leaf) 64 (right_half key val xs)
  pub none_free : h.free_list ≡ some []
  pub new_end : h.end ≡ s.end + 128

module _ (os : Os) (k key val : ℕ) (small : key < 2 ^ 63) (fits : val < 2 ^ 64) (s : Store)
    (page : ℕ) (xs : List Item) (o : IsOpen s) (v : LeafPage s page root_leaf 64 xs)
    (rises : Rises 0 xs) (within : Within 0 (2 ^ 63) xs) (list : s.free_list ≡ some [])
    (new : value_of key xs ≡ none) (full : 64 < used_bytes (length xs) + 16)
    (space : s.end + 192 ≤ s.file.size) where
  -- The leaf is split into two pages behind the end, and is the page to come.
  pub root-Split :
      Returns
        (λ x g. (x ≡ (mid_key key xs, s.end, s.end + 64)) × RootSplit s page key val xs g)
        (leaf_part os (suc k) page key val 0 s)
  unfolding leaf_part
  root-Split =
      let (p, g, first, a) = Returns-eq (
        store_alloc-TakenInside os k s page 64 o v.before_end (at_end list)
          (omega (arith, space))) in
      let (r, h, second, b) = Returns-eq (
        store_alloc-TakenInside os k g page 64 a.taken.IsOpen-after
          (omega (arith, v.before_end, a.taken.longer)) (at_end a.taken.rest)
          (omega (arith, space, a.end_le, a.same_size))) in
      let w =
        LeafPage-kept s h 64 (omega (arith, a.taken.longer, b.taken.longer)) page root_leaf xs
          (λ c lo hi behind lt.
            b.taken.same_bytes c behind (omega (arith, a.taken.longer))
            ∙ a.taken.same_bytes c behind lt)
          v in
      let at_p : p ≡ s.end = a.taken.is in
      let at_r : r ≡ s.end + 64 = omega (arith, b.taken.is, a.taken.is, a.taken.inside, a.end_le) in
      let (x, e, done, split) = Returns-eq (
        btree_leaf_split-Split os (suc k) s g h page p r key val root_leaf 64 xs o v w
          b.taken.IsOpen-after (omega arith) small fits (omega (arith, full)) [] b.taken.rest first
          second a.taken.behind_header b.taken.behind_header
          (omega (arith, a.taken.inside, b.taken.longer)) b.taken.inside a.taken.apart b.taken.apart
          (inl (omega (arith, at_p, at_r)))) in
      rw (btree_leaf_add_full os (suc k) s page key val root_leaf 64 xs o v rises new full, done)
        (returns (
          split.0 ∙ ap₂ (λ c d. (mid_key key xs, c, d)) at_p at_r,
          record {
            IsOpen-after = split.1.IsOpen-after;
            left =
                subst (λ c. LeafPage e c (no_root root_leaf) 64 (left_half key val xs)) at_p
                  split.1.left;
            right =
                subst (λ c. LeafPage e c (no_root root_leaf) 64 (right_half key val xs)) at_r
                  split.1.right;
            freed = split.1.freed;
            new_end = omega (arith, split.1.same_end, b.end_le, b.taken.inside, at_r, a.end_le);
            same_size = split.1.same_size ∙ b.same_size ∙ a.same_size;
          },
        ))

  pub many : 3 ≤ length xs
  many = omega (arith, full)

  pub mid-small : mid_key key xs < 2 ^ 63
  mid-small = mid_key-lt key val (2 ^ 63) xs rises within new (omega (arith, full)) small fits small

  -- The new root above them, on the page of the leaf.
  module _ (g : Store) (a : RootSplit s page key val xs g) where
    pub root-Grown :
        Returns
          (λ q h. (q ≡ page) × Grown s page key val xs h)
          (btree_root_create os (suc k) (mid_key key xs) s.end (s.end + 64) g)
    root-Grown =
        let (q, h, eq, b) = Returns-eq (
          store_alloc-waiting os k g s.end 64 page [] a.IsOpen-after a.freed
            (omega (arith, v.behind_header)) (omega (arith, v.before_end, a.new_end))
            (inr v.before_end) (omega (arith, space, a.new_end, a.same_size))) in
        let ends : h.end ≡ s.end + 128 = b.1 ∙ a.new_end in
        let sizes : s.end + 192 < 2 ^ 63 = omega (arith, space, o.small) in
        let at : q ≡ page = b.0.taken.is in
        let (r, e, done, made) = Returns-eq (
          btree_root_create-RootMade h q (mid_key key xs) s.end (s.end + 64) b.0.taken.IsOpen-after
            b.0.taken.behind_header b.0.taken.inside (omega (arith, mid-small))
            (omega (arith, sizes)) (omega (arith, sizes)) os (suc k) g eq) in
        let same : (c : ℕ) → s.end ≤ c → 14 ≤ c → c < g.end → bytes_of e c ≡ bytes_of g c =
          λ c lo behind lt.
            made.1.kept c (inr (omega (arith, at, v.before_end)))
            ∙ b.0.taken.same_bytes c behind lt in
        let long : g.end ≤ e.end = omega (arith, made.1.same_end, b.1) in
        rw done (
          returns (
            made.0 ∙ at,
            record {
              IsOpen-after = made.1.IsOpen-after;
              root =
                  subst (λ c. BranchPage e c 1 64 s.end (one_link (mid_key key xs) (s.end + 64))) at
                    made.1.root;
              left =
                  LeafPage-kept g e 64 long s.end (no_root root_leaf) (left_half key val xs)
                    (λ c lo hi behind lt. same c lo behind lt) a.left;
              right =
                  LeafPage-kept g e 64 long (s.end + 64) (no_root root_leaf) (right_half key val xs)
                    (λ c lo hi behind lt. same c (omega arith) behind lt) a.right;
              none_free = made.1.same_list ∙ b.0.taken.rest;
              new_end = made.1.same_end ∙ ends;
            },
          ))
