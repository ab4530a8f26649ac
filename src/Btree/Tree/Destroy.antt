-- ===== src/Btree/Tree/Destroy.antt =====
-- `btree_destroy` on a tree of any depth.
use adventure.Base.{
  ℕ, zero, suc, ◌+◌, ◌^◌, ◌≤◌, ◌<◌, ◌≡◌, refl, ◌∙◌, ap, some, List, [], ◌∷◌, ◌++◌, arith, length,
  get_or, lt→ltb, le→ltb, u16, Cmd, ok, and_then-ok, ◌>>=◌, ◌>>◌,
}
use adventure.Store.{Store, store_free}
use adventure.Store.Access.{word}
use adventure.Store.Valid.{IsOpen, IsOpen-list}
use adventure.Page.{hdr_word, pg_used, read_ui64}
use adventure.Page.Access.{header_read-ok, page_read-ok}
use adventure.Btree.Search.{page_rounds}
use adventure.Btree.Branch.View.{BranchPage, BranchPage-Fields, branch_bytes}
use adventure.Btree.Tree.{destroy_rest, btree_destroy}
use adventure.Btree.Tree.Root.{leaf_header}
use adventure.Btree.Tree.Search.{branch_header}
use adventure.Btree.Tree.Shape.{
  Tree, leaf, branch, Trees, nil, cons, page_of, links, pages_of, pages_behind, Stands, StandBehind,
}

-- The free list after pages were freed one by one.
abbrev pub free_all : (pages ps : List ℕ) → List ℕ
free_all [] ps = ps
free_all (p ∷ pages) ps = free_all pages (p ∷ ps)

free_all-++ : (xs ys ps : List ℕ) → free_all (xs ++ ys) ps ≡ free_all ys (free_all xs ps)
free_all-++ [] ys ps = refl
free_all-++ (x ∷ xs) ys ps = free_all-++ xs ys (x ∷ ps)

abbrev pub with_list : Store → List ℕ → Store
with_list s ps = record s { free_list = some ps }

-- `del` destroys trees of depth `d`.
abbrev Destroys : (s : Store) (size d : ℕ) → (ℕ → Cmd Store (Unit {0})) → Type 0
Destroys s size d del =
    (u : Tree) (ps : List ℕ)
    → Stands s size d u
    → del (page_of u) (with_list s ps) ≡ ok tt (with_list s (free_all (pages_of u) ps))

module _ (s : Store) (o : IsOpen s) (page hdr size d : ℕ) (del : ℕ → Cmd Store (Unit {0}))
    (dels : Destroys s size d del) where
  -- From the child behind the key `j` on, of which `ts` are left.
  destroy_rest-eq :
      (r j : ℕ) (ts : Trees) (ps : List ℕ)
      → length (links ts) < r
      → StandBehind s size d ts
      → pg_used hdr ≡ branch_bytes (j + length (links ts))
      → branch_bytes (j + length (links ts)) < 2 ^ 16
      → page + branch_bytes (j + length (links ts)) ≤ s.end
      → ((i : ℕ)
          → i < length (links ts)
          → word s (page + branch_bytes (j + i) + 8) ≡ (get_or (links ts) i (0, 0)).1)
      → destroy_rest del r page hdr (branch_bytes j) (with_list s ps)
        ≡ ok tt (with_list s (free_all (pages_behind ts) ps))
  unfolding destroy_rest pages_behind StandBehind
  destroy_rest-eq zero j ts ps rounds vs used small room children = absurd (omega arith)
  destroy_rest-eq (suc r) j nil ps rounds vs used small room children =
      rw (used, le→ltb (branch_bytes j) (branch_bytes (j + 0)) (omega arith)) refl
  destroy_rest-eq (suc r) j (cons k u ts) ps rounds vs used small room children =
      let n = length (links ts) in
      let next : u16 (branch_bytes j + 16) ≡ branch_bytes (suc j) = omega arith in
      let sub : word s (page + (branch_bytes j + 8)) ≡ page_of u =
        ap (word s) (omega arith) ∙ children 0 (omega arith) in
      let rest =
        destroy_rest-eq r (suc j) ts (free_all (pages_of u) ps) (omega arith) vs.1
          (omega (arith, used)) (omega arith) (omega arith)
          (λ i lt. ap (word s) (omega arith) ∙ children (suc i) (omega arith)) in
      rw (used, lt→ltb (branch_bytes j) (branch_bytes (j + suc n)) (omega arith))
        (rw
          (page_read-ok (with_list s ps) (IsOpen-list s (some ps) o) page (branch_bytes j + 8)
            (omega arith) (omega arith))
          (rw (sub, dels u ps vs.0, next, free_all-++ (pages_of u) (pages_behind ts) ps) rest))

  children-eq :
      (r flags : ℕ) (t : Tree) (ts : Trees) (ps : List ℕ)
      → length (links ts) < r
      → BranchPage s page flags size (page_of t) (links ts)
      → pg_used hdr ≡ branch_bytes (length (links ts))
      → Stands s size d t
      → StandBehind s size d ts
      → (read_ui64 page 8 >>= λ sub. del sub >> (destroy_rest del r page hdr 16 >> store_free page))
          (with_list s ps)
        ≡ ok tt (with_list s (free_all (pages_of (branch page flags t ts)) ps))
  unfolding pages_of store_free
  children-eq r flags t ts ps rounds v used vt vs =
      let below = free_all (pages_of t) ps in
      let rest =
        destroy_rest-eq r 0 ts below rounds vs (used ∙ omega arith)
          (omega (arith, v.fits, v.small_size)) (omega (arith, v.fits, v.before_end))
          (λ i lt. ap (word s) (omega arith) ∙ v.children i lt) in
      rw
        (page_read-ok (with_list s ps) (IsOpen-list s (some ps) o) page 8 (omega arith)
          (omega (arith, v.before_end, v.fits)))
        (rw (v.leftmost, dels t ps vt)
          (and_then-ok (λ _. store_free page) rest
            ∙ ap (λ ps. ok tt (with_list s ps)) (pages_order t ts ps)))
    where
      pages_order :
          (t : Tree) (ts : Trees) (ps : List ℕ)
          → page ∷ free_all (pages_behind ts) (free_all (pages_of t) ps)
            ≡ free_all (pages_of t ++ pages_behind ts ++ page ∷ []) ps
      pages_order t ts ps =
          rw
            (
              free_all-++ (pages_of t ++ pages_behind ts) (page ∷ []) ps,
              free_all-++ (pages_of t) (pages_behind ts) ps,
            )
            refl

-- In an open store with a free list, in which a tree of any depth d stands, btree_destroy with d +
-- 1 rounds of depth returns and changes nothing but the free list, to which it adds every page of
-- the tree once, from left to right and each behind the pages below it.
pub btree_destroy_lem :
    (d : ℕ) (s : Store) (size : ℕ) (t : Tree) (ps : List ℕ)
    → IsOpen s
    → Stands s size d t
    → btree_destroy (suc d) (page_of t) (with_list s ps)
      ≡ ok tt (with_list s (free_all (pages_of t) ps))
unfolding Stands btree_destroy pages_of store_free
btree_destroy_lem zero s size (leaf page flags xs) ps o v =
    rw
      (
        header_read-ok (with_list s ps) (IsOpen-list s (some ps) o) page
            (omega (arith, v.0.before_end, v.0.fits)),
        v.0.header,
      )
      (rw (leaf_header s page flags size xs o v.0 v.1) refl)
btree_destroy_lem zero s size (branch page flags t ts) ps o v = absurd v
btree_destroy_lem (suc d) s size (leaf page flags xs) ps o v = absurd v
btree_destroy_lem (suc d) s size (branch page flags t ts) ps o v =
    let n = length (links ts) in
    let hdr = hdr_word flags size n (branch_bytes n) in
    rw
      (
        header_read-ok (with_list s ps) (IsOpen-list s (some ps) o) page
            (omega (arith, v.0.before_end, v.0.fits)),
        v.0.header,
      )
      (rw (branch_header s page 0 flags size (page_of t) (links ts) o v.0 v.1) (
        children-eq s o page hdr size d (btree_destroy (suc d))
          (λ u qs w. btree_destroy_lem d s size u qs o w) page_rounds flags t ts ps
          (omega (arith, v.0.fits, v.0.small_size)) v.0
          (BranchPage-Fields s page flags size (page_of t) (links ts) v.0).used_field v.2 v.3))
