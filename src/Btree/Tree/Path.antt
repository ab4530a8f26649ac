-- ===== src/Btree/Tree/Path.antt =====
-- One level of `btree_recur_add` in a tree: the leaf with room, and a branch whose child is copied.
use adventure.Base.{
  ℕ, suc, ◌+◌, ◌*◌, ◌^◌, ◌≤◌, ◌<◌, ◌≡◌, refl, ◌∙◌, ap, true, false, none, some, List, ◌∷◌, arith,
  length, ne→==, subst, Returns, returns, Returns-eq, and_then,
}
use adventure.Fs.{Os}
use adventure.Store.{Store}
use adventure.Store.Valid.{IsOpen}
use adventure.Page.Access.{header_read-ok, page_read-ok}
use adventure.Btree.Leaf.Items.{Item, insert, value_of, Rises}
use adventure.Btree.Leaf.View.{used_bytes, leaf_flag, LeafPage}
use adventure.Btree.Leaf.Taken.{Coming, store_alloc-waiting, store_alloc-TakenInside}
use adventure.Btree.Leaf.Add.{btree_leaf_add-Taken}
use adventure.Btree.Branch.View.{Link, BranchPage, find_link, find_link-le, child_at, child_word}
use adventure.Btree.Branch.Find.{btree_branch_find-eq}
use adventure.Btree.Branch.Replaced.{ChildReplaced, btree_branch_add-ChildReplaced}
use adventure.Btree.Tree.{leaf_part, branch_part, btree_recur_add}
use adventure.Btree.Tree.Search.{branch_header}
use adventure.Btree.Tree.Shape.{
  Tree, leaf, branch, Trees, page_of, links, Stands, chosen, chosen-Stands,
}
use adventure.Btree.Tree.Pages.{
  AllPages, AllPages-map, AllPages-page_of, AllPages-chosen, Apart, Spread, chosen-Spread, SamePage,
  BranchPage-kept, Stands-kept,
}
use adventure.Btree.Tree.Put.{put}
use adventure.Btree.Tree.Disjoint.{AllPages-put_Apart}
use adventure.Btree.Tree.Copied.{
  put_first, put_rest, put-OneChild, Kept, Clear, SamePage-Kept, put-StandBehind,
}
use adventure.Btree.Tree.Inside.{Stands-inside, Stands-behind, Rises-low}

-- What `btree_recur_add` has done: `t` is copied, and its root freed.
pub record Copied (s : Store) (size d key val q : ℕ) (ps : List ℕ) (t : Tree) (g : Store)
    : Type 0 where
  pub IsOpen-after : IsOpen g
  pub stands : Stands g size d (put key val q t)
  pub freed : g.free_list ≡ some (page_of t ∷ ps)
  pub longer : s.end ≤ g.end
  pub end_le : g.end ≤ s.end + size
  pub same_size : g.file.size ≡ s.file.size
  pub kept : Kept s g size q t

-- The branch's part goes on in the child before the first key above `key`.
module _ (os : Os) (fuel : ℕ) (s : Store) (page key val split flags size first : ℕ) (ls : List Link)
    (o : IsOpen s) (v : BranchPage s page flags size first ls)
    (tagged : leaf_flag flags ≡ false) where
  pub btree_recur_add-down :
      (d : ℕ)
      → btree_recur_add os fuel (suc d) page key val split s
        ≡ and_then
            (btree_recur_add os fuel d (child_at first ls (find_link key ls)) key val split s)
            (branch_part os fuel page (8 + 16 * find_link key ls))
  unfolding btree_recur_add
  btree_recur_add-down d =
      rw (header_read-ok s o page (omega (arith, v.before_end, v.fits)), v.header)
        (rw (branch_header s page key flags size first ls o v tagged) (
          rw (btree_branch_find-eq s page key flags size first ls o v) (
            rw
              (page_read-ok s o page (8 + 16 * find_link key ls)
                (omega (arith, find_link-le key ls, v.fits, v.small_size))
                (omega (arith, find_link-le key ls, v.fits, v.before_end)))
              (rw (child_word s page flags size first ls (find_link key ls) v (find_link-le key ls))
                refl))))

module _ (os : Os) (k key val : ℕ) (small : key < 2 ^ 63) (fits : val < 2 ^ 64) where
  pub leaf_part-Copied :
      (s : Store) (size page flags low : ℕ) (xs : List Item) (q : ℕ) (ps : List ℕ)
      → IsOpen s
      → LeafPage s page flags size xs
      → Rises low xs
      → value_of key xs ≡ none
      → used_bytes (length xs) + 16 ≤ size
      → Coming s page size q ps
      → s.end + size ≤ s.file.size
      → (tagged : leaf_flag flags ≡ true)
      → Returns
          (λ r g. (r ≡ (key, q, 0)) × Copied s size 0 key val q ps (leaf page flags xs) g)
          (leaf_part os (suc k) page key val 0 s)
  unfolding leaf_part Stands put AllPages
  leaf_part-Copied s size page flags low xs q ps o v rises new room coming space tagged =
      let (p, g, eq, a) =
        Returns-eq (store_alloc-TakenInside os k s page size o v.before_end coming space) in
      let (r, h, done, b) = Returns-eq (
        btree_leaf_add-Taken os (suc k) s page key val flags size xs o v (Rises-low low xs rises)
          new small fits room eq a.taken) in
      let at = b.0.new_page in
      rw done (
        rw (ne→== r 0 (omega (arith, b.0.leaf.behind_header))) (
          returns (
            ap (λ (c : ℕ). (key, c, 0)) at,
            record {
              IsOpen-after = b.0.IsOpen-after;
              stands =
                  (subst (λ c. LeafPage h c flags size (insert key val xs)) at b.0.leaf, tagged);
              freed = b.0.freed;
              longer = b.0.longer;
              end_le = omega (arith, b.1, a.end_le);
              same_size = b.2 ∙ a.same_size;
              kept = λ c lo lt out clear. b.0.kept c lo lt out;
            },
          )))

  -- From the store in which the child is copied.
  module _ (s g : Store) (size d page flags q : ℕ) (ps : List ℕ) (t : Tree) (ts : Trees)
      (o : IsOpen s) (v : Stands s size (suc d) (branch page flags t ts))
      (spread : Spread size (branch page flags t ts))
      (out : AllPages (λ p. Apart size p q) (branch page flags t ts))
      (space : s.end + size + size ≤ s.file.size)
      (b : Copied s size d key val q ps (chosen t ts key) g) where
    abbrev c : Tree
    c = chosen t ts key

    c-Apart : AllPages (Apart size page) c
    unfolding Spread
    c-Apart = AllPages-chosen (Apart size page) t ts key spread.0 spread.1

    page-SamePage : SamePage s g size page
    unfolding AllPages
    page-SamePage = SamePage-Kept s g size q b.longer c b.kept page (out.0, c-Apart)

    page-BranchPage : BranchPage g page flags size (page_of t) (links ts)
    unfolding Stands
    page-BranchPage =
        BranchPage-kept s g size b.longer page flags (page_of t) (links ts) page-SamePage v.0

    c-inside : page_of c + size ≤ s.end
    unfolding Stands
    c-inside =
        AllPages-page_of (λ p. p + size ≤ s.end) c
          (Stands-inside s size d c (chosen-Stands s size d t ts key v.2 v.3))

    c-behind : 32 ≤ page_of c
    unfolding Stands
    c-behind = Stands-behind s size d c (chosen-Stands s size d t ts key v.2 v.3)

    new-small : page_of (put key val q c) < 2 ^ 64
    new-small =
        let inside =
          AllPages-page_of (λ p. p + size ≤ g.end) (put key val q c)
            (Stands-inside g size d (put key val q c) b.stands) in
        omega (arith, inside, b.IsOpen-after.within, b.IsOpen-after.small)

    -- The new tree stands in the store `w` in which the branch is copied too.
    module _ (w : Store) (p : ℕ)
        (e : ChildReplaced g page flags size
          (page_of (put_first key val q t ts))
          (links (put_rest key val q ts))
          (page_of c)
          ps
          p
          w) where
      w-Kept : Kept s w size q c
      w-Kept a lo lt out_q out_c =
          e.kept a lo (omega (arith, b.longer)) (AllPages-page_of (Clear size a) c out_c)
          ∙ b.kept a lo lt out_q out_c

      new-SamePage : AllPages (SamePage g w size) (put key val q c)
      unfolding AllPages Spread
      new-SamePage =
          AllPages-map (λ r apart a lo hi behind lt. e.kept a behind lt (omega (arith, apart)))
            (put key val q c)
            (AllPages-put_Apart key val q size c
              (AllPages-chosen (λ r. Apart size r q) t ts key out.1 out.2)
              (chosen-Spread size key t ts spread.3 spread.4))

      w-Stands : Stands w size (suc d) (put key val q (branch page flags t ts))
      unfolding Stands put AllPages Spread
      w-Stands =
          let children =
            put-StandBehind s w size q (omega (arith, b.longer, e.longer)) d key val t ts v.2 v.3
              out.1 out.2 spread.2 spread.4 w-Kept
              (Stands-kept g w size e.longer d (put key val q c) new-SamePage b.stands) in
          (
            subst
                (λ r.
                  BranchPage w r flags size (page_of (put_first key val q t ts))
                    (links (put_rest key val q ts)))
                e.new_page e.branch,
            v.1,
            children.0,
            children.1,
          )

      w-Copied :
          w.end ≤ g.end
          → w.file.size ≡ g.file.size
          → Copied s size (suc d) key val q ps (branch page flags t ts) w
      unfolding AllPages
      w-Copied end_le same_size = record {
        IsOpen-after = e.IsOpen-after;
        stands = w-Stands;
        freed = e.next;
        longer = omega (arith, b.longer, e.longer);
        end_le = omega (arith, b.end_le);
        same_size = same_size ∙ b.same_size;
        kept = λ a lo lt out_q clear.
            w-Kept a lo lt out_q (AllPages-chosen (Clear size a) t ts key clear.1 clear.2);
      }

    pub branch_part-Copied :
        Returns
          (λ r h.
            (r ≡ (key, page_of c, 0))
            × Copied s size (suc d) key val q ps (branch page flags t ts) h)
          (branch_part os
            (suc k)
            page
            (8 + 16 * find_link key (links ts))
            (key, page_of (put key val q c), 0)
            g)
    unfolding branch_part
    branch_part-Copied =
        let (p, h, eq, a) = Returns-eq (
          store_alloc-waiting os k g page size (page_of c) ps b.IsOpen-after b.freed c-behind
            (omega (arith, c-inside, b.longer)) (AllPages-page_of (Apart size page) c c-Apart)
            (omega (arith, b.end_le, b.same_size))) in
        let (r, w, done, e) = Returns-eq (
          btree_branch_add-ChildReplaced os (suc k) g page key (page_of (put key val q c)) flags
            size (page_of t) (page_of (put_first key val q t ts)) (find_link key (links ts))
            (links ts) (links (put_rest key val q ts)) b.IsOpen-after page-BranchPage
            (put-OneChild key val q t ts) new-small eq a.0.taken) in
        rw done (
          rw (ne→== r 0 (omega (arith, e.0.branch.behind_header))) (
            returns (
              ap (λ (x : ℕ). (key, x, 0)) e.0.new_page,
              w-Copied w r e.0 (omega (arith, e.1, a.1)) (e.2 ∙ a.0.same_size),
            )))
