-- ===== src/Edges/Remove.antt =====
-- `edges_remove` where no freed page waits: the new page holds the edges without the first one to
-- the given node; where there is none nothing happens.
use adventure.Edges.Gap.{closed-EdgePage, close_gap-eq}
use native.Mathlib.Nat.{zero-add}
use adventure.Base.{
  ℕ, suc, ◌+◌, ◌-◌, ◌*◌, ◌^◌, ◌≤◌, ◌<◌, ◌≡◌, refl, ◌∙◌, ap, inr, some, List, [], ◌∷◌, arith, length,
  u64, ne→==, ok, Returns, returns, Returns-eq, le→leb, lt→leb,
}
use adventure.Memory.Words.{split64}
use adventure.Memory.{pokes_below, peeks}
use adventure.Fs.{Os, Grants}
use adventure.Store.{Store, bytes_of}
use adventure.Store.Access.{word, written, copied, read64-ok}
use adventure.Store.Valid.{IsOpen, IsOpen-written, IsOpen-copied, IsOpen-list}
use adventure.Store.Alloc.{Allocated, store_alloc-Allocated}
use adventure.Edges.{edges_remove, find_edge, close_gap}
use adventure.Edges.View.{EdgePage, EdgePage-kept, page_bytes}
use adventure.Edges.Find.{find_index, remove_first, find_edge-eq}

-- `edges_remove` gave the new page `e` to `xs` without its first `v`.
pub record Removed (s : Store) (e_old : ℕ) (xs : List ℕ) (v e : ℕ) (g : Store) : Type 0 where
  pub IsOpen-after : IsOpen g
  pub new_page : e ≡ s.end
  pub page : EdgePage g e (remove_first v xs)
  pub freed : g.free_list ≡ some (e_old ∷ [])
  pub longer : s.end ≤ g.end
  pub kept : (a : ℕ) → 14 ≤ a → a < s.end → bytes_of g a ≡ bytes_of s a

module _ {os : Os} {limit : ℕ} (grants : Grants os limit) (small : limit < 2 ^ 63) (k : ℕ)
    (s : Store) (start v : ℕ) (o : IsOpen s) (e : ℕ) (xs : List ℕ) (view : EdgePage s e xs) where
  -- The read of the size and the search, up to the decision.
  searched :
      find_edge (page_bytes (length xs) + 1) e v (page_bytes (length xs)) 8 s
      ≡ ok (8 + 8 * find_index v xs) s
  searched = simp zero-add at (
      find_edge-eq (page_bytes (length xs) + 1) e v 0 xs s o (omega arith)
        (omega (arith, view.before_end)) (λ i lt. ap (word s) (omega arith) ∙ view.items i lt))

  -- On an open store with a page of edges of which none leads to v, edges_remove returns the old
  -- page and changes nothing.
  edges_remove_absent : length xs ≤ find_index v xs → edges_remove os (suc k) e start v s ≡ ok e s
  unfolding edges_remove
  edges_remove_absent none_there =
      rw
        (
          ne→== e 0 (omega (arith, view.behind_header)),
          read64-ok s e (omega (arith, o.live, o.within, view.before_end)),
        )
        (rw (view.size_word, searched)
          (rw (le→leb (page_bytes (length xs)) (8 + 8 * find_index v xs) (omega arith)) refl))

  gap_closed :
      find_index v xs < length xs
      → s.free_list ≡ some []
      → (p : ℕ) (g : Store) → Allocated s (8 * length xs) p g
      → Returns
          (Removed s e xs v)
          (close_gap e (page_bytes (length xs)) (8 + 8 * find_index v xs) p g)
  gap_closed there list p g a =
      let b = a.IsOpen-after in
      let n : ℕ = page_bytes (length xs) in
      let i : ℕ = 8 + 8 * find_index v xs in
      let c : Store = copied g p e i in
      let c2 : Store = copied c (p + i) (e + i + 8) (n - i - 8) in
      let old =
        EdgePage-kept s g e xs (omega (arith, a.moved_end))
          (λ q lo lt. a.same_bytes q lo (omega (arith, o.within))) view in
      let before : e + n ≤ p = omega (arith, view.before_end, a.at_end) in
      let room : p + 8 * length xs ≤ g.end = omega (arith, a.at_end, a.moved_end) in
      let behind : 32 ≤ p = omega (arith, o.header, a.at_end) in
      rw
        (close_gap-eq g p e v xs b old before there room (a.same_list ∙ list) (omega (arith, room)))
        (returns (record {
          IsOpen-after = IsOpen-list (written c2 p (split64 (n - 8))) (some (e ∷ [])) (
              IsOpen-written c2 p (split64 (n - 8)) (omega (arith, behind)) (
                IsOpen-copied c (p + i) (e + i + 8) (n - i - 8) (omega (arith, behind))
                  (IsOpen-copied g p e i (omega (arith, behind)) b)));
          new_page = a.at_end;
          page =
              let q =
                closed-EdgePage g p e v xs b old before there room behind (omega (arith, room)) in
              record {
                behind_header = q.behind_header;
                before_end = q.before_end;
                size_word = q.size_word;
                items = q.items;
              };
          freed = refl;
          longer = omega (arith, a.moved_end);
          kept = λ q lo lt.
              let below : q < p = omega (arith, a.at_end) in
              pokes_below (bytes_of c2) p (split64 (n - 8)) q below
              ∙ pokes_below (bytes_of c) (p + i) (peeks (bytes_of c) (e + i + 8) (n - i - 8)) q
                  (omega (arith, below))
              ∙ pokes_below (bytes_of g) p (peeks (bytes_of g) e i) q below
              ∙ a.same_bytes q lo (omega (arith, o.within));
        }))

  -- On an open store, for a page of edges with one to v, with an empty free list and room to grow
  -- (the file doubled k times holds what is asked for, within a granted limit below 2^63),
  -- edges_remove with k + 1 rounds of fuel returns a new page at the old end of the file that holds
  -- the edges without the first one to v, in their order, puts the old page into the free list, and
  -- changes no other byte of the old file behind the end field of its header.
  pub edges_remove-Removed :
      s.free_list ≡ some []
      → find_index v xs < length xs
      → s.end + 8 * length xs ≤ s.file.size * 2 ^ k
      → s.file.size * 2 ^ k ≤ limit
      → Returns (Removed s e xs v) (edges_remove os (suc k) e start v s)
  unfolding edges_remove
  edges_remove-Removed list there room granted =
      let size_new : u64 (page_bytes (length xs) + 2 ^ 64 - 8) ≡ 8 * length xs =
        omega (arith, o.within, o.small, view.before_end) in
      let (p, g, eq, a) =
        Returns-eq
          (store_alloc-Allocated grants small k (8 * length xs) s o (inr list) room granted) in
      rw
        (
          ne→== e 0 (omega (arith, view.behind_header)),
          read64-ok s e (omega (arith, o.live, o.within, view.before_end)),
        )
        (rw (view.size_word, searched)
          (rw
            (
              lt→leb (page_bytes (length xs)) (8 + 8 * find_index v xs) (omega arith),
              size_new,
              lt→leb (2 ^ 63) (8 * length xs) (omega (arith, o.within, o.small, view.before_end)),
              eq,
            )
            (gap_closed there list p g a)))
