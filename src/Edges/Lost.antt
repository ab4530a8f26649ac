-- ===== src/Edges/Lost.antt =====
-- `edges_add` when the front of the free list is 0, as it is after the first edge of a node was
-- added: `store_free` is given the null pointer then.
use adventure.Base.{
  ℕ, suc, ◌+◌, ◌*◌, ◌^◌, ◌≤◌, ◌<◌, ◌≡◌, refl, ◌∙◌, inr, some, List, ◌∷◌, arith, Returns, returns,
  Returns-eq,
}
use adventure.Memory.Words.{split64, join64-pokes, join64-pokes_outside}
use adventure.Fs.{Os, Grants}
use adventure.Store.{Store, bytes_of}
use adventure.Store.Access.{word, written}
use adventure.Store.Reuse.{store_alloc_reuse}
use adventure.Store.Valid.{IsOpen}
use adventure.Edges.{edges_add}
use adventure.Edges.Add.{finish_add-eq}

-- The pointer is null, the file begins with the size of the page (over its magic and the `end` in
-- its header), and the edge stands behind it.
pub record Lost (end e : ℕ) (g : Store) : Type 0 where
  pub null : e ≡ 0
  pub magic_overwritten : word g 0 ≡ 16
  pub header_overwritten : word g 8 ≡ end

module _ {os : Os} {limit : ℕ} (grants : Grants os limit) (small : limit < 2 ^ 63) where
  -- In an open store with 0 at the front of the free list, an end node below 2^64 and room to grow
  -- (the file doubled k times holds what is asked for, within a granted limit below 2^63),
  -- edges_add with k + 1 rounds of fuel for a node with no edges returns the null pointer and
  -- writes the page's size and its edge over the header of the file.
  pub edges_add-Lost :
      (k start end : ℕ) (ps : List ℕ) (s : Store)
      → IsOpen s
      → s.free_list ≡ some (0 ∷ ps)
      → end < 2 ^ 64
      → s.end + 16 ≤ s.file.size * 2 ^ k
      → s.file.size * 2 ^ k ≤ limit
      → Returns (Lost end) (edges_add os (suc k) 0 start end s)
  unfolding edges_add
  edges_add-Lost k start end ps s o list fits room granted =
      let (p, g, eq, r) =
        Returns-eq (store_alloc_reuse grants small k 16 0 ps s o list room granted) in
      let s1 : Store = written g 8 (split64 end) in
      rw (eq, r.front)
        (rw
          (finish_add-eq g 0 end 8 0 ps r.IsOpen-after r.rest (omega (arith, r.same_end, o.header)))
          (returns (record {
            null = refl;
            magic_overwritten = join64-pokes (bytes_of s1) 0 16;
            header_overwritten =
                join64-pokes_outside (bytes_of s1) 0 8 (split64 16) (inr (omega arith))
                ∙ join64-pokes (bytes_of g) 8 end
                ∙ omega arith;
          })))
