-- ===== src/Nodes/Add.antt =====
-- `nodes_add` gives the next number, and the links of the nodes that were there stay.
use adventure.Base.{
  ℕ, suc, ◌+◌, ◌*◌, ◌^◌, ◌≤◌, ◌<◌, ◌≡◌, sym, ◌∙◌, ap, inl, arith, u64, Returns, returns, Returns-eq,
}
use adventure.Memory.Words.{split64, join64-pokes, join64-pokes_outside, join64_ext}
use adventure.Fs.{Os, Grants}
use adventure.Store.{Store, bytes_of}
use adventure.Store.Access.{word, written, write64-ok}
use adventure.Store.Valid.{IsOpen, IsOpen-written}
use adventure.Store.Alloc.{NoneFree, store_alloc-Allocated}
use adventure.Nodes.{nodes_count, nodes_add}

-- Where the item of a node begins.
abbrev pub item : ℕ → ℕ
item node = 32 + 16 * node

-- A file of nodes: it is open, and holds `count` items.
pub record NodeFile (s : Store) (count : ℕ) : Type 0 where
  pub is_open : IsOpen s
  pub items : s.end ≡ item count

pub nodes_count-eq : (s : Store) (count : ℕ) → NodeFile s count → nodes_count s ≡ count
unfolding nodes_count
nodes_count-eq s count f = omega (arith, f.items, f.is_open.within, f.is_open.small)

-- The node `i` is new, has no edges and no key/values, and every other node has its link.
pub record NodeAdded (s : Store) (count i : ℕ) (g : Store) : Type 0 where
  pub file : NodeFile g (suc count)
  pub number : i ≡ count
  pub no_edges : word g (item i) ≡ 0
  pub no_values : word g (item i + 8) ≡ 0
  pub others : (j : ℕ) → j < count → word g (item j) ≡ word s (item j)
  pub same_list : g.free_list ≡ s.free_list

module _ {os : Os} {limit : ℕ} (grants : Grants os limit) (small : limit < 2 ^ 63) where
  -- On a file of count nodes with no freed page and room to grow (the file doubled k times holds
  -- what is asked for, within a granted limit below 2^63), nodes_add with k + 1 rounds of fuel
  -- returns count and leaves a file of count + 1 nodes: the new one has no edges and no values, the
  -- links of the others are as they were.
  pub nodes_add-NodeAdded :
      (k count : ℕ) (s : Store)
      → NodeFile s count
      → NoneFree s
      → s.end + 16 ≤ s.file.size * 2 ^ k
      → s.file.size * 2 ^ k ≤ limit
      → Returns (NodeAdded s count) (nodes_add os (suc k) s)
  unfolding nodes_add
  nodes_add-NodeAdded k count s f nf room granted =
      let o = f.is_open in
      let (p, g, eq, a) =
        Returns-eq (store_alloc-Allocated grants small k 16 s o nf room granted) in
      let b = a.IsOpen-after in
      let at : p ≡ item count = a.at_end ∙ f.items in
      let place : item (nodes_count s) ≡ p = ap item (nodes_count-eq s count f) ∙ sym at in
      let fits : u64 (p + 8) ≡ p + 8 = omega (arith, a.at_end, o.within, o.small) in
      let s1 : Store = written g p (split64 0) in
      let s2 : Store = written s1 (p + 8) (split64 0) in
      rw (eq, fits)
        (rw
          (
            write64-ok g p 0 (omega (arith, a.at_end, a.moved_end, b.within, b.live)),
            write64-ok s1 (p + 8) 0 (omega (arith, a.at_end, a.moved_end, b.within, b.live)),
          )
          (returns (record {
            file = record {
              is_open =
                  IsOpen-written s1 (p + 8) (split64 0) (omega (arith, at))
                    (IsOpen-written g p (split64 0) (omega (arith, at)) b);
              items = a.moved_end ∙ omega (arith, f.items);
            };
            number = nodes_count-eq s count f;
            no_edges =
                ap (word s2) place
                ∙ join64-pokes_outside (bytes_of s1) (p + 8) p (split64 0) (inl (omega arith))
                ∙ join64-pokes (bytes_of g) p 0;
            no_values =
                ap (λ (q : ℕ). word s2 (q + 8)) place ∙ join64-pokes (bytes_of s1) (p + 8) 0;
            others = λ j lt.
                join64-pokes_outside (bytes_of s1) (p + 8) (item j) (split64 0)
                  (inl (omega (arith, at)))
                ∙ join64-pokes_outside (bytes_of g) p (item j) (split64 0) (inl (omega (arith, at)))
                ∙ join64_ext (bytes_of s) (bytes_of g) (item j) (item j) (λ i l.
                  a.same_bytes (item j + i) (omega arith) (omega (arith, o.within, f.items)));
            same_list = a.same_list;
          })))
