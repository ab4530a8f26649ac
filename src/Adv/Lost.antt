-- ===== src/Adv/Lost.antt =====
-- The edge that follows the first one: the free list of the edge file has the null pointer in front
-- then, since `edges_add` frees the null pointer of a node that had no edges.
use adventure.Base.{
  ℕ, suc, ◌+◌, ◌*◌, ◌^◌, ◌≤◌, ◌<◌, ◌≡◌, refl, some, List, ◌∷◌, arith, Returns, returns, Returns-eq,
}
use adventure.Fs.{Os, Grants}
use adventure.Store.Access.{word}
use adventure.Nodes.{nodes_edges_from, nodes_edges_set}
use adventure.Nodes.Add.{item, NodeFile}
use adventure.Nodes.Links.{edges_from-eq, edges_set-eq, set-same}
use adventure.Store.Valid.{IsOpen}
use adventure.Edges.{edges_add}
use adventure.Edges.Lost.{edges_add-Lost}
use adventure.Adv.{Db, on_nodes-ok, on_edges-ok, adv_edge_add}

-- The call reports success, the node still has no edges, and the edge file has lost its magic.
pub record EdgeLost (start end code : ℕ) (db : Db) : Type 0 where
  pub returns_zero : code ≡ 0
  pub still_unlinked : word db.nodes (item start) ≡ 0
  pub magic_overwritten : word db.edges 0 ≡ 16
  pub header_overwritten : word db.edges 8 ≡ end

module _ {os : Os} {limit : ℕ} (grants : Grants os limit) (small : limit < 2 ^ 63) where
  -- In a database with a file of nodes and an open edge file, with 0 at the front of the edge
  -- file's free list, an end node below 2^64 and room to grow (the file doubled k times holds what
  -- is asked for, within a granted limit below 2^63), adv_edge_add with k + 1 rounds of fuel at an
  -- item of the node file whose link is null returns 0, leaves the link null, and overwrites the
  -- magic and the header of the edge file.
  pub adv_edge_add-EdgeLost :
      (k count start end : ℕ) (ps : List ℕ) (db : Db)
      → NodeFile db.nodes count
      → IsOpen db.edges
      → start < count
      → word db.nodes (item start) ≡ 0
      → db.edges.free_list ≡ some (0 ∷ ps)
      → end < 2 ^ 64
      → db.edges.end + 16 ≤ db.edges.file.size * 2 ^ k
      → db.edges.file.size * 2 ^ k ≤ limit
      → Returns (EdgeLost start end) (adv_edge_add os (suc k) start end db)
  unfolding adv_edge_add
  adv_edge_add-EdgeLost k count start end ps db nodes edges there no_edges list fits room granted =
      let (p, g, eq, a) =
        Returns-eq
          (edges_add-Lost grants small k start end ps db.edges edges list fits room granted) in
      let from = edges_from-eq db.nodes count start nodes there in
      rw (on_nodes-ok (nodes_edges_from start) db (rw no_edges at from)) (
        rw (on_edges-ok (edges_add os (suc k) 0 start end) db eq, a.null)
          (rw
            (on_nodes-ok (nodes_edges_set start 0) (record db { edges = g })
              (edges_set-eq db.nodes count start nodes there 0))
            (returns (record {
              returns_zero = refl;
              still_unlinked = set-same db.nodes count start nodes there 0 (omega arith);
              magic_overwritten = a.magic_overwritten;
              header_overwritten = a.header_overwritten;
            }))))
