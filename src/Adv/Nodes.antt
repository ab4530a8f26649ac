-- ===== src/Adv/Nodes.antt =====
-- Adding a node to the graph of a database.
use adventure.Base.{
  ℕ, suc, ◌+◌, ◌*◌, ◌^◌, ◌≤◌, ◌<◌, ◌≡◌, refl, sym, ap, false, ◌∙◌, inl, inr, [], arith, ◌==◌,
  ==_iff, Bool-cases, Returns, returns, Returns-eq,
}
use adventure.Fs.{Os, Grants}
use adventure.Store.{Store}
use adventure.Store.Access.{word}
use adventure.Store.Alloc.{NoneFree}
use adventure.Nodes.{nodes_add}
use adventure.Nodes.Add.{item, nodes_add-NodeAdded}
use adventure.Edges.View.{unlinked}
use adventure.Adv.{Db, on_nodes-ok, adv_node_add}
use adventure.Adv.Graph.{Graph, IsGraph, update}

-- The number of the new node is the old count, the graph has it with no edges, and the edge file is
-- the one of the database before, `old`.
pub record NodeOf (count : ℕ) (graph : Graph) (old : Db) (node : ℕ) (db : Db) : Type 0 where
  pub number : node ≡ count
  pub same_edges : db.edges ≡ old.edges
  pub graph_after : IsGraph db (suc count) (update graph count [])

module _ {os : Os} {limit : ℕ} (grants : Grants os limit) (small : limit < 2 ^ 63) where
  -- For a database of count items whose nodes, the items from 4 on, stand for a graph (the items 0
  -- to 3 lie in the root page that store_open writes), with no freed page waiting in its node file
  -- and room to grow (the file doubled k times holds what is asked for, within a granted limit
  -- below 2^63), adv_node_add with k + 1 rounds of fuel returns the number count, which is at least
  -- 4, and leaves a database of count + 1 items that stands for the graph with no edges at the new
  -- node; the edge file is as it was.
  pub adv_node_add-NodeOf :
      (k count : ℕ) (graph : Graph) (db : Db)
      → IsGraph db count graph
      → NoneFree db.nodes
      → db.nodes.end + 16 ≤ db.nodes.file.size * 2 ^ k
      → db.nodes.file.size * 2 ^ k ≤ limit
      → Returns (NodeOf count graph db) (adv_node_add os (suc k) db)
  unfolding adv_node_add update
  adv_node_add-NodeOf k count graph db is nf room granted =
      let (i, g, eq, a) =
        Returns-eq
          (nodes_add-NodeAdded grants small k count db.nodes is.node_file nf room granted) in
      rw (on_nodes-ok (nodes_add os (suc k)) db eq) (
        returns (record {
          number = a.number;
          same_edges = refl;
          graph_after = record {
            node_file = a.file;
            edge_file = is.edge_file;
            begun = omega (arith, is.begun);
            links = λ j from lt. elim (Bool-cases (j == count)) [
              | inl new ↦
                  rw (new, link_new g i j a.number a.no_edges ((==_iff j count).0 new)) unlinked
              | inr old ↦ rw (old, a.others j (below j lt old)) (is.links j from (below j lt old))
            ];
          };
        }))
    where
      below : (j : ℕ) → j < suc count → (j == count) ≡ false → j < count
      below j lt old = ground arith

      link_new :
          (g : Store) (i j : ℕ) → i ≡ count → word g (item i) ≡ 0 → j ≡ count → word g (item j) ≡ 0
      link_new g i j number no_edges same =
          ap (λ (t : ℕ). word g (item t)) (same ∙ sym number) ∙ no_edges
