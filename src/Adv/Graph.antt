-- ===== src/Adv/Graph.antt =====
-- The graph that a database stands for: the end nodes of each node's edges, oldest first. Adding
-- and removing an edge are what they are on that graph, where no freed page waits.
use adventure.Base.{
  ℕ, suc, ◌+◌, ◌*◌, ◌^◌, ◌≤◌, ◌<◌, ◌≡◌, refl, inl, inr, some, List, [], ◌∷◌, ◌++◌, arith, length,
  ◌==◌, ==_iff, ==_refl, Bool-cases, if◌then◌else◌, ok, Returns, returns, Returns-eq, ◌>>=◌, ◌>>◌,
}
use adventure.Memory.Words.{split64}
use adventure.Fs.{Os, Grants}
use adventure.Store.{Store, bytes_of}
use adventure.Store.Access.{word, written}
use adventure.Store.Valid.{IsOpen}
use adventure.Nodes.{nodes_edges_from, nodes_edges_set}
use adventure.Nodes.Add.{item, NodeFile}
use adventure.Nodes.Links.{edges_from-eq, edges_set-eq, set-NodeFile, set-same, set-other}
use adventure.Edges.{edges_add, edges_remove}
use adventure.Edges.View.{EdgePage, EdgePage-kept, Linked, unlinked, linked, page_bytes}
use adventure.Edges.Add.{edges_add-Added}
use adventure.Edges.Find.{find_index, remove_first}
use adventure.Edges.Remove.{edges_remove-Removed}
use adventure.Adv.{Db, on_nodes, on_edges, on_nodes-ok, on_edges-ok, adv_edge_add, adv_edge_remove}

-- The end nodes of each node's edges.
abbrev pub Graph : Type 0
Graph = ℕ → List ℕ

-- The number of a database's first node: the four items in front of it lie in the root page of the
-- free tree.
abbrev pub first_node : ℕ
first_node = 4

-- `db` holds `count` items, and the nodes from `first_node` on have the edges of `graph`.
pub record IsGraph (db : Db) (count : ℕ) (graph : Graph) : Type 0 where
  pub node_file : NodeFile db.nodes count
  pub edge_file : IsOpen db.edges
  pub begun : first_node ≤ count
  pub links :
      (i : ℕ) → first_node ≤ i → i < count → Linked db.edges (word db.nodes (item i)) (graph i)

-- The graph with other edges at one node.
unfoldable pub update : Graph → ℕ → List ℕ → Graph
update graph node xs i = if i == node then xs else graph i

-- The edge file has no freed page, and holds another page of `n` bytes once it is doubled `k` times.
pub record HasRoom (limit k n : ℕ) (s : Store) : Type 0 where
  pub none_waits : s.free_list ≡ some []
  pub room : s.end + n ≤ s.file.size * 2 ^ k
  pub granted : s.file.size * 2 ^ k ≤ limit

-- A link stays good in an edge file that keeps what it had.
pub Linked-kept :
    (s g : Store) (e : ℕ) (xs : List ℕ)
    → s.end ≤ g.end
    → ((a : ℕ) → 14 ≤ a → a < s.end → bytes_of g a ≡ bytes_of s a)
    → Linked s e xs
    → Linked g e xs
Linked-kept s g e xs longer kept unlinked = unlinked
Linked-kept s g e xs longer kept (linked v) = linked (EdgePage-kept s g e xs longer kept v)

-- The database after a node's link was set to the page `e` of the edge file `g`.
abbrev relinked : Db → ℕ → ℕ → Store → Db
relinked db node e g = record db { nodes = written db.nodes (item node) (split64 e); edges = g }

-- The node's new page has its edges, and every other page is still there.
relinked-IsGraph :
    (db : Db) (count node e : ℕ) (graph : Graph) (xs : List ℕ) (g : Store)
    → IsGraph db count graph
    → node < count
    → IsOpen g
    → EdgePage g e xs
    → db.edges.end ≤ g.end
    → ((a : ℕ) → 14 ≤ a → a < db.edges.end → bytes_of g a ≡ bytes_of db.edges a)
    → IsGraph (relinked db node e g) count (update graph node xs)
unfolding update
relinked-IsGraph db count node e graph xs g is there open_g page longer kept = record {
  node_file = set-NodeFile db.nodes count node is.node_file there e;
  edge_file = open_g;
  begun = is.begun;
  links = λ i from lt. elim (Bool-cases (i == node)) [
    | inl same ↦
        rw
          (
            same,
            (==_iff i node).0 same,
            set-same db.nodes count node is.node_file there e
                (omega (arith, page.before_end, open_g.within, open_g.small)),
          )
          (linked page)
    | inr other ↦
        rw (other, set-other db.nodes node e i (λ h. (cc (==_refl node, other, h))))
          (Linked-kept db.edges g (word db.nodes (item i)) (graph i) longer kept
            (is.links i from lt))
  ];
}

-- What an operation on the edges of `start` leaves: a database with the graph changed at `start`,
-- the old page in the free list.
pub record Relinked (count start : ℕ) (graph : Graph) (xs : List ℕ) (old : ℕ) (code : ℕ) (db : Db)
    : Type 0 where
  pub returns_zero : code ≡ 0
  pub graph_after : IsGraph db count (update graph start xs)
  pub freed : db.edges.free_list ≡ some (old ∷ [])

module _ {os : Os} {limit : ℕ} (grants : Grants os limit) (small : limit < 2 ^ 63) (k count : ℕ)
    (graph : Graph) (db : Db) (is : IsGraph db count graph) (start end : ℕ)
    (from : first_node ≤ start) (there : start < count) where
  -- For a database whose nodes, the items from 4 on, stand for a graph (the items 0 to 3 lie in the
  -- root page that store_open writes), with start one of its nodes and end below 2^64, no freed
  -- page waiting in its edge file and room to grow (the file doubled k times holds what is asked
  -- for, within a granted limit below 2^63), adv_edge_add with k + 1 rounds of fuel returns 0 and
  -- leaves a database that stands for the graph with the end node put behind the other edges of
  -- start; the edges of every other node are as they were, and the old page is in the free list.
  pub adv_edge_add-Relinked :
      HasRoom limit k (page_bytes (length (graph start)) + 8) db.edges
      → end < 2 ^ 64
      → Returns
          (Relinked count start graph (graph start ++ end ∷ []) (word db.nodes (item start)))
          (adv_edge_add os (suc k) start end db)
  unfolding adv_edge_add
  adv_edge_add-Relinked room fits =
      let e = word db.nodes (item start) in
      let (p, g, eq, a) = Returns-eq (
        edges_add-Added grants small k db.edges start end is.edge_file room.none_waits fits e
          (graph start) (is.links start from there) room.room room.granted) in
      rw
        (on_nodes-ok (nodes_edges_from start) db
          (edges_from-eq db.nodes count start is.node_file there))
        (rw (on_edges-ok (edges_add os (suc k) e start end) db eq) (
          rw
            (on_nodes-ok (nodes_edges_set start p) (record db { edges = g })
              (edges_set-eq db.nodes count start is.node_file there p))
            (returns (record {
              returns_zero = refl;
              graph_after =
                  relinked-IsGraph db count start p graph (graph start ++ end ∷ []) g is there
                    a.IsOpen-after a.page a.longer a.kept;
              freed = a.freed;
            }))))

  -- For a database whose nodes, the items from 4 on, stand for a graph (the items 0 to 3 lie in the
  -- root page that store_open writes), with start one of its nodes and an edge from it to end, no
  -- freed page waiting in its edge file and room to grow (the file doubled k times holds what is
  -- asked for, within a granted limit below 2^63), adv_edge_remove with k + 1 rounds of fuel
  -- returns 0 and leaves a database that stands for the graph without the first such edge of start;
  -- the edges of every other node are as they were, and the old page is in the free list.
  pub adv_edge_remove-Relinked :
      HasRoom limit k (8 * length (graph start)) db.edges
      → find_index end (graph start) < length (graph start)
      → Returns
          (Relinked count start graph (remove_first end (graph start)) (word db.nodes (item start)))
          (adv_edge_remove os (suc k) start end db)
  unfolding adv_edge_remove
  adv_edge_remove-Relinked room found =
      rw
        (on_nodes-ok (nodes_edges_from start) db
          (edges_from-eq db.nodes count start is.node_file there))
        (go (word db.nodes (item start)) (graph start) (is.links start from there) room found)
    where
      go :
          (e : ℕ) (xs : List ℕ)
          → Linked db.edges e xs
          → HasRoom limit k (8 * length xs) db.edges
          → find_index end xs < length xs
          → Returns (Relinked count start graph (remove_first end xs) e) (
              (do
                next ← on_edges (edges_remove os (suc k) e start end)
                on_nodes (nodes_edges_set start next)
                λ s. ok 0 s)
                db)
      go e xs unlinked r f = absurd (omega arith)
      go e xs (linked v) r f =
          let (p, g, eq, a) = Returns-eq (
            edges_remove-Removed grants small k db.edges start end is.edge_file e xs v r.none_waits
              f r.room r.granted) in
          rw (on_edges-ok (edges_remove os (suc k) e start end) db eq) (
            rw
              (on_nodes-ok (nodes_edges_set start p) (record db { edges = g })
                (edges_set-eq db.nodes count start is.node_file there p))
              (returns (record {
                returns_zero = refl;
                graph_after =
                    relinked-IsGraph db count start p graph (remove_first end xs) g is there
                      a.IsOpen-after a.page a.longer a.kept;
                freed = a.freed;
              })))
