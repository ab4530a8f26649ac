-- ===== src/Tests/Graphs.antt =====
-- A file of nodes and a file of edges, and the runs on them.
use adventure.Base.{
  ℕ, zero, suc, ◌+◌, ◌*◌, ◌<◌, ◌≡◌, refl, List, [], ◌∷◌, ok, Returns, arith, get_or,
}
use adventure.Memory.Words.{join64}
use adventure.Store.Access.{word}
use adventure.Edges.{edges_add, edges_remove, find_edge}
use adventure.Edges.View.{EdgePage, linked}
use adventure.Edges.Add.{Added, edges_add-Added}
use adventure.Edges.Find.{find_index, find_edge-eq}
use adventure.Edges.Remove.{Removed, edges_remove-Removed}
use adventure.Adv.{Db}
use adventure.Tests.Machine.{machine, machine-Grants}
use adventure.Tests.Stores.{node_file, edge_file, edge_file-IsOpen}

abbrev edges : List ℕ
edges = 1 ∷ 0 ∷ []

page_items : (i : ℕ) → i < 2 → word edge_file (32 + 8 + 8 * i) ≡ get_or edges i 0
unfolding join64
page_items zero lt = refl
page_items (suc zero) lt = refl
page_items (suc (suc i)) lt = absurd (omega arith)

page : EdgePage edge_file 32 edges
unfolding join64
page = record {
  behind_header = omega arith;
  before_end = omega arith;
  size_word = refl;
  items = page_items;
}

edges_add-Added_example :
    Returns (Added edge_file 32 edges 1) (edges_add machine 3 32 0 1 edge_file)
edges_add-Added_example =
    edges_add-Added machine-Grants (omega arith) 2 edge_file 0 1 edge_file-IsOpen refl (omega arith)
      32 edges (linked page) (omega arith) (omega arith)

edges_remove-Removed_example :
    Returns (Removed edge_file 32 edges 0) (edges_remove machine 3 32 0 0 edge_file)
edges_remove-Removed_example =
    edges_remove-Removed machine-Grants (omega arith) 2 edge_file 0 0 edge_file-IsOpen 32 edges page
      refl (unfold find_index in omega arith) (omega arith) (omega arith)

searched_items : (i : ℕ) → i < 2 → word edge_file (32 + (8 + 8 * (0 + i))) ≡ get_or edges i 0
unfolding join64
searched_items zero lt = refl
searched_items (suc zero) lt = refl
searched_items (suc (suc i)) lt = absurd (omega arith)

find_edge-eq_example :
    find_edge 3 32 0 (8 + 8 * (0 + 2)) (8 + 8 * 0) edge_file
    ≡ ok (8 + 8 * (0 + find_index 0 edges)) edge_file
find_edge-eq_example =
    find_edge-eq 3 32 0 0 edges edge_file edge_file-IsOpen (omega arith) (omega arith)
      searched_items

abbrev pub db : Db
db = record { path = "test"; nodes = node_file; edges = edge_file }
