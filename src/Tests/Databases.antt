-- ===== src/Tests/Databases.antt =====
-- A database as the program makes it: its two files are created, it gets a node and an edge, and it is
-- closed and opened again.
use Prim.Native.String.{◌++◌ as ◌+++◌}
use adventure.Base.{
  ℕ, ◌≡◌, refl, sym, subst, true, false, inr, none, some, [], ◌∷◌, ◌++◌, ok, fault, Returns, arith,
  ◌>>◌,
}
use adventure.Fs.{
  fs_create_dir, fs_create_file, fs_exists, fs_map, Files, fs_resize_file, fs_remap,
  fs_map_internal,
}
use adventure.Memory.{pokes}
use adventure.Memory.Words.{join64}
use adventure.Store.{
  store_extend, store_alloc, store_resize, take_page, end_page, store_write, store_write_ui64,
  store_read, store_read_ui64, store_free,
}
use adventure.Store.Access.{word}
use adventure.Page.{hdr_write, write_ui64}
use adventure.Btree.Tree.{btree_create}
use adventure.Open.{store_open, open_map, init_store, store_read_hdr, store_write_hdr}
use adventure.Open.Again.{reopened, reopened-Reopened}
use adventure.Nodes.Add.{item}
use adventure.Nodes.{nodes_add, nodes_count, nodes_edges_from, nodes_edges_set}
use adventure.Edges.{edges_add, finish_add}
use adventure.Edges.Find.{find_index, remove_first}
use adventure.Adv.{
  on_nodes, on_edges, Db, Sds, adv_node_add, adv_edge_add, adv_edge_remove, adv_open, adv_close,
  adv_debug_print,
}
use adventure.Adv.Graph.{
  Graph, IsGraph, HasRoom, Relinked, update, adv_edge_add-Relinked, adv_edge_remove-Relinked,
}
use adventure.Adv.Nodes.{NodeOf, adv_node_add-NodeOf}
use adventure.Adv.Fresh.{fresh-IsGraph}
use adventure.Adv.Again.{Again, Reopened-IsGraph, adv_open-close}
use adventure.Adv.Print.{adv_debug_print-fault}
use adventure.Tests.Machine.{machine, granted_length, machine-Grants}
use adventure.Adv.Lost.{EdgeLost, adv_edge_add-EdgeLost}
use adventure.Tests.Created.{left_by, left_by-holds, created, created-IsFresh, created-size}

-- The C library's formats, by the number of what they print.
abbrev sds : Sds
sds = record {
  sdscatprintf = λ format args. elim args [
    | [] ↦ format
    | a ∷ rest ↦ elim rest [ [] ↦ a +++ ".db" | b ∷ more ↦ a +++ ("/" +++ b) ]
  ];
}

-- The database that `adv_open` creates where no file is there.
abbrev fresh_db : Db
fresh_db = record { path = "t"; nodes = created "t.db/nodes"; edges = created "t.db/edges" }

fresh_db_created :
    (files : Files) × (adv_open machine 2 sds "t" true (λ path. none) ≡ ok (some fresh_db) files)
unfolding adv_open store_open fs_create_dir fs_create_file fs_exists fs_map fs_map_internal
    store_write_hdr store_write store_write_ui64 store_read_hdr store_read store_read_ui64
    btree_create store_alloc join64 pokes fs_remap fs_resize_file hdr_write write_ui64
fresh_db_created = (_, refl)

fresh_db-IsGraph : IsGraph fresh_db 4 (λ i. [])
fresh_db-IsGraph =
    fresh-IsGraph fresh_db (created-IsFresh "t.db/nodes") (created-IsFresh "t.db/edges")

adv_node_add-NodeOf_example :
    Returns (NodeOf 4 (λ i. []) fresh_db) (adv_node_add machine 1 fresh_db)
adv_node_add-NodeOf_example =
    adv_node_add-NodeOf machine-Grants (omega arith) 0 4 (λ i. []) fresh_db fresh_db-IsGraph
      (inr (created-IsFresh "t.db/nodes").none_free)
      (omega (arith, created-size "t.db/nodes", (created-IsFresh "t.db/nodes").end_at))
      (omega (arith, created-size "t.db/nodes"))

abbrev node_db : Db
node_db = left_by fresh_db (adv_node_add machine 1 fresh_db)

node_added : (a : ℕ) × NodeOf 4 (λ i. []) fresh_db a node_db
node_added =
    left_by-holds fresh_db (NodeOf 4 (λ i. []) fresh_db) (adv_node_add machine 1 fresh_db) (
      adv_node_add-NodeOf machine-Grants (omega arith) 0 4 (λ i. []) fresh_db fresh_db-IsGraph
        (inr (created-IsFresh "t.db/nodes").none_free)
        (omega (arith, created-size "t.db/nodes", (created-IsFresh "t.db/nodes").end_at))
        (omega (arith, created-size "t.db/nodes")))

-- One node, without edges.
abbrev one_node : Graph
one_node = update (λ i. []) 4 []

node_db-IsGraph : IsGraph node_db 5 one_node
node_db-IsGraph = node_added.1.graph_after

created-HasRoom : HasRoom granted_length 1 16 (created "t.db/edges")
created-HasRoom = record {
  none_waits = (created-IsFresh "t.db/edges").none_free;
  room = omega (arith, created-size "t.db/edges", (created-IsFresh "t.db/edges").end_at);
  granted = omega (arith, created-size "t.db/edges");
}

node_db-HasRoom : HasRoom granted_length 1 16 node_db.edges
node_db-HasRoom = subst (HasRoom granted_length 1 16) (sym node_added.1.same_edges) created-HasRoom

adv_edge_add-Relinked_example :
    Returns
      (Relinked 5 4 one_node (one_node 4 ++ 4 ∷ []) (word node_db.nodes (item 4)))
      (adv_edge_add machine 2 4 4 node_db)
unfolding update
adv_edge_add-Relinked_example =
    adv_edge_add-Relinked machine-Grants (omega arith) 1 5 one_node node_db node_db-IsGraph 4 4
      (omega arith) (omega arith) node_db-HasRoom (omega arith)

abbrev linked_db : Db
linked_db = left_by node_db (adv_edge_add machine 2 4 4 node_db)

edge_added : (a : ℕ) × Relinked 5 4 one_node (4 ∷ []) (word node_db.nodes (item 4)) a linked_db
unfolding update
edge_added =
    left_by-holds node_db (Relinked 5 4 one_node (4 ∷ []) (word node_db.nodes (item 4)))
      (adv_edge_add machine 2 4 4 node_db)
      (adv_edge_add-Relinked machine-Grants (omega arith) 1 5 one_node node_db node_db-IsGraph 4 4
        (omega arith) (omega arith) node_db-HasRoom (omega arith))

-- The edge of the node to itself.
abbrev one_edge : Graph
one_edge = update one_node 4 (4 ∷ [])

linked_db-IsGraph : IsGraph linked_db 5 one_edge
linked_db-IsGraph = edge_added.1.graph_after

-- A second node, without edges.
abbrev two_db : Db
two_db = left_by linked_db (adv_node_add machine 2 linked_db)

-- What the runs leave besides the graph.
record Left : Type 0 where
  nodes_path : linked_db.nodes.file.path ≡ "t.db/nodes"
  edges_path : linked_db.edges.file.path ≡ "t.db/edges"
  nodes_size : linked_db.nodes.file.size ≡ 128
  edges_size : linked_db.edges.file.size ≡ 128
  no_free_nodes : linked_db.nodes.free_list ≡ some []
  null_link : word two_db.nodes (item 5) ≡ 0
  null_freed : two_db.edges.free_list ≡ some (0 ∷ [])
  size_after : two_db.edges.file.size ≡ 128

left : Left
unfolding open_map init_store store_extend store_alloc store_read_hdr store_write_hdr join64
    fs_resize_file fs_remap fs_map_internal store_resize take_page end_page store_write
    store_write_ui64 store_read store_read_ui64 btree_create pokes hdr_write write_ui64 adv_node_add
    adv_edge_add on_nodes on_edges nodes_add nodes_count nodes_edges_from nodes_edges_set edges_add
    finish_add store_free
left = record {
  nodes_path = refl;
  edges_path = refl;
  nodes_size = refl;
  edges_size = refl;
  no_free_nodes = refl;
  null_link = refl;
  null_freed = refl;
  size_after = refl;
}

adv_open-close_example :
    Returns
      (λ r after. Again 5 one_edge r)
      ((adv_close linked_db >> adv_open machine 0 sds "t" false) (λ path. none))
adv_open-close_example =
    adv_open-close machine-Grants 0 sds "t" 5 one_edge linked_db (λ path. none) linked_db-IsGraph
      left.nodes_path left.edges_path (rw (left.nodes_path, left.edges_path) refl)

-- The database after it was closed and opened: no page waits.
abbrev again_db : Db
again_db = record { path = "t"; nodes = reopened linked_db.nodes; edges = reopened linked_db.edges }

again_db-IsGraph : IsGraph again_db 5 one_edge
again_db-IsGraph =
    Reopened-IsGraph linked_db 5 one_edge "t" (reopened linked_db.nodes) (reopened linked_db.edges)
      linked_db-IsGraph (reopened-Reopened linked_db.nodes linked_db-IsGraph.node_file.is_open)
      (reopened-Reopened linked_db.edges linked_db-IsGraph.edge_file)

again_db-HasRoom : HasRoom granted_length 1 8 again_db.edges
again_db-HasRoom =
    let r = reopened-Reopened linked_db.edges linked_db-IsGraph.edge_file in
    record {
      none_waits = refl;
      room = omega (arith, r.is_open.within, r.is_open.header);
      granted = omega (arith, r.same_size, left.edges_size);
    }

adv_edge_remove-Relinked_example :
    Returns
      (Relinked 5 4 one_edge (remove_first 4 (one_edge 4)) (word again_db.nodes (item 4)))
      (adv_edge_remove machine 2 4 4 again_db)
unfolding update find_index
adv_edge_remove-Relinked_example =
    adv_edge_remove-Relinked machine-Grants (omega arith) 1 5 one_edge again_db again_db-IsGraph 4 4
      (omega arith) (omega arith) again_db-HasRoom (omega arith)

two_nodes : (a : ℕ) × NodeOf 5 one_edge linked_db a two_db
two_nodes =
    left_by-holds linked_db (NodeOf 5 one_edge linked_db) (adv_node_add machine 2 linked_db) (
      adv_node_add-NodeOf machine-Grants (omega arith) 1 5 one_edge linked_db linked_db-IsGraph
        (inr left.no_free_nodes) (omega (arith, left.nodes_size, linked_db-IsGraph.node_file.items))
        (omega (arith, left.nodes_size)))

adv_edge_add-EdgeLost_example : Returns (EdgeLost 5 4) (adv_edge_add machine 2 5 4 two_db)
adv_edge_add-EdgeLost_example =
    let g = two_nodes.1.graph_after in
    adv_edge_add-EdgeLost machine-Grants (omega arith) 1 6 5 4 [] two_db g.node_file g.edge_file
      (omega arith) left.null_link left.null_freed (omega arith)
      (omega (arith, g.edge_file.within, left.size_after)) (omega (arith, left.size_after))

adv_debug_print-fault_example : adv_debug_print fresh_db ≡ fault
adv_debug_print-fault_example =
    adv_debug_print-fault fresh_db 4 fresh_db-IsGraph.node_file (omega arith)
      (created-IsFresh "t.db/nodes").root_page.flags_field
      (omega (arith, (created-IsFresh "t.db/edges").is_open.live, created-size "t.db/edges"))
