-- ===== src/Adv/Print.antt =====
-- Printing a database: the items of the root page are read as nodes.
use adventure.Base.{ℕ, zero, suc, ◌+◌, ◌^◌, ◌<◌, ◌≡◌, refl, arith, fault, lt→leb, false, ◌==◌}
use adventure.Store.{store_read_ui64}
use adventure.Store.Access.{word}
use adventure.Page.{pg_flags}
use adventure.Page.Header.{pg_flags-eq}
use adventure.Nodes.{nodes_edges_from}
use adventure.Nodes.Add.{item, NodeFile, nodes_count-eq}
use adventure.Nodes.Links.{edges_from-eq}
use adventure.Adv.{Db, on_edges, on_nodes-ok, print_edges, print_nodes, adv_debug_print}

-- The link of an item whose word has the flags 3.
module _ (db : Db) (e : ℕ) (flags : pg_flags e ≡ 3) (short : db.edges.file.mapped < 2 ^ 57) where
  far : db.edges.file.mapped < e + 8
  far = omega (arith, pg_flags-eq e)

  not_null : (e == 0) ≡ false
  not_null = ground (arith, pg_flags-eq e)

  unreadable : store_read_ui64 e db.edges ≡ fault
  unfolding store_read_ui64
  unreadable = rw (lt→leb (e + 8) db.edges.file.mapped far) refl

  on_edges-fault : on_edges (store_read_ui64 e) db ≡ fault
  unfolding on_edges
  on_edges-fault = rw (unreadable, on_edges) refl

  print_edges-fault : print_edges e db ≡ fault
  unfolding print_edges
  print_edges-fault = rw (not_null, on_edges-fault) refl

-- In a database with an item in its node file whose first one begins with the header of a root leaf
-- (flags 3, as store_open leaves it) and an edge file of fewer than 2^57 bytes, adv_debug_print
-- takes that header for the first node's link and reads outside the edge file.
pub adv_debug_print-fault :
    (db : Db) (count : ℕ)
    → NodeFile db.nodes count
    → 0 < count
    → pg_flags (word db.nodes (item 0)) ≡ 3
    → db.edges.file.mapped < 2 ^ 57
    → adv_debug_print db ≡ fault
unfolding adv_debug_print print_nodes
adv_debug_print-fault db zero f some_node flags short = absurd (omega arith)
adv_debug_print-fault db (suc left) f some_node flags short =
    rw (nodes_count-eq db.nodes (suc left) f) (
      rw (on_nodes-ok (nodes_edges_from 0) db (edges_from-eq db.nodes (suc left) 0 f some_node))
        (rw (print_edges-fault db (word db.nodes (item 0)) flags short) refl))
