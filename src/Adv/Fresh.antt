-- ===== src/Adv/Fresh.antt =====
-- The graph of a database whose files were created just now: no nodes.
use adventure.Base.{[], arith}
use adventure.Open.Fresh.{IsFresh}
use adventure.Adv.{Db}
use adventure.Adv.Graph.{IsGraph, first_node}

pub fresh-IsGraph :
    (db : Db) → IsFresh db.nodes → IsFresh db.edges → IsGraph db first_node (λ i. [])
fresh-IsGraph db n e = record {
  node_file = record { is_open = n.is_open; items = n.end_at };
  edge_file = e.is_open;
  begun = omega arith;
  links = λ i from lt. absurd (omega arith);
}
