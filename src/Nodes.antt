-- ===== src/Nodes.antt =====
-- src/db/store/nodes.c: the file of nodes, a header of 32 bytes and items of 16, each a pointer to
-- the node's edges and a pointer to its key/values. `fuel` bounds the rounds of `store_alloc`.
pub mod Add
pub mod Links
pub mod Fresh
use adventure.Base.{ℕ, ◌+◌, ◌-◌, ◌*◌, ◌/◌, ◌^◌, u64, Cmd, ok, pure, ◌>>=◌, ◌>>◌}
use adventure.Fs.{Os}
use adventure.Store.{Store, store_read_ui64, store_write_ui64, store_alloc}

abbrev pub nodes_header_sz : ℕ
nodes_header_sz = 32

abbrev pub nodes_item_sz : ℕ
nodes_item_sz = 16

-- `(nodes->end - nodes_header_sz) / nodes_item_sz`, in 64 bits.
unfoldable pub nodes_count : Store → ℕ
nodes_count nodes = u64 (nodes.end + 2 ^ 64 - nodes_header_sz) / nodes_item_sz

unfoldable pub nodes_edges_from : ℕ → Cmd Store ℕ
nodes_edges_from node = store_read_ui64 (u64 (nodes_header_sz + nodes_item_sz * node))

unfoldable pub nodes_edges_set : ℕ → ℕ → Cmd Store ℕ
nodes_edges_set node e = store_write_ui64 (u64 (nodes_header_sz + nodes_item_sz * node)) e >> pure 0

unfoldable pub nodes_add : Os → ℕ → Cmd Store ℕ
unfolding nodes_count
nodes_add os fuel nodes =
    let node = nodes_count nodes in
    (do
      p ← store_alloc os fuel nodes_item_sz
      store_write_ui64 p 0
      store_write_ui64 (u64 (p + 8)) 0
      pure node)
      nodes
