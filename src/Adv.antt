-- ===== src/Adv.antt =====
-- src/db/adv.c: a graph database is a store of nodes and a store of edges. `fuel` bounds
-- `store_alloc`; the string functions of lib/sds are the argument `Sds`.
pub mod Graph
pub mod Nodes
pub mod Fresh
pub mod Again
pub mod Lost
pub mod Print
use Prim.Native.String.{String}
use adventure.Base.{
  ◌≡◌, refl, ℕ, zero, suc, ◌+◌, ltb, u64, Bool, Option, none, some, List, [], ◌∷◌, ◌==◌,
  if◌then◌else◌, Cmd, ok, fault, hang, pure, ◌>>=◌, ◌>>◌,
}
use adventure.Fs.{Files, Os, fs_create_dir}
use adventure.Store.{Store, store_read_ui64}
use adventure.Nodes.{nodes_count, nodes_add, nodes_edges_from, nodes_edges_set}
use adventure.Edges.{edges_add, edges_remove}
use adventure.Open.{store_open, store_close}

pub record Db : Type 0 where
  pub path : String
  pub nodes : Store
  pub edges : Store

-- `sdscatprintf(sdsempty(), format, …)`
pub record Sds : Type 0 where
  pub sdscatprintf : String → List String → String

-- A command on one store of the database.
unfoldable pub on_nodes {ℓ} : {A : Type ℓ} → Cmd Store A → Cmd Db A
on_nodes m db = elim (m db.nodes) [
  | ok a s ↦ ok a (record db { nodes = s })
  | fault ↦ fault
  | hang ↦ hang
]

unfoldable pub on_edges {ℓ} : {A : Type ℓ} → Cmd Store A → Cmd Db A
on_edges m db = elim (m db.edges) [
  | ok a s ↦ ok a (record db { edges = s })
  | fault ↦ fault
  | hang ↦ hang
]

pub on_nodes-ok {ℓ} :
    {A : Type ℓ} (m : Cmd Store A) (db : Db) {a : A} {s : Store}
    → m db.nodes ≡ ok a s
    → on_nodes m db ≡ ok a (record db { nodes = s })
unfolding on_nodes
on_nodes-ok m db e = rw (e, on_nodes) refl

pub on_edges-ok {ℓ} :
    {A : Type ℓ} (m : Cmd Store A) (db : Db) {a : A} {s : Store}
    → m db.edges ≡ ok a s
    → on_edges m db ≡ ok a (record db { edges = s })
unfolding on_edges
on_edges-ok m db e = rw (e, on_edges) refl

module _ (os : Os) (fuel : ℕ) where
  unfoldable pub adv_node_add : Cmd Db ℕ
  adv_node_add = on_nodes (nodes_add os fuel)

  unfoldable pub adv_edge_add : (start end : ℕ) → Cmd Db ℕ
  adv_edge_add start end = do
    prev ← on_nodes (nodes_edges_from start)
    next ← on_edges (edges_add os fuel prev start end)
    on_nodes (nodes_edges_set start next)
    pure 0

  unfoldable pub adv_edge_remove : (start end : ℕ) → Cmd Db ℕ
  adv_edge_remove start end = do
    prev ← on_nodes (nodes_edges_from start)
    next ← on_edges (edges_remove os fuel prev start end)
    on_nodes (nodes_edges_set start next)
    pure 0

  -- `adv_dbf_open`
  adv_dbf_open : Sds → (dir file : String) → Bool → Cmd Files (Option Store)
  adv_dbf_open sds dir file create =
      store_open os fuel (sds.sdscatprintf "%s/%s" (dir ∷ file ∷ [])) create

  -- Both files, once the directory is there. A store that was opened before the failure stays
  -- mapped for good: what was written to it is in its file.
  open_files : Sds → (dbname dirname : String) → Bool → Cmd Files (Option Db)
  unfolding adv_dbf_open
  open_files sds dbname dirname create = do
    nodes ← adv_dbf_open sds dirname "nodes" create
    elim nodes [
      | none ↦ pure none
      | some n ↦ (do
        edges ← adv_dbf_open sds dirname "edges" create
        elim edges [
          | none ↦ store_close n >> pure none
          | some e ↦ pure (some (record { path = dbname; nodes = n; edges = e }))
        ])
    ]

  -- `none` is NULL; `create` is `flags & ADV_CREATE`.
  unfoldable pub adv_open : Sds → (dbname : String) → Bool → Cmd Files (Option Db)
  unfolding open_files
  adv_open sds dbname create =
      let dirname = sds.sdscatprintf "%s.db" (dbname ∷ []) in
      let opened = open_files sds dbname dirname create in
      if create then (if fs_create_dir os dirname == 0 then opened else pure none) else opened

-- The loop over the words of a page from `p` to `stop`.
unfoldable pub print_links : (fuel p stop : ℕ) → Cmd Db (Unit {0})
print_links zero p stop db = hang
print_links (suc k) p stop db =
    if ltb p stop
    then (on_edges (store_read_ui64 p) >> print_links k (u64 (p + 8)) stop) db
    else ok tt db

-- The edges of a node whose link is `e`. A round reads a mapped word and moves on by 8, so one round
-- more than there are mapped bytes is enough.
unfoldable pub print_edges : (e : ℕ) → Cmd Db (Unit {0})
unfolding print_links
print_edges e db =
    if e == 0
    then ok tt db
    else (do
      size ← on_edges (store_read_ui64 e)
      print_links (suc db.edges.file.mapped) (u64 (e + 8)) (u64 (e + size)))
        db

-- `left` rounds of the loop over the nodes, from the node `i` on.
unfoldable pub print_nodes : (left i : ℕ) → Cmd Db (Unit {0})
unfolding print_edges
print_nodes zero i = pure tt
print_nodes (suc left) i = do
  e ← on_nodes (nodes_edges_from i)
  print_edges e
  print_nodes left (i + 1)

-- What is printed is left out.
unfoldable pub adv_debug_print : Cmd Db (Unit {0})
unfolding print_nodes
adv_debug_print db = print_nodes (nodes_count db.nodes) 0 db

unfoldable pub adv_close : Db → Cmd Files (Unit {0})
adv_close db = store_close db.nodes >> store_close db.edges
