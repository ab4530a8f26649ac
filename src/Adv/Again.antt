-- ===== src/Adv/Again.antt =====
-- Closing a database and opening it again.
use Prim.Native.String.{String}
use text.Mathlib.Text.{◌==◌ as str_eq}
use adventure.Base.{
  ℕ, ◌≡◌, refl, ◌∙◌, ap, subst, false, Option, some, [], ◌∷◌, arith, Returns, returns, ok, ◌>>◌,
  if◌then◌else◌,
}
use adventure.Memory.Words.{join64}
use adventure.Fs.{Files, Os, Grants, fs_unmap}
use adventure.Store.{Store}
use adventure.Store.Access.{word}
use adventure.Store.Valid.{IsOpen}
use adventure.Nodes.Add.{item}
use adventure.Open.{store_close, store_open}
use adventure.Open.Again.{Reopened, reopened, reopened-Reopened, store_open-there, unmapped}
use adventure.Adv.{Db, Sds, adv_dbf_open, open_files, adv_open, adv_close}
use adventure.Adv.Graph.{Graph, IsGraph, Linked-kept}

-- The graph of a database is in the bytes of its two files.
pub Reopened-IsGraph :
    (db : Db) (count : ℕ) (graph : Graph) (path : String) (n e : Store)
    → IsGraph db count graph
    → Reopened db.nodes n
    → Reopened db.edges e
    → IsGraph (record { path = path; nodes = n; edges = e }) count graph
Reopened-IsGraph db count graph path n e is again_n again_e = record {
  node_file = record { is_open = again_n.is_open; items = again_n.same_end ∙ is.node_file.items };
  edge_file = again_e.is_open;
  begun = is.begun;
  links = λ i from lt. rw (ap (λ m. join64 m (item i)) again_n.same_bytes) (
      Linked-kept db.edges e (word db.nodes (item i)) (graph i) (omega (arith, again_e.same_end))
        (λ a lo hi. ap (λ m. m a) again_e.same_bytes) (is.links i from lt));
}

-- A database that stands for the graph, with no freed page waiting.
pub record Again (count : ℕ) (graph : Graph) (r : Option Db) : Type 0 where
  pub db : Db
  pub opened : r ≡ some db
  pub same_graph : IsGraph db count graph
  pub no_free_nodes : db.nodes.free_list ≡ some []
  pub no_free_edges : db.edges.free_list ≡ some []

module _ {os : Os} {limit : ℕ} (grants : Grants os limit) (fuel : ℕ) (sds : Sds)
    (dbname : String) where
  -- The path of one of the database's files.
  abbrev pub path_of : String → String
  path_of file = sds.sdscatprintf "%s/%s" (sds.sdscatprintf "%s.db" (dbname ∷ []) ∷ file ∷ [])

  module _ (db : Db) (files : Files)
      (differ : str_eq db.nodes.file.path db.edges.file.path ≡ false) where
    abbrev closed : Files
    closed = fs_unmap db.edges.file (fs_unmap db.nodes.file files)

    nodes_there : IsOpen db.nodes → closed db.nodes.file.path ≡ some db.nodes.file.image
    unfolding fs_unmap
    nodes_there o =
        ap
          (λ b.
            if b then some db.edges.file.image else fs_unmap db.nodes.file files db.nodes.file.path)
          differ
        ∙ unmapped grants fuel db.nodes o files

  -- `store_open` of a file that was closed, by its path.
  store_open-path :
      (s : Store) (path : String) (files : Files)
      → IsOpen s
      → s.file.path ≡ path
      → files s.file.path ≡ some s.file.image
      → store_open os fuel path false files ≡ ok (some (reopened s)) files
  store_open-path s path files o at there =
      subst (λ p. store_open os fuel p false files ≡ ok (some (reopened s)) files) at
        (store_open-there grants fuel s o files there)

  -- For a database that stands for a graph (its nodes being the items from 4 on) and whose two
  -- stores are mapped from two different paths, the ones that the format gives for the name's nodes
  -- and edges, where the system grants opening and mapping a file, adv_close and then adv_open of
  -- that name without the create flag return a database that stands for the same graph, with no
  -- freed page in either file, whatever files were there.
  pub adv_open-close :
      (count : ℕ) (graph : Graph) (db : Db) (files : Files)
      → IsGraph db count graph
      → db.nodes.file.path ≡ path_of "nodes"
      → db.edges.file.path ≡ path_of "edges"
      → str_eq db.nodes.file.path db.edges.file.path ≡ false
      → Returns
          (λ r after. Again count graph r)
          ((adv_close db >> adv_open os fuel sds dbname false) files)
  unfolding adv_close adv_open store_close open_files adv_dbf_open
  adv_open-close count graph db files is at_n at_e differ =
      let after = closed db files differ in
      rw
        (store_open-path db.nodes (path_of "nodes") after is.node_file.is_open at_n
          (nodes_there db files differ is.node_file.is_open))
        (rw
          (store_open-path db.edges (path_of "edges") after is.edge_file at_e
            (unmapped grants fuel db.edges is.edge_file (fs_unmap db.nodes.file files)))
          (returns (record {
            db = record { path = dbname; nodes = reopened db.nodes; edges = reopened db.edges };
            opened = refl;
            same_graph =
                Reopened-IsGraph db count graph dbname (reopened db.nodes) (reopened db.edges) is
                  (reopened-Reopened db.nodes is.node_file.is_open)
                  (reopened-Reopened db.edges is.edge_file);
            no_free_nodes = refl;
            no_free_edges = refl;
          })))
