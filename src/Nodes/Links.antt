-- ===== src/Nodes/Links.antt =====
-- The link of a node to its edges: reading it, and setting it.
use adventure.Base.{
  ℕ, ◌+◌, ◌*◌, ◌^◌, ◌≤◌, ◌<◌, ◌≡◌, ◌≢◌, refl, ◌∙◌, ◌⊎◌, inl, inr, arith, u64, ok, ltb, ltb→lt,
  ltb→le, Bool-cases,
}
use adventure.Memory.Words.{split64, join64-pokes, join64-pokes_outside}
use adventure.Store.{Store, bytes_of}
use adventure.Store.Access.{word, written, read64-ok, write64-ok}
use adventure.Store.Valid.{IsOpen-written}
use adventure.Nodes.{nodes_edges_from, nodes_edges_set}
use adventure.Nodes.Add.{item, NodeFile}

module _ (s : Store) (count node : ℕ) (f : NodeFile s count) (there : node < count) where
  pub edges_from-eq : nodes_edges_from node s ≡ ok (word s (item node)) s
  unfolding nodes_edges_from
  edges_from-eq =
      let o = f.is_open in
      let fits : u64 (32 + 16 * node) ≡ item node = omega (arith, f.items, o.within, o.small) in
      rw fits (read64-ok s (item node) (omega (arith, f.items, o.within, o.live)))

  pub edges_set-eq : (e : ℕ) → nodes_edges_set node e s ≡ ok 0 (written s (item node) (split64 e))
  unfolding nodes_edges_set
  edges_set-eq e =
      let o = f.is_open in
      let fits : u64 (32 + 16 * node) ≡ item node = omega (arith, f.items, o.within, o.small) in
      rw fits (rw (write64-ok s (item node) e (omega (arith, f.items, o.within, o.live))) refl)

  pub set-NodeFile : (e : ℕ) → NodeFile (written s (item node) (split64 e)) count
  set-NodeFile e = record {
    is_open = IsOpen-written s (item node) (split64 e) (omega arith) f.is_open;
    items = f.items;
  }

  pub set-same : (e : ℕ) → e < 2 ^ 64 → word (written s (item node) (split64 e)) (item node) ≡ e
  set-same e h = join64-pokes (bytes_of s) (item node) e ∙ omega arith

-- The other links stay.
pub set-other :
    (s : Store) (node e j : ℕ)
    → j ≢ node
    → word (written s (item node) (split64 e)) (item j) ≡ word s (item j)
set-other s node e j h = join64-pokes_outside (bytes_of s) (item node) (item j) (split64 e) far
  where
    far : (item j + 8 ≤ item node) ⊎ (item node + 8 ≤ item j)
    far = elim (Bool-cases (ltb j node)) [
      | inl below ↦ inl (omega (arith, ltb→lt j node below))
      | inr not_below ↦ inr (omega (arith, ltb→le j node not_below))
    ]
