-- ===== src/Tests/Stores.antt =====
-- A file of nodes and a file of edges as stores.
use adventure.Base.{
  ℕ, ◌+◌, ◌≤◌, ◌<◌, ◌≡◌, refl, some, List, [], ◌∷◌, ◌==◌, inr, ◌⊎◌, if◌then◌else◌, ok, hang, u64,
  Returns, true, ◌>>◌, arith,
}
use adventure.Memory.{Bytes}
use adventure.Memory.Words.{join64, split64}
use adventure.Fs.{FsMap, fs_resize_file, fs_remap}
use adventure.Store.{
  Store, bytes_of, store_write_ui64, store_read_ui64, store_copy, store_alloc, store_extend,
}
use adventure.Store.Access.{word, written, read-write_ui64, store_copy_lem}
use adventure.Store.Reuse.{Reused, store_alloc_reuse, store_alloc-hang}
use adventure.Store.Valid.{IsOpen}
use adventure.Store.Alloc.{Allocated, store_alloc-Allocated}
use adventure.Page.{hdr_word}
use adventure.Page.Header.{Fields, hdr_word-Fields}
use adventure.Open.{open_map}
use adventure.Open.Fresh.{IsInitial, IsFresh, open_map-IsFresh}
use adventure.Nodes.{nodes_count}
use adventure.Nodes.Fresh.{open_map-nodes_count}
use adventure.Tests.Machine.{machine, full_disk, machine-Grants}

abbrev pub mapped_file : ℕ → Bytes → FsMap
mapped_file n m = record {
  path = "x";
  size = n;
  mapped = n;
  image = record { length = n; bytes = m };
}

-- Two nodes; the page of the first one's edges is at 32.
abbrev pub node_file : Store
node_file = record {
  magic = [];
  end = 64;
  file = mapped_file 64 (λ a. if a == 13 then 64 else if a == 39 then 32 else 0);
  free_list = some [];
  free_root = 0;
}

-- One page of two edges, to 1 and to 0.
abbrev pub edge_file : Store
edge_file = record {
  magic = [];
  end = 56;
  file =
      mapped_file 64
        (λ a. if a == 13 then 56 else if a == 39 then 24 else if a == 47 then 1 else 0);
  free_list = some [];
  free_root = 0;
}

pub node_file-IsOpen : IsOpen node_file
unfolding join64
node_file-IsOpen = record {
  live = refl;
  sized = refl;
  header = omega arith;
  within = omega arith;
  synced = refl;
  small = omega arith;
}

pub edge_file-IsOpen : IsOpen edge_file
unfolding join64
edge_file-IsOpen = record {
  live = refl;
  sized = refl;
  header = omega arith;
  within = omega arith;
  synced = refl;
  small = omega arith;
}

read-write_ui64_example :
    ((store_write_ui64 40 7 >> store_read_ui64 40) edge_file
      ≡ ok (u64 7) (written edge_file 40 (split64 7)))
    × ((q : ℕ)
        → (q + 8 ≤ 40) ⊎ (48 ≤ q)
        → word (written edge_file 40 (split64 7)) q ≡ word edge_file q)
read-write_ui64_example = read-write_ui64 edge_file 40 7 (omega arith)

store_copy_lem_example :
    (out : Store) × (store_copy 48 40 8 edge_file ≡ ok tt out)
    × ((i : ℕ) → i < 8 → bytes_of out (48 + i) ≡ bytes_of edge_file (40 + i))
    × ((a : ℕ) → (a < 48) ⊎ (56 ≤ a) → bytes_of out a ≡ bytes_of edge_file a)
store_copy_lem_example =
    store_copy_lem edge_file 48 40 8 (omega arith) (omega arith) (inr (omega arith))

-- The file is doubled once.
store_alloc-Allocated_example :
    Returns (Allocated edge_file 24) (store_alloc machine 2 24 edge_file)
store_alloc-Allocated_example =
    store_alloc-Allocated machine-Grants (omega arith) 1 24 edge_file edge_file-IsOpen (inr refl)
      (omega arith) (omega arith)

abbrev pub with_free : List ℕ → Store
with_free ps = record edge_file { free_list = some ps }

pub with_free-IsOpen : (ps : List ℕ) → IsOpen (with_free ps)
unfolding join64
with_free-IsOpen ps = record {
  live = refl;
  sized = refl;
  header = omega arith;
  within = omega arith;
  synced = refl;
  small = omega arith;
}

store_alloc_reuse_example :
    Returns (Reused (with_free (32 ∷ [])) 32 []) (store_alloc machine 4 300 (with_free (32 ∷ [])))
store_alloc_reuse_example =
    store_alloc_reuse machine-Grants (omega arith) 3 300 32 [] (with_free (32 ∷ []))
      (with_free-IsOpen (32 ∷ [])) refl (omega arith) (omega arith)

stuck : store_extend full_disk edge_file ≡ (0, edge_file)
unfolding store_extend fs_resize_file fs_remap
stuck = refl

store_alloc-hang_example : store_alloc full_disk 1000 24 edge_file ≡ hang
store_alloc-hang_example = store_alloc-hang full_disk 1000 24 edge_file stuck refl

hdr_word-Fields_example : Fields (hdr_word 3 64 2 40) 3 64 2 40
hdr_word-Fields_example =
    hdr_word-Fields 3 64 2 40 (omega arith) (omega arith) (omega arith) (omega arith)

abbrev pub new_map : FsMap
new_map = mapped_file 64 (λ a. 0)

pub new_map-IsInitial : IsInitial new_map
new_map-IsInitial = record { size = refl; mapped = refl; length = refl }

open_map-IsFresh_example : Returns (λ _ g. IsFresh g) (open_map machine 2 true new_map)
open_map-IsFresh_example =
    open_map-IsFresh machine-Grants (omega arith) 1 new_map new_map-IsInitial (omega arith)
      (omega arith)

open_map-nodes_count_example : Returns (λ _ g. nodes_count g ≡ 4) (open_map machine 2 true new_map)
open_map-nodes_count_example =
    open_map-nodes_count machine-Grants (omega arith) 1 new_map new_map-IsInitial (omega arith)
      (omega arith)
