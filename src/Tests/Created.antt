-- ===== src/Tests/Created.antt =====
-- The files of a database as `store_open` makes them.
use Prim.Native.String.{String}
use adventure.Base.{◌≡◌, refl, true, none, Out, ok, hang, fault, Returns, returns, arith}
use adventure.Fs.{FsMap, fs_resize_file, fs_remap, fs_map_internal}
use adventure.Memory.{pokes}
use adventure.Memory.Words.{join64}
use adventure.Store.{
  Store, store_extend, store_alloc, store_resize, take_page, end_page, store_write,
  store_write_ui64, store_read, store_read_ui64,
}
use adventure.Page.{hdr_write, write_ui64}
use adventure.Btree.Tree.{btree_create}
use adventure.Open.{open_map, init_store, store_read_hdr, store_write_hdr, zeroed}
use adventure.Open.Fresh.{IsInitial, IsFresh, open_map-IsFresh}
use adventure.Tests.Machine.{machine, machine-Grants}
use adventure.Tests.Stores.{new_map}

-- The state that a run leaves, `old` if it does not return.
abbrev pub left_by : {S A : Type 0} → S → Out S A → S
left_by old (ok a s) = s
left_by old fault = old
left_by old hang = old

pub left_by-holds :
    {S A : Type 0} (old : S) (P : A → S → Type 0) (r : Out S A)
    → Returns P r
    → (a : A) × P a (left_by old r)
left_by-holds old P _ (returns p) = (_, p)

-- The map of the file at a path that was created just now.
abbrev pub map_at : String → FsMap
map_at path = record {
  path = path;
  size = 64;
  mapped = 64;
  image = (machine.ftruncate 64 (machine.create path (λ p. none)).1).1;
}

map_at-IsInitial : (path : String) → IsInitial (map_at path)
map_at-IsInitial path = record { size = refl; mapped = refl; length = refl }

abbrev pub created : String → Store
created path = left_by (zeroed new_map) (open_map machine 2 true (map_at path))

pub created-IsFresh : (path : String) → IsFresh (created path)
created-IsFresh path =
    (left_by-holds (zeroed new_map) (λ _ s. IsFresh s) (open_map machine 2 true (map_at path))
      (open_map-IsFresh machine-Grants (omega arith) 1 (map_at path) (map_at-IsInitial path)
        (omega arith) (omega arith))).1

pub created-size : (path : String) → (created path).file.size ≡ 128
unfolding open_map init_store store_extend store_alloc store_read_hdr store_write_hdr join64
    fs_resize_file fs_remap fs_map_internal store_resize take_page end_page store_write
    store_write_ui64 store_read store_read_ui64 btree_create pokes hdr_write write_ui64
created-size path = refl
