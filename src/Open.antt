-- ===== src/Open.antt =====
-- `store_open`, `store_close` and the file header of src/db/store/store.c. An open store has the
-- file's bytes with it; they are the file's again when it is closed.
pub mod Fresh
pub mod Again
use Prim.Native.String.{String}
use adventure.Base.{
  ℕ, Bool, true, false, not, Option, none, some, List, [], ◌∷◌, ◌==◌, if◌then◌else◌, Out, Cmd, ok,
  fault, hang, ◌>>=◌, ◌>>◌,
}
use adventure.Fs.{Files, FsMap, Os, fs_exists, fs_create_file, fs_map, fs_unmap}
use adventure.Store.{
  Store, store_init_file_size, store_header_size, store_write, store_write_ui64, store_read,
  store_read_ui64,
}
use adventure.Btree.Tree.{btree_create}

-- "ADVDB!"
abbrev pub header_magic : List ℕ
header_magic = b'A' ∷ b'D' ∷ b'V' ∷ b'D' ∷ b'B' ∷ b'!' ∷ []

unfoldable pub store_write_hdr : Cmd Store (Unit {0})
store_write_hdr = do store_write 0 header_magic; store_write_ui64 6 store_header_size

unfoldable pub store_read_hdr : Cmd Store (Unit {0})
store_read_hdr = do
  magic ← store_read 0 6
  end ← store_read_ui64 6
  λ s. ok tt (record s { magic = magic; end = end })

-- `calloc` and the map: every other field is zero.
abbrev pub zeroed : FsMap → Store
zeroed m = record { magic = []; end = 0; file = m; free_list = none; free_root = 0 }

module _ (os : Os) (fuel : ℕ) where
  -- The header, and the page for the root of the free tree.
  unfoldable pub init_store : Cmd Store (Unit {0})
  init_store = do
    store_write_hdr
    store_read_hdr
    free_root ← btree_create os fuel
    λ s. ok tt (record s { free_root = free_root })

  -- What `store_open` does with the map: `fresh` if the file was created just now.
  unfoldable pub open_map : Bool → FsMap → Out Store (Unit {0})
  unfolding init_store
  open_map fresh m =
      (do
        if fresh then init_store else store_read_hdr
        λ s. ok tt (record s { free_list = some [] }))
        (zeroed m)

  -- The rest of `store_open`, from a file that is there.
  open_existing : Bool → String → Cmd Files (Option Store)
  unfolding open_map
  open_existing fresh name files = elim (fs_map os name files) [
    | none ↦ ok none files
    | some m ↦ elim (open_map fresh m) [ ok u s ↦ ok (some s) files | fault ↦ fault | hang ↦ hang ]
  ]

  -- `none` is NULL; `create` is `flags & STORE_O_CREAT`.
  unfoldable pub store_open : String → Bool → Cmd Files (Option Store)
  unfolding open_existing
  store_open name create files =
      let made = fs_create_file os name store_init_file_size files in
      if fs_exists files name
      then open_existing false name files
      else if not create
      then ok none files
      else if made.0 == 0
      then open_existing true name made.1
      else ok none made.1

unfoldable pub store_close : Store → Cmd Files (Unit {0})
store_close s files = ok tt (fs_unmap s.file files)
