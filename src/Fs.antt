-- ===== src/Fs.antt =====
-- src/util/fs.c: files and memory maps. The operating system's calls are not part of the program:
-- they are the fields of `Os`, and what the proofs need of them is the hypothesis `Grants`.
-- A live map is `MAP_SHARED`, so the mapped bytes are the file's own; `mapped` is how many of
-- them may be touched (0 after `munmap` or a failed `mmap`), `size` is the C field.
pub mod Granted
use Prim.Native.String.{String}
use text.Mathlib.Text.{◌==◌ as str_eq}
use adventure.Base.{ℕ, ◌≤◌, ◌<◌, ◌≡◌, Bool, true, false, Option, none, some, ◌==◌, if◌then◌else◌}
use adventure.Memory.{Bytes}

-- A regular file: `st_size`, and its bytes.
pub record FileImage : Type 0 where
  pub length : ℕ
  pub bytes : Bytes

-- `struct fs_map`. The `data` pointer leads into `image.bytes`.
pub record FsMap : Type 0 where
  pub path : String
  pub size : ℕ
  pub mapped : ℕ
  pub image : FileImage

-- The regular files, by path; `none` where `stat` fails.
abbrev pub Files : Type 0
Files = String → Option FileImage

-- `errno` 0 is success, as in the C library.
pub record Os : Type 0 where
  pub mkdir_errno : String → ℕ
  -- `open(path, O_CREAT | O_WRONLY, …)`: errno, and the file as it stands then
  pub create : String → Files → ℕ × FileImage
  -- `open(path, O_WRONLY)` and `open(path, O_RDWR)` of a file that is there
  pub open_errno : String → FileImage → ℕ
  -- `ftruncate(fd, n)`: errno, and the file as it stands then
  pub ftruncate : ℕ → FileImage → ℕ × FileImage
  pub mmap_works : FileImage → Bool

-- The documented behaviour of the calls on a file that may grow up to `limit` bytes.
pub record Grants (os : Os) (limit : ℕ) : Type 0 where
  pub opens : (p : String) (f : FileImage) → os.open_errno p f ≡ 0
  pub maps : (f : FileImage) → os.mmap_works f ≡ true
  pub truncates : (n : ℕ) (f : FileImage) → n ≤ limit → (os.ftruncate n f).0 ≡ 0
  pub grows : (n : ℕ) (f : FileImage) → n ≤ limit → (os.ftruncate n f).1.length ≡ n
  pub keeps :
      (n : ℕ) (f : FileImage) (a : ℕ)
      → n ≤ limit
      → f.length ≤ n
      → a < f.length
      → (os.ftruncate n f).1.bytes a ≡ f.bytes a

-- The `errno` of a call on a descriptor that is not open.
abbrev ebadf : ℕ
ebadf = 9

unfoldable pub fs_exists : Files → String → Bool
fs_exists files path = elim (files path) [ none ↦ false | some f ↦ true ]

-- `munmap` and `free`: the bytes written are in the file.
unfoldable pub fs_unmap : FsMap → Files → Files
fs_unmap m files = λ q. if str_eq q m.path then some m.image else files q

module _ (os : Os) where
  -- `check_debug` sets `errno` to 0 before it is returned.
  unfoldable pub fs_create_dir : String → ℕ
  fs_create_dir path = if os.mkdir_errno path == 0 then 0 else 0

  -- The `errno` of `ftruncate` is not looked at; that of a failed `open` is replaced by the one of
  -- `close(-1)`.
  unfoldable pub fs_create_file : String → ℕ → Files → ℕ × Files
  fs_create_file path size files =
      let (e, f) = os.create path files in
      if e == 0
      then (0, λ q. if str_eq q path then some (os.ftruncate size f).1 else files q)
      else (ebadf, files)

  -- On a file that is mapped: the image is the file at `path`. `check` sets `errno` to 0 before it is
  -- returned, whether `open` or `ftruncate` failed.
  unfoldable pub fs_resize_file : String → ℕ → FileImage → ℕ × FileImage
  fs_resize_file path size f = (0, if os.open_errno path f == 0 then (os.ftruncate size f).1 else f)

  -- `true` is the result 0, `false` is -1. A failed `mmap` gives `MAP_FAILED`, which is not NULL,
  -- so `check_mem` lets it pass.
  unfoldable pub fs_map_internal : FsMap → Bool × FsMap
  fs_map_internal m =
      if os.open_errno m.path m.image == 0
      then (if m.image.length == 0 then (false, m) else (
        true,
        record m {
          size = m.image.length;
          mapped = if os.mmap_works m.image then m.image.length else 0;
        },
      ))
      else (false, m)

  unfoldable pub fs_map : String → Files → Option FsMap
  unfolding fs_map_internal
  fs_map path files = elim (files path) [
    | none ↦ none
    | some f ↦
        let (good, m) = fs_map_internal (record { path = path; size = 0; mapped = 0; image = f }) in
        if good then some m else none
  ]

  -- The result of `fs_map_internal` is not looked at.
  unfoldable pub fs_remap : FsMap → FsMap
  unfolding fs_map_internal
  fs_remap m = (fs_map_internal (record m { mapped = 0 })).1
