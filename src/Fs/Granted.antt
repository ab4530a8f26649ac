-- ===== src/Fs/Granted.antt =====
-- The file operations of src/util/fs.c where the operating system grants the calls.
use Prim.Native.String.{String}
use adventure.Base.{ℕ, ◌≡◌, ◌≢◌, arith}
use adventure.Fs.{FileImage, FsMap, Os, Grants, fs_resize_file, fs_map_internal, fs_remap}

module _ {os : Os} {limit : ℕ} (grants : Grants os limit) where
  pub fs_resize_file-eq :
      (p : String) (n : ℕ) (f : FileImage) → fs_resize_file os p n f ≡ (0, (os.ftruncate n f).1)
  unfolding fs_resize_file
  fs_resize_file-eq p n f = rw (grants.opens p f)

  pub fs_remap-eq :
      (m : FsMap)
      → m.image.length ≢ 0
      → fs_remap os m ≡ record m { size = m.image.length; mapped = m.image.length }
  unfolding fs_remap fs_map_internal
  fs_remap-eq m h = ground (arith, grants.opens m.path m.image, grants.maps m.image)
