-- ===== src/Store.antt =====
-- src/db/store/store.h and store.c: the managed store over a mapped file, with its access to
-- words and its page allocator. A pointer into the file is a byte offset. An access beyond the
-- mapping, a `memcpy` between overlapping areas and a write through a NULL free list are faults.
-- The free list is the list of page pointers that `struct list` holds, first element first.
pub mod Access
pub mod Valid
pub mod Alloc
pub mod Reuse
use Prim.Native.String.{String}
use adventure.Base.{
  ℕ, zero, suc, ◌+◌, ◌-◌, ◌*◌, ◌^◌, ◌≤◌, ◌≡◌, Bool, true, false, Option, none, some, List, [], ◌∷◌,
  ltb, leb, ◌==◌, ◌||◌, ◌&&◌, if◌then◌else◌, u64, length, Out, Cmd, ok, fault, hang, pure, ◌>>=◌,
  ◌>>◌, and_then,
}
use adventure.Memory.{Bytes, pokes, peeks}
use adventure.Memory.Words.{split16, split32, split64, join16, join32, join64}
use adventure.Fs.{
  FileImage, FsMap, Files, Os, fs_exists, fs_create_file, fs_map, fs_unmap, fs_resize_file,
  fs_remap,
}

-- `free_list` is NULL until `store_open` has created the list.
pub record Store : Type 0 where
  pub magic : List ℕ
  pub end : ℕ
  pub file : FsMap
  pub free_list : Option (List ℕ)
  pub free_root : ℕ

abbrev pub store_init_file_size : ℕ
store_init_file_size = 64

abbrev pub store_header_size : ℕ
store_header_size = 32

-- The mapped bytes.
abbrev pub bytes_of : Store → Bytes
bytes_of s = s.file.image.bytes

abbrev pub with_bytes : Store → Bytes → Store
with_bytes s m = record s { file = record s.file { image = record s.file.image { bytes = m } } }

-- The `n` bytes at `p` are mapped.
abbrev pub in_map : Store → ℕ → ℕ → Bool
in_map s p n = leb (p + n) s.file.mapped

put_run : ℕ → List ℕ → Cmd Store (Unit {0})
put_run p bs s =
    if in_map s p (length bs) then ok tt (with_bytes s (pokes (bytes_of s) p bs)) else fault

-- The check does not look at `p`; where it fails nothing is written.
unfoldable pub store_write : ℕ → List ℕ → Cmd Store (Unit {0})
unfolding put_run
store_write p bs s = if ltb (u64 (s.end + length bs)) s.file.size then put_run p bs s else ok tt s

unfoldable pub store_write_ui16 : ℕ → ℕ → Cmd Store (Unit {0})
unfolding put_run
store_write_ui16 p n = put_run p (split16 n)

unfoldable pub store_write_ui32 : ℕ → ℕ → Cmd Store (Unit {0})
unfolding put_run
store_write_ui32 p n = put_run p (split32 n)

unfoldable pub store_write_ui64 : ℕ → ℕ → Cmd Store (Unit {0})
unfolding put_run
store_write_ui64 p n = put_run p (split64 n)

-- The pointer that C returns, as the bytes that the caller may read through it.
unfoldable pub store_read : ℕ → ℕ → Cmd Store (List ℕ)
store_read p n s = if in_map s p n then ok (peeks (bytes_of s) p n) s else fault

unfoldable pub store_read_ui16 : ℕ → Cmd Store ℕ
store_read_ui16 p s = if in_map s p 2 then ok (join16 (bytes_of s) p) s else fault

unfoldable pub store_read_ui32 : ℕ → Cmd Store ℕ
store_read_ui32 p s = if in_map s p 4 then ok (join32 (bytes_of s) p) s else fault

unfoldable pub store_read_ui64 : ℕ → Cmd Store ℕ
store_read_ui64 p s = if in_map s p 8 then ok (join64 (bytes_of s) p) s else fault

-- `memcpy` wants areas that do not overlap.
apart : ℕ → ℕ → ℕ → Bool
apart di si n = leb (di + n) si || leb (si + n) di

unfoldable pub store_copy : ℕ → ℕ → ℕ → Cmd Store (Unit {0})
unfolding apart
store_copy di si n s =
    if n == 0
    then ok tt s
    else if in_map s di n && in_map s si n && apart di si n
    then ok tt (with_bytes s (pokes (bytes_of s) di (peeks (bytes_of s) si n)))
    else fault

module _ (os : Os) where
  -- The result is always 0; the results of the file calls are not looked at.
  unfoldable pub store_resize : ℕ → Store → ℕ × Store
  store_resize size s =
      if ltb size s.file.size
      then (0, s)
      else let f = (fs_resize_file os s.file.path size s.file.image).1 in
        (0, record s { file = fs_remap os (record s.file { image = f }) })

  unfoldable pub store_extend : Store → ℕ × Store
  unfolding store_resize
  store_extend s = store_resize (u64 (s.file.size * 2)) s

  -- A page from the end of the file.
  unfoldable pub end_page : ℕ → Cmd Store ℕ
  end_page size s =
      let moved = record s { end = u64 (s.end + size) } in
      (store_write_ui64 6 (u64 (s.end + size)) >> pure s.end) moved

  -- What follows the check for free space: the front of the free list, whatever the page's size.
  unfoldable pub take_page : ℕ → Option (List ℕ) → Cmd Store ℕ
  unfolding end_page
  take_page size none s = end_page size s
  take_page size (some []) s = end_page size s
  take_page size (some (p ∷ ps)) s = ok p (record s { free_list = some ps })

  -- `size_t free_space = s->file->size - s->end`, which wraps.
  abbrev pub free_space : Store → ℕ
  free_space s = u64 (s.file.size + 2 ^ 64 - s.end)

  -- Recursion on fuel; `check(store_extend(s) == 0, …)` returns 0 where it fails.
  unfoldable pub store_alloc : ℕ → ℕ → Cmd Store ℕ
  unfolding store_extend take_page
  store_alloc zero size s = hang
  store_alloc (suc k) size s =
      let (code, s') = store_extend s in
      let again = store_alloc k size s' in
      if ltb (free_space s) size
      then (if code == 0 then again else ok 0 s')
      else take_page size s.free_list s

-- `list_unshift` on the free list.
unfoldable pub store_free : ℕ → Cmd Store (Unit {0})
store_free p s = elim s.free_list [
  | none ↦ fault
  | some ps ↦ ok tt (record s { free_list = some (p ∷ ps) })
]
