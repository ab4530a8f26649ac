-- ===== src/Open/Again.antt =====
-- Opening the file of a store that was closed.
use text.Mathlib.TextPositions.{eq_refl}
use adventure.Memory.{peeks}
use adventure.Base.{ℕ, ◌≤◌, ◌≡◌, refl, ap, false, some, [], arith, ok, le→leb, ne→==, if◌then◌else◌}
use adventure.Fs.{Files, FsMap, Os, Grants, fs_exists, fs_map, fs_map_internal, fs_unmap}
use adventure.Store.{Store, bytes_of, store_read}
use adventure.Store.Access.{word, read64-ok}
use adventure.Store.Valid.{IsOpen}
use adventure.Open.{zeroed, store_read_hdr, open_map, open_existing, store_open}

-- The store `g` has the bytes and the size that `s` had, and its free list is empty.
pub record Reopened (s g : Store) : Type 0 where
  pub is_open : IsOpen g
  pub same_end : g.end ≡ s.end
  pub same_size : g.file.size ≡ s.file.size
  pub same_bytes : bytes_of g ≡ bytes_of s
  pub none_free : g.free_list ≡ some []

-- The map of the file.
abbrev remapped : Store → FsMap
remapped s = record {
  path = s.file.path;
  size = s.file.image.length;
  mapped = s.file.image.length;
  image = s.file.image;
}

-- The store after the header was read, and once it is open.
abbrev headed : Store → Store
headed s = record (zeroed (remapped s)) { magic = peeks (bytes_of s) 0 6; end = word s 6 }

abbrev pub reopened : Store → Store
reopened s = record (headed s) { free_list = some [] }

pub reopened-Reopened : (s : Store) → IsOpen s → Reopened s (reopened s)
reopened-Reopened s o = record {
  is_open = record {
    live = refl;
    sized = refl;
    header = omega (arith, o.synced, o.header);
    within = omega (arith, o.synced, o.within, o.sized);
    synced = refl;
    small = omega (arith, o.sized, o.small);
  };
  same_end = o.synced;
  same_size = o.sized;
  same_bytes = refl;
  none_free = refl;
}

module _ {os : Os} {limit : ℕ} (grants : Grants os limit) (fuel : ℕ) (s : Store)
    (o : IsOpen s) where
  behind_header : 32 ≤ s.file.image.length
  behind_header = omega (arith, o.sized, o.header, o.within)

  hdr_read : store_read_hdr (zeroed (remapped s)) ≡ ok tt (headed s)
  unfolding store_read_hdr store_read
  hdr_read =
      rw (le→leb 6 s.file.image.length (omega (arith, behind_header)))
        (rw (read64-ok (zeroed (remapped s)) 6 (omega (arith, behind_header))) refl)

  open_map-headed : open_map os fuel false (remapped s) ≡ ok tt (reopened s)
  unfolding open_map
  open_map-headed = rw hdr_read refl

  fs_map-remapped :
      (files : Files)
      → files s.file.path ≡ some s.file.image
      → fs_map os s.file.path files ≡ some (remapped s)
  unfolding fs_map fs_map_internal
  fs_map-remapped files e =
      rw (fs_map, e)
        (rw
          (
            grants.opens s.file.path s.file.image,
            grants.maps s.file.image,
            ne→== s.file.image.length 0 (omega (arith, behind_header)),
          )
          refl)

  pub unmapped : (files : Files) → fs_unmap s.file files s.file.path ≡ some s.file.image
  unfolding fs_unmap
  unmapped files =
      ap (λ b. if b then some s.file.image else files s.file.path) (eq_refl s.file.path)

  opened :
      (files : Files)
      → files s.file.path ≡ some s.file.image
      → open_existing os fuel false s.file.path files ≡ ok (some (reopened s)) files
  unfolding open_existing
  opened files e =
      rw (fs_map-remapped files e, open_existing) (rw (open_map-headed, open_existing) refl)

  pub store_open-there :
      (files : Files)
      → files s.file.path ≡ some s.file.image
      → store_open os fuel s.file.path false files ≡ ok (some (reopened s)) files
  unfolding store_open fs_exists
  store_open-there files e = rw (fs_exists, e) (opened files e)
