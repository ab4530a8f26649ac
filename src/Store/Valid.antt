-- ===== src/Store/Valid.antt =====
-- Open stores, and writes that keep them open.
use adventure.Base.{ℕ, ◌^◌, ◌≤◌, ◌<◌, ◌≡◌, ◌∙◌, inl, Option, List}
use adventure.Memory.{peeks}
use adventure.Memory.Words.{join64-pokes_outside}
use adventure.Store.{Store, bytes_of}
use adventure.Store.Access.{word, written, copied}

-- A store that is open: the whole file is mapped, `end` lies in it behind the header, and the
-- header of the file holds `end`.
pub record IsOpen (s : Store) : Type 0 where
  pub live : s.file.mapped ≡ s.file.size
  pub sized : s.file.image.length ≡ s.file.size
  pub header : 32 ≤ s.end
  pub within : s.end ≤ s.file.size
  pub synced : word s 6 ≡ s.end
  pub small : s.file.size < 2 ^ 63

-- Writing behind the `end` field keeps a store open.
pub IsOpen-written : (s : Store) (p : ℕ) (bs : List ℕ) → 14 ≤ p → IsOpen s → IsOpen (written s p bs)
IsOpen-written s p bs h o = record {
  live = o.live;
  sized = o.sized;
  header = o.header;
  within = o.within;
  synced = join64-pokes_outside (bytes_of s) p 6 bs (inl h) ∙ o.synced;
  small = o.small;
}

pub IsOpen-copied : (s : Store) (di si n : ℕ) → 14 ≤ di → IsOpen s → IsOpen (copied s di si n)
IsOpen-copied s di si n h o = IsOpen-written s di (peeks (bytes_of s) si n) h o

-- The list of free pages is no part of the file.
pub IsOpen-list : (s : Store) (l : Option (List ℕ)) → IsOpen s → IsOpen (record s { free_list = l })
IsOpen-list s l o = record {
  live = o.live;
  sized = o.sized;
  header = o.header;
  within = o.within;
  synced = o.synced;
  small = o.small;
}
