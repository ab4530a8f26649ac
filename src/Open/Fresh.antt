-- ===== src/Open/Fresh.antt =====
-- A store whose file `store_open` has just created.
use adventure.Base.{
  ℕ, suc, ◌*◌, ◌^◌, ◌≤◌, ◌<◌, ◌≡◌, refl, sym, subst, ap, ◌∙◌, inl, some, true, le→leb, [], arith,
  ok, Returns, returns, Returns-eq,
}
use adventure.Memory.{Bytes, pokes, peeks}
use adventure.Memory.Words.{split64, join64-pokes}
use adventure.Fs.{FsMap, Os, Grants}
use adventure.Store.{Store, bytes_of, store_write, store_read}
use adventure.Store.Access.{word, written, read64-ok, write64-ok}
use adventure.Store.Valid.{IsOpen, IsOpen-written}
use adventure.Store.Alloc.{Allocated, store_alloc-Allocated}
use adventure.Page.{hdr_word}
use adventure.Page.Header.{Fields, hdr_word-Fields, hdr_word-lt}
use adventure.Page.Access.{header_write-ok}
use adventure.Btree.Tree.{btree_create}
use adventure.Open.{header_magic, store_write_hdr, store_read_hdr, zeroed, init_store, open_map}

-- The map of a file that was created with store_init_file_size bytes.
pub record IsInitial (m : FsMap) : Type 0 where
  pub size : m.size ≡ 64
  pub mapped : m.mapped ≡ 64
  pub length : m.image.length ≡ 64

-- The first six bytes are the magic.
magic_read : (m : Bytes) → peeks (pokes (pokes m 0 header_magic) 6 (split64 32)) 0 6 ≡ header_magic
unfolding pokes peeks
magic_read m = refl

-- The store after the header was written and read.
abbrev headed : FsMap → Store
headed m = record (written (written (zeroed m) 0 header_magic) 6 (split64 32)) {
  magic = header_magic;
  end = 32;
}

module _ (m : FsMap) (i : IsInitial m) where
  hdr_written :
      store_write_hdr (zeroed m)
      ≡ ok tt (written (written (zeroed m) 0 header_magic) 6 (split64 32))
  unfolding store_write_hdr store_write
  hdr_written =
      ground (arith, i.size, i.mapped, write64-ok (written (zeroed m) 0 header_magic) 6 32)

  hdr_read :
      store_read_hdr (written (written (zeroed m) 0 header_magic) 6 (split64 32)) ≡ ok tt (headed m)
  unfolding store_read_hdr store_read
  hdr_read =
      let s2 : Store = written (written (zeroed m) 0 header_magic) 6 (split64 32) in
      rw (le→leb 6 m.mapped (omega (arith, i.mapped))) (
        rw
          (
            read64-ok s2 6 (omega (arith, i.mapped)),
            join64-pokes (bytes_of (written (zeroed m) 0 header_magic)) 6 32,
            magic_read,
          )
          refl)

  headed-IsOpen : IsOpen (headed m)
  headed-IsOpen = record {
    live = omega (arith, i.size, i.mapped);
    sized = omega (arith, i.size, i.length);
    header = omega arith;
    within = omega (arith, i.size);
    synced = join64-pokes (bytes_of (written (zeroed m) 0 header_magic)) 6 32;
    small = omega (arith, i.size);
  }

-- A new store: `end` is behind the page of the root of the free tree, which is an empty leaf.
pub record IsFresh (g : Store) : Type 0 where
  pub is_open : IsOpen g
  pub end_at : g.end ≡ 96
  pub none_free : g.free_list ≡ some []
  pub root_at : g.free_root ≡ 32
  pub root_page : Fields (word g 32) 3 64 0 8

rooted-IsFresh :
    (h g : Store) (p : ℕ)
    → Allocated h 64 p g
    → h.end ≡ 32
    → IsFresh
        (record (written g p (split64 (hdr_word 3 64 0 8))) { free_list = some []; free_root = p })
rooted-IsFresh h g p a at =
    let e : p ≡ 32 = a.at_end ∙ at in
    let q =
      IsOpen-written g p (split64 (hdr_word 3 64 0 8)) (omega (arith, a.at_end)) a.IsOpen-after in
    let back : word (written g p (split64 (hdr_word 3 64 0 8))) 32 ≡ hdr_word 3 64 0 8 =
      ap (word (written g p (split64 (hdr_word 3 64 0 8)))) (sym e)
      ∙ join64-pokes (bytes_of g) p (hdr_word 3 64 0 8)
      ∙ omega (arith, hdr_word-lt 3 64 0 8) in
    record {
      is_open = record {
        live = q.live;
        sized = q.sized;
        header = q.header;
        within = q.within;
        synced = q.synced;
        small = q.small;
      };
      end_at = omega (arith, a.moved_end);
      none_free = refl;
      root_at = e;
      root_page =
          subst (λ (w : ℕ). Fields w 3 64 0 8) (sym back)
            (hdr_word-Fields 3 64 0 8 (omega arith) (omega arith) (omega arith) (omega arith));
    }

module _ {os : Os} {limit : ℕ} (grants : Grants os limit) (small : limit < 2 ^ 63) (k : ℕ)
    (m : FsMap) (i : IsInitial m) (room : 96 ≤ 64 * 2 ^ k) (granted : 64 * 2 ^ k ≤ limit) where
  -- From the map of a file of 64 bytes that was created just now, with room to grow (the file
  -- doubled k times holds what is asked for, within a granted limit below 2^63), store_open makes
  -- an open store whose free list is empty, whose free root is the page at 32 with the header of an
  -- empty root leaf of 64 bytes, and whose end is 96.
  pub open_map-IsFresh : Returns (λ _ g. IsFresh g) (open_map os (suc k) true m)
  unfolding open_map init_store btree_create
  open_map-IsFresh =
      let h = headed m in
      let sized : m.size * 2 ^ k ≡ 64 * 2 ^ k = ap (λ (t : ℕ). t * 2 ^ k) i.size in
      let (p, g, eq, a) = Returns-eq (
        store_alloc-Allocated grants small k 64 h (headed-IsOpen m i) (inl refl)
          (omega (arith, sized, room)) (omega (arith, sized, granted))) in
      rw (hdr_written m i) (
        rw (hdr_read m i) (
          rw eq (
            rw (header_write-ok g a.IsOpen-after p 3 64 0 8 (omega (arith, a.at_end, a.moved_end)))
              (returns (rooted-IsFresh h g p a refl)))))
