-- ===== src/Store/Access.antt =====
-- Reading and writing words of the mapped file: what is written reads back, and no other byte
-- changes.
use adventure.Base.{
  ℕ, ◌+◌, ◌≤◌, ◌<◌, ◌≡◌, ◌∙◌, ap, ◌⊎◌, List, le→leb, u16, u32, u64, arith, ok, ◌>>◌,
}
use adventure.Memory.{pokes, peeks, pokes-peeks, pokes_outside, length-peeks}
use adventure.Memory.Words.{
  split16, split32, split64, join64, join16-pokes, join32-pokes, join64-pokes, join64-pokes_outside,
  join64_ext,
}
use adventure.Store.{
  Store, bytes_of, with_bytes, apart, store_write_ui16, store_write_ui32, store_write_ui64,
  store_read_ui16, store_read_ui32, store_read_ui64, store_copy,
}

-- The word that the file holds at `p`.
abbrev pub word : Store → ℕ → ℕ
word s p = join64 (bytes_of s) p

-- The store after a run of bytes was written.
abbrev pub written : Store → ℕ → List ℕ → Store
written s p bs = with_bytes s (pokes (bytes_of s) p bs)

module _ (s : Store) (p : ℕ) where
  pub read64-ok : p + 8 ≤ s.file.mapped → store_read_ui64 p s ≡ ok (word s p) s
  unfolding store_read_ui64
  read64-ok h = rw (le→leb (p + 8) s.file.mapped h)

  pub write64-ok :
      (n : ℕ) → p + 8 ≤ s.file.mapped → store_write_ui64 p n s ≡ ok tt (written s p (split64 n))
  unfolding store_write_ui64
  write64-ok n h = rw (le→leb (p + 8) s.file.mapped h)

  -- A 64-bit word that is written inside the mapping reads back as itself modulo 2^64, and every
  -- word that does not overlap it is as it was.
  pub read-write_ui64 :
      (n : ℕ)
      → p + 8 ≤ s.file.mapped
      → ((store_write_ui64 p n >> store_read_ui64 p) s ≡ ok (u64 n) (written s p (split64 n)))
        × ((q : ℕ) → (q + 8 ≤ p) ⊎ (p + 8 ≤ q) → word (written s p (split64 n)) q ≡ word s q)
  read-write_ui64 n h =
      ((rw (write64-ok n h) after), λ q far. join64-pokes_outside (bytes_of s) p q (split64 n) far)
    where
      after : store_read_ui64 p (written s p (split64 n)) ≡ ok (u64 n) (written s p (split64 n))
      after = unfold store_read_ui64 in rw (le→leb (p + 8) s.file.mapped h, join64-pokes)

  pub read-write_ui32 :
      (n : ℕ)
      → p + 4 ≤ s.file.mapped
      → (store_write_ui32 p n >> store_read_ui32 p) s ≡ ok (u32 n) (written s p (split32 n))
  unfolding store_write_ui32 store_read_ui32
  read-write_ui32 n h =
      rw (le→leb (p + 4) s.file.mapped h, le→leb (p + 4) s.file.mapped h, join32-pokes)

  pub read-write_ui16 :
      (n : ℕ)
      → p + 2 ≤ s.file.mapped
      → (store_write_ui16 p n >> store_read_ui16 p) s ≡ ok (u16 n) (written s p (split16 n))
  unfolding store_write_ui16 store_read_ui16
  read-write_ui16 n h =
      rw (le→leb (p + 2) s.file.mapped h, le→leb (p + 2) s.file.mapped h, join16-pokes)

-- The store after `n` bytes were copied from `si` to `di`.
abbrev pub copied : Store → ℕ → ℕ → ℕ → Store
copied s di si n = with_bytes s (pokes (bytes_of s) di (peeks (bytes_of s) si n))

copied_none : (s : Store) (di si n : ℕ) → n ≡ 0 → s ≡ copied s di si n
unfolding pokes peeks
copied_none s di si n e = rw e

module _ (s : Store) (di si n : ℕ) (into : di + n ≤ s.file.mapped) (from : si + n ≤ s.file.mapped)
    (far : (di + n ≤ si) ⊎ (si + n ≤ di)) where
  pub copy-ok : store_copy di si n s ≡ ok tt (copied s di si n)
  unfolding store_copy apart
  copy-ok = ground (arith, copied_none s di si n)

  -- A copy between two mapped areas that do not overlap succeeds, moves every byte, and changes no
  -- byte outside the destination.
  pub store_copy_lem :
      (out : Store) × (store_copy di si n s ≡ ok tt out)
      × ((i : ℕ) → i < n → bytes_of out (di + i) ≡ bytes_of s (si + i))
      × ((a : ℕ) → (a < di) ⊎ (di + n ≤ a) → bytes_of out a ≡ bytes_of s a)
  store_copy_lem = (
    copied s di si n,
    copy-ok,
    λ i lt. pokes-peeks (bytes_of s) di si n i lt,
    λ a out.
        pokes_outside (bytes_of s) di (peeks (bytes_of s) si n) a
          (omega (arith, length-peeks (bytes_of s) si n)),
  )

-- A whole word inside the copied area.
pub word-copied :
    (s : Store) (di si n k : ℕ) → k + 8 ≤ n → word (copied s di si n) (di + k) ≡ word s (si + k)
word-copied s di si n k h =
    join64_ext (bytes_of s) (bytes_of (copied s di si n)) (si + k) (di + k) (λ i lt.
      ap (bytes_of (copied s di si n)) (omega arith)
      ∙ pokes-peeks (bytes_of s) di si n (k + i) (omega arith)
      ∙ ap (bytes_of s) (omega arith))

-- A word outside it.
pub word-copied_outside :
    (s : Store) (di si n q : ℕ) → (q + 8 ≤ di) ⊎ (di + n ≤ q) → word (copied s di si n) q ≡ word s q
word-copied_outside s di si n q h =
    join64-pokes_outside (bytes_of s) di q (peeks (bytes_of s) si n)
      (omega (arith, length-peeks (bytes_of s) si n))
