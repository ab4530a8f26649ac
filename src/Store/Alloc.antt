-- ===== src/Store/Alloc.antt =====
-- The page allocator of src/db/store/store.c: what `store_extend` and `store_alloc` do to an
-- open store, when the file can grow and when it cannot.
use adventure.Store.Valid.{IsOpen}
use native.Mathlib.Nat.{pow-suc, one-le-pow}
use adventure.Base.{
  ℕ, zero, suc, ◌+◌, ◌*◌, ◌^◌, ◌≤◌, ◌<◌, ◌≡◌, refl, ◌∙◌, ap, ◌⊎◌, inl, inr, true, false, none, some,
  Option, List, [], ◌∷◌, ltb, le→ltb, ltb→le, ltb→lt, Bool-cases, u64, arith, ok, Returns, returns,
  Returns-mono,
}
use adventure.Memory.{pokes_above}
use adventure.Memory.Words.{split64, join64_ext, join64-pokes}
use adventure.Fs.{Os, Grants}
use adventure.Fs.Granted.{fs_resize_file-eq, fs_remap-eq}
use adventure.Store.{
  Store, bytes_of, store_resize, store_extend, end_page, take_page, store_alloc, store_free,
  free_space,
}
use adventure.Store.Access.{written, write64-ok}

-- `g` is `s` with a longer file: the bytes that `s` had are still there.
pub record Extends (s g : Store) : Type 0 where
  pub IsOpen-after : IsOpen g
  pub longer : s.file.size ≤ g.file.size
  pub same_end : g.end ≡ s.end
  pub same_list : g.free_list ≡ s.free_list
  pub same_bytes : (a : ℕ) → a < s.file.size → bytes_of g a ≡ bytes_of s a

module _ {os : Os} {limit : ℕ} (grants : Grants os limit) (small : limit < 2 ^ 63) where
  open grants use {opens, maps, truncates, grows, keeps}

  -- The store after the extension.
  unfoldable pub extended : Store → Store
  extended s =
      let n = s.file.size * 2 in
      let f = (os.ftruncate n s.file.image).1 in
      record s { file = record s.file { size = n; mapped = n; image = f } }

  extend-eq : (s : Store) → IsOpen s → s.file.size * 2 ≤ limit → store_extend os s ≡ (0, extended s)
  unfolding store_extend store_resize extended
  extend-eq s o h =
      let fits : u64 (s.file.size * 2) ≡ s.file.size * 2 = omega arith in
      let image = (os.ftruncate (s.file.size * 2) s.file.image).1 in
      let length : image.length ≡ s.file.size * 2 = grows (s.file.size * 2) s.file.image h in
      rw
        (
          fits,
          le→ltb (s.file.size * 2) s.file.size (omega arith),
          fs_resize_file-eq grants s.file.path (s.file.size * 2) s.file.image,
          fs_remap-eq grants (record s.file { image = image }) (omega arith),
          length,
        )
        refl

  pub extended-Extends : (s : Store) → IsOpen s → s.file.size * 2 ≤ limit → Extends s (extended s)
  unfolding extended
  extended-Extends s o h =
      let n = s.file.size * 2 in
      let kept : (a : ℕ)
          → a < s.file.size
          → (os.ftruncate n s.file.image).1.bytes a ≡ bytes_of s a =
        λ a lt. keeps n s.file.image a h (omega arith) (omega arith) in
      record {
        IsOpen-after = record {
          live = refl;
          sized = grows n s.file.image h;
          header = o.header;
          within = omega arith;
          synced = join64_ext (bytes_of s) _ 6 6 (λ i lt. kept (6 + i) (omega arith)) ∙ o.synced;
          small = omega arith;
        };
        longer = omega arith;
        same_end = refl;
        same_list = refl;
        same_bytes = kept;
      }

-- A new page at `p` of `size` bytes: it begins where `s` ended, `g` ends behind it, and nothing
-- but the `end` field of the header (bytes 6 to 13) has changed of what `s` held.
pub record Allocated (s : Store) (size p : ℕ) (g : Store) : Type 0 where
  pub IsOpen-after : IsOpen g
  pub at_end : p ≡ s.end
  pub moved_end : g.end ≡ s.end + size
  pub longer : s.file.size ≤ g.file.size
  pub same_list : g.free_list ≡ s.free_list
  pub same_bytes : (a : ℕ) → 14 ≤ a → a < s.file.size → bytes_of g a ≡ bytes_of s a

-- The store after a page was taken from the end.
abbrev pub ended : Store → ℕ → Store
ended s size = written (record s { end = s.end + size }) 6 (split64 (s.end + size))

module _ (s : Store) (size : ℕ) (o : IsOpen s) (room : s.end + size ≤ s.file.size) where
  pub end_page-eq : (os : Os) → end_page os size s ≡ ok s.end (ended s size)
  unfolding end_page
  end_page-eq os =
      let fits : u64 (s.end + size) ≡ s.end + size = omega arith in
      rw fits
        (rw (write64-ok (record s { end = s.end + size }) 6 (s.end + size) (omega arith)) refl)

  pub ended-Allocated : Allocated s size s.end (ended s size)
  ended-Allocated = record {
    IsOpen-after = record {
      live = o.live;
      sized = o.sized;
      header = omega arith;
      within = room;
      synced = join64-pokes (bytes_of s) 6 (s.end + size) ∙ omega arith;
      small = o.small;
    };
    at_end = refl;
    moved_end = refl;
    longer = omega arith;
    same_list = refl;
    same_bytes = λ a h lt. pokes_above (bytes_of s) 6 (split64 (s.end + size)) a h;
  }

-- No page waits in the free list.
abbrev pub NoneFree : Store → Type 0
NoneFree s = (s.free_list ≡ none) ⊎ (s.free_list ≡ some [])

pub take_page-end :
    (os : Os) (size : ℕ) (s : Store)
    → NoneFree s
    → take_page os size s.free_list s ≡ end_page os size s
unfolding take_page
take_page-end os size s (inl e) = rw e
take_page-end os size s (inr e) = rw e

-- After an extension what held of the old store holds of the new one.
Allocated-Extends :
    (s g h : Store) (size p : ℕ) → Extends s g → Allocated g size p h → Allocated s size p h
Allocated-Extends s g h size p e a = record {
  IsOpen-after = a.IsOpen-after;
  at_end = a.at_end ∙ e.same_end;
  moved_end = omega (arith, a.moved_end, e.same_end);
  longer = omega (arith, a.longer, e.longer);
  same_list = a.same_list ∙ e.same_list;
  same_bytes = λ b lo lt. a.same_bytes b lo (omega (arith, e.longer)) ∙ e.same_bytes b lt;
}

pub doubling : (a k : ℕ) → a * 2 ^ suc k ≡ a * 2 * 2 ^ k
doubling a k = omega (arith, ap (λ (t : ℕ). a * t) (pow-suc 2 k))

pub le_doubled : (a k : ℕ) → a * 2 ≤ a * 2 * 2 ^ k
le_doubled a k = grind (arith, one-le-pow k 2)

module _ (os : Os) (size : ℕ) (s : Store) (o : IsOpen s) where
  pub space-enough : s.end + size ≤ s.file.size → ltb (free_space os s) size ≡ false
  space-enough h = le→ltb (free_space os s) size (omega (arith, o.within, o.small))

  space-fits : ltb (free_space os s) size ≡ false → s.end + size ≤ s.file.size
  space-fits h = omega (arith, ltb→le (free_space os s) size h)

  pub space-short : ltb (free_space os s) size ≡ true → s.file.size < s.end + size
  space-short h = omega (arith, ltb→lt (free_space os s) size h)

  -- Where the page fits, `store_alloc` looks at the free list.
  pub alloc-fits :
      (k : ℕ)
      → ltb (free_space os s) size ≡ false
      → store_alloc os (suc k) size s ≡ take_page os size s.free_list s
  unfolding store_alloc
  alloc-fits k h = rw h

fresh_page :
    (os : Os) (k size : ℕ) (s : Store)
    → IsOpen s
    → NoneFree s
    → ltb (free_space os s) size ≡ false
    → Returns (Allocated s size) (store_alloc os (suc k) size s)
fresh_page os k size s o nf enough =
    let fits = space-fits os size s o enough in
    rw (alloc-fits os size s o k enough, take_page-end os size s nf, end_page-eq s size o fits os)
      (returns (ended-Allocated s size o fits))

module _ {os : Os} {limit : ℕ} (grants : Grants os limit) (small : limit < 2 ^ 63) where
  pub alloc-short :
      (k size : ℕ) (s : Store)
      → IsOpen s
      → s.file.size * 2 ≤ limit
      → ltb (free_space os s) size ≡ true
      → store_alloc os (suc k) size s ≡ store_alloc os k size (extended grants small s)
  unfolding store_alloc
  alloc-short k size s o h short = rw (short, extend-eq grants small s o h) refl

  -- On an open store with no freed page and room to grow (the file doubled k times holds what is
  -- asked for, within a granted limit below 2^63), store_alloc with k + 1 rounds of fuel returns
  -- the old end of the store; the store is open again, its end has moved by the size, and no byte
  -- of the old file behind the end field of its header has changed.
  pub store_alloc-Allocated :
      (k size : ℕ) (s : Store)
      → IsOpen s
      → NoneFree s
      → s.end + size ≤ s.file.size * 2 ^ k
      → s.file.size * 2 ^ k ≤ limit
      → Returns (Allocated s size) (store_alloc os (suc k) size s)
  unfolding extended
  store_alloc-Allocated zero size s o nf room granted =
      elim (Bool-cases (ltb (free_space os s) size)) [
        | inr enough ↦ fresh_page os zero size s o nf enough
        | inl short ↦ absurd (omega (arith, space-short os size s o short))
      ]
  store_alloc-Allocated (suc k) size s o nf room granted =
      elim (Bool-cases (ltb (free_space os s) size)) [
        | inr enough ↦ fresh_page os (suc k) size s o nf enough
        | inl short ↦
            let doubled : s.file.size * 2 ≤ limit =
              omega (arith, doubling s.file.size k, le_doubled s.file.size k) in
            let e = extended-Extends grants small s o doubled in
            rw (alloc-short (suc k) size s o doubled short) (
              Returns-mono
                (store_alloc-Allocated k size (extended grants small s) e.IsOpen-after nf
                  (omega (arith, doubling s.file.size k)) (omega (arith, doubling s.file.size k)))
                (λ p g a. Allocated-Extends s (extended grants small s) g size p e a))
      ]

-- A freed page is put in front of the list.
pub store_free-eq :
    (p : ℕ) (ps : List ℕ) (s : Store)
    → s.free_list ≡ some ps
    → store_free p s ≡ ok tt (record s { free_list = some (p ∷ ps) })
unfolding store_free
store_free-eq p ps s e = ap (λ (l : Option (List ℕ)). store_free p (record s { free_list = l })) e
