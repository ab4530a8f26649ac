-- ===== src/Edges/Add.antt =====
-- `edges_add` where no freed page waits: the new page holds the old edges and the new one.
use adventure.Base.{
  ℕ, suc, ◌+◌, ◌*◌, ◌^◌, ◌≤◌, ◌<◌, ◌≡◌, refl, sym, ◌∙◌, ap, inl, inr, some, List, [], ◌∷◌, ◌++◌,
  arith, length, get_or, length-append, get_or-append_left, get_or-append_last, u64, ne→==, ok,
  Returns, returns, Returns-eq, Bool-cases, ltb, ltb→lt, ltb→le,
}
use adventure.Memory.Words.{split64, join64-pokes, join64-pokes_outside}
use adventure.Memory.{pokes_below, peeks}
use adventure.Fs.{Os, Grants}
use adventure.Store.{Store, bytes_of}
use adventure.Store.Access.{word, written, copied, read64-ok, write64-ok, copy-ok, word-copied}
use adventure.Store.Valid.{IsOpen, IsOpen-written, IsOpen-copied, IsOpen-list}
use adventure.Store.Alloc.{store_alloc-Allocated, store_free-eq}
use adventure.Edges.{edges_add, finish_add}
use adventure.Edges.View.{EdgePage, EdgePage-kept, Linked, unlinked, linked, page_bytes}

-- The store that `finish_add` leaves.
abbrev pub finished : Store → (e_old end size e_new : ℕ) → List ℕ → Store
finished s e_old end size e_new ps =
    record (written (written s (e_new + size) (split64 end)) e_new (split64 (size + 8))) {
      free_list = some (e_old ∷ ps);
    }

pub finish_add-eq :
    (s : Store) (e_old end size e_new : ℕ) (ps : List ℕ)
    → IsOpen s
    → s.free_list ≡ some ps
    → e_new + size + 8 ≤ s.end
    → finish_add e_old end size e_new s ≡ ok e_new (finished s e_old end size e_new ps)
unfolding finish_add
finish_add-eq s e_old end size e_new ps o list room =
    let fits : u64 (e_new + size) ≡ e_new + size = omega (arith, o.within, o.small) in
    let fits' : u64 (size + 8) ≡ size + 8 = omega (arith, o.within, o.small) in
    let s1 = written s (e_new + size) (split64 end) in
    rw (fits, fits')
      (rw
        (
          write64-ok s (e_new + size) end (omega (arith, o.within, o.live)),
          write64-ok s1 e_new (size + 8) (omega (arith, o.within, o.live)),
          store_free-eq e_old ps (written s1 e_new (split64 (size + 8))) list,
        )
        refl)

-- With the old edges in place, the page that `finish_add` completes holds them and `end`.
finished-EdgePage :
    (s : Store) (e_old end e_new : ℕ) (xs ps : List ℕ)
    → IsOpen s
    → end < 2 ^ 64
    → 32 ≤ e_new
    → e_new + page_bytes (length xs) + 8 ≤ s.end
    → ((i : ℕ) → i < length xs → word s (e_new + 8 + 8 * i) ≡ get_or xs i 0)
    → EdgePage (finished s e_old end (page_bytes (length xs)) e_new ps) e_new (xs ++ end ∷ [])
finished-EdgePage s e_old end e_new xs ps o small lo room old = record {
  behind_header = lo;
  before_end = omega (arith, length-append xs (end ∷ []));
  size_word =
      join64-pokes (bytes_of s1) e_new (n + 8)
      ∙ omega (arith, length-append xs (end ∷ []), o.within, o.small);
  items = λ i lt. elim (Bool-cases (ltb i (length xs))) [
    | inl inside ↦
        let below = ltb→lt i (length xs) inside in
        outer (e_new + 8 + 8 * i) (omega arith)
        ∙ join64-pokes_outside (bytes_of s) (e_new + n) (e_new + 8 + 8 * i) (split64 end)
            (inl (omega (arith, below)))
        ∙ old i below
        ∙ sym (get_or-append_left xs (end ∷ []) i 0 below)
    | inr outside ↦
        let last : i ≡ length xs =
          omega (arith, ltb→le i (length xs) outside, length-append xs (end ∷ [])) in
        rw last (
          outer (e_new + 8 + 8 * length xs) (omega arith)
          ∙ ap (word s1) (omega arith)
          ∙ join64-pokes (bytes_of s) (e_new + n) end
          ∙ omega arith
          ∙ sym (get_or-append_last xs end 0))
  ];
}
  where
    n : ℕ
    n = page_bytes (length xs)

    s1 : Store
    s1 = written s (e_new + n) (split64 end)

    outer : (q : ℕ) → e_new + 8 ≤ q → word (finished s e_old end n e_new ps) q ≡ word s1 q
    outer q h = join64-pokes_outside (bytes_of s1) e_new q (split64 (n + 8)) (inr h)

-- `edges_add` gave page `e` to the edges `xs` and `end`: the page is new, the old pointer is in the
-- free list, and nothing else that `s` held behind the `end` field of its header has changed.
pub record Added (s : Store) (e_old : ℕ) (xs : List ℕ) (end e : ℕ) (g : Store) : Type 0 where
  pub IsOpen-after : IsOpen g
  pub new_page : e ≡ s.end
  pub page : EdgePage g e (xs ++ end ∷ [])
  pub freed : g.free_list ≡ some (e_old ∷ [])
  pub longer : s.end ≤ g.end
  pub kept : (a : ℕ) → 14 ≤ a → a < s.end → bytes_of g a ≡ bytes_of s a

-- What `finish_add` does after the page at the end of `s` was taken and, in `c`, filled.
module _ {s c : Store} {e_old end : ℕ} {xs : List ℕ} where
  finish_add-Added :
      (p : ℕ)
      → IsOpen s
      → IsOpen c
      → p ≡ s.end
      → c.end ≡ s.end + (page_bytes (length xs) + 8)
      → c.free_list ≡ some []
      → end < 2 ^ 64
      → ((a : ℕ) → 14 ≤ a → a < s.end → bytes_of c a ≡ bytes_of s a)
      → ((i : ℕ) → i < length xs → word c (p + 8 + 8 * i) ≡ get_or xs i 0)
      → Returns (Added s e_old xs end) (finish_add e_old end (page_bytes (length xs)) p c)
  finish_add-Added p os oc at_end moved list small kept old =
      rw (finish_add-eq c e_old end n p [] oc list (omega arith)) (
        returns (record {
          IsOpen-after = IsOpen-list (written s1 p (split64 (n + 8))) (some (e_old ∷ [])) (
              IsOpen-written s1 p (split64 (n + 8)) (omega (arith, os.header))
                (IsOpen-written c (p + n) (split64 end) (omega (arith, os.header)) oc));
          new_page = at_end;
          page =
              finished-EdgePage c e_old end p xs [] oc small (omega (arith, os.header))
                (omega arith) old;
          freed = refl;
          longer = omega arith;
          kept = λ a lo lt.
              pokes_below (bytes_of s1) p (split64 (n + 8)) a (omega arith)
              ∙ pokes_below (bytes_of c) (p + n) (split64 end) a (omega arith)
              ∙ kept a lo lt;
        }))
    where
      n : ℕ
      n = page_bytes (length xs)

      s1 : Store
      s1 = written c (p + n) (split64 end)

module _ {os : Os} {limit : ℕ} (grants : Grants os limit) (small : limit < 2 ^ 63) (k : ℕ)
    (s : Store) (start end : ℕ) (o : IsOpen s) (list : s.free_list ≡ some [])
    (fits : end < 2 ^ 64) where
  add_first :
      s.end + 16 ≤ s.file.size * 2 ^ k
      → s.file.size * 2 ^ k ≤ limit
      → Returns (Added s 0 [] end) (edges_add os (suc k) 0 start end s)
  unfolding edges_add
  add_first room granted =
      let (p, g, eq, a) =
        Returns-eq (store_alloc-Allocated grants small k 16 s o (inr list) room granted) in
      rw eq (
        finish_add-Added {s = s} {c = g} {xs = []} p o a.IsOpen-after a.at_end a.moved_end
          (a.same_list ∙ list) fits (λ b lo lt. a.same_bytes b lo (omega (arith, o.within)))
          (λ i lt. absurd (omega arith)))

  add_behind :
      (e : ℕ) (xs : List ℕ)
      → EdgePage s e xs
      → s.end + (page_bytes (length xs) + 8) ≤ s.file.size * 2 ^ k
      → s.file.size * 2 ^ k ≤ limit
      → Returns (Added s e xs end) (edges_add os (suc k) e start end s)
  unfolding edges_add
  add_behind e xs v room granted =
      let n : ℕ = page_bytes (length xs) in
      let (p, g, eq, a) =
        Returns-eq (store_alloc-Allocated grants small k (n + 8) s o (inr list) room granted) in
      let b = a.IsOpen-after in
      let old =
        EdgePage-kept s g e xs (omega (arith, a.moved_end))
          (λ q lo lt. a.same_bytes q lo (omega (arith, o.within))) v in
      let fits : u64 (n + 8) ≡ n + 8 = omega (arith, o.within, o.small, v.before_end) in
      let c = copied g p e n in
      rw
        (
          ne→== e 0 (omega (arith, v.behind_header)),
          read64-ok s e (omega (arith, o.live, o.within, v.before_end)),
        )
        (rw (v.size_word, fits, eq)
          (rw
            (copy-ok g p e n (omega (arith, a.at_end, a.moved_end, b.live, b.within))
              (omega (arith, v.before_end, a.moved_end, b.live, b.within))
              (inr (omega (arith, v.before_end, a.at_end))))
            (finish_add-Added {s = s} {c = c} {xs = xs} p o
              (IsOpen-copied g p e n (omega (arith, a.at_end, o.header)) b) a.at_end a.moved_end
              (a.same_list ∙ list) fits'
              (λ q lo lt.
                pokes_below (bytes_of g) p (peeks (bytes_of g) e n) q (omega (arith, a.at_end))
                ∙ a.same_bytes q lo (omega (arith, o.within)))
              (λ i lt.
                ap (word c) (omega arith)
                ∙ word-copied g p e n (8 + 8 * i) (omega arith)
                ∙ ap (word g) (omega arith)
                ∙ old.items i lt))))
    where
      fits' : end < 2 ^ 64
      fits' = fits

  -- On an open store, for a node with the edges xs (no page, or a page of them), with an empty free
  -- list, a new end node below 2^64 and room to grow (the file doubled k times holds what is asked
  -- for, within a granted limit below 2^63), edges_add with k + 1 rounds of fuel returns a new page
  -- at the old end of the file that holds xs and then the new end node, puts the old pointer into
  -- the free list, and changes no other byte of the old file behind the end field of its header.
  pub edges_add-Added :
      (e : ℕ) (xs : List ℕ)
      → Linked s e xs
      → s.end + (page_bytes (length xs) + 8) ≤ s.file.size * 2 ^ k
      → s.file.size * 2 ^ k ≤ limit
      → Returns (Added s e xs end) (edges_add os (suc k) e start end s)
  edges_add-Added e xs unlinked room granted = add_first room granted
  edges_add-Added e xs (linked v) room granted = add_behind e xs v room granted
