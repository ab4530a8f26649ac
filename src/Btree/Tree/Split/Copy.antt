-- ===== src/Btree/Tree/Split/Copy.antt =====
-- What `btree_leaf_copy_in` writes: a run of a leaf's items, with the new item among them or not.
use adventure.Base.{ℕ, ◌+◌, ◌*◌, ◌^◌, ◌≤◌, ◌<◌, ◌≡◌, ◌⊎◌, ◌∙◌, inl, inr, arith}
use adventure.Memory.{pokes_outside, length-peeks}
use adventure.Memory.Words.{split64, join64-pokes, join64-pokes_outside}
use adventure.Store.{Store, bytes_of}
use adventure.Store.Access.{word, written, copied, word-copied, word-copied_outside}
use adventure.Store.Valid.{IsOpen, IsOpen-written, IsOpen-copied}
use adventure.Page.{hdr_word}
use adventure.Page.Header.{hdr_word-lt}

-- The copy at `p`: `o` bytes from `si` on, the new item, and the `l` bytes behind.
module _ (s : Store) (src p si o l key val flags size n : ℕ) where
  abbrev pub c1 : Store
  c1 = copied s (p + 8) (src + si) o

  abbrev pub c2 : Store
  c2 = written c1 (p + (8 + o)) (split64 key)

  abbrev pub c3 : Store
  c3 = written c2 (p + (16 + o)) (split64 val)

  abbrev pub c4 : Store
  c4 = copied c3 (p + (24 + o)) (src + (si + o)) l

  abbrev pub with_new : Store
  with_new = written c4 p (split64 (hdr_word flags size n (n * 16 + 8)))

  module _ (far : (src + (si + o + l) ≤ p) ⊎ (p + (24 + o + l) ≤ src)) where
    behind : (q : ℕ) → p + 8 ≤ q → word with_new q ≡ word c4 q
    behind q h = join64-pokes_outside (bytes_of c4) p q _ (inr h)

    last : (q : ℕ) → q + 8 ≤ p + (24 + o) → word c4 q ≡ word c3 q
    last q h = word-copied_outside c3 (p + (24 + o)) (src + (si + o)) l q (inl h)

    pub with_new_header : n * 16 + 8 < 2 ^ 64 → word with_new p ≡ hdr_word flags size n (n * 16 + 8)
    with_new_header h =
        join64-pokes (bytes_of c4) p (hdr_word flags size n (n * 16 + 8))
        ∙ omega (arith, hdr_word-lt flags size n (n * 16 + 8))

    pub with_new_front : (k : ℕ) → k + 8 ≤ o → word with_new (p + 8 + k) ≡ word s (src + si + k)
    with_new_front k h =
        behind (p + 8 + k) (omega arith)
        ∙ last (p + 8 + k) (omega arith)
        ∙ join64-pokes_outside (bytes_of c2) (p + (16 + o)) (p + 8 + k) (split64 val)
            (inl (omega arith))
        ∙ join64-pokes_outside (bytes_of c1) (p + (8 + o)) (p + 8 + k) (split64 key)
            (inl (omega arith))
        ∙ word-copied s (p + 8) (src + si) o k h

    pub with_new_key : key < 2 ^ 64 → word with_new (p + (8 + o)) ≡ key
    with_new_key small =
        behind (p + (8 + o)) (omega arith)
        ∙ last (p + (8 + o)) (omega arith)
        ∙ join64-pokes_outside (bytes_of c2) (p + (16 + o)) (p + (8 + o)) (split64 val)
            (inl (omega arith))
        ∙ join64-pokes (bytes_of c1) (p + (8 + o)) key
        ∙ omega arith

    pub with_new_val : val < 2 ^ 64 → word with_new (p + (16 + o)) ≡ val
    with_new_val small =
        behind (p + (16 + o)) (omega arith)
        ∙ last (p + (16 + o)) (omega arith)
        ∙ join64-pokes (bytes_of c2) (p + (16 + o)) val
        ∙ omega arith

    pub with_new_back :
        (k : ℕ) → k + 8 ≤ l → word with_new (p + (24 + o) + k) ≡ word s (src + (si + o) + k)
    with_new_back k h =
        behind (p + (24 + o) + k) (omega arith)
        ∙ word-copied c3 (p + (24 + o)) (src + (si + o)) l k h
        ∙ join64-pokes_outside (bytes_of c2) (p + (16 + o)) (src + (si + o) + k) (split64 val)
            (omega arith)
        ∙ join64-pokes_outside (bytes_of c1) (p + (8 + o)) (src + (si + o) + k) (split64 key)
            (omega arith)
        ∙ word-copied_outside s (p + 8) (src + si) o (src + (si + o) + k) (omega arith)

    pub with_new_kept :
        (a : ℕ) → (a < p) ⊎ (p + (24 + o + l) ≤ a) → bytes_of with_new a ≡ bytes_of s a
    with_new_kept a h =
        pokes_outside (bytes_of c4) p _ a (omega arith)
        ∙ pokes_outside (bytes_of c3) (p + (24 + o)) _ a
            (omega (arith, length-peeks (bytes_of c3) (src + (si + o)) l))
        ∙ pokes_outside (bytes_of c2) (p + (16 + o)) (split64 val) a (omega arith)
        ∙ pokes_outside (bytes_of c1) (p + (8 + o)) (split64 key) a (omega arith)
        ∙ pokes_outside (bytes_of s) (p + 8) _ a
            (omega (arith, length-peeks (bytes_of s) (src + si) o))

    pub IsOpen-with_new : 14 ≤ p → IsOpen s → IsOpen with_new
    IsOpen-with_new h op = IsOpen-written c4 p _ h (
        IsOpen-copied c3 (p + (24 + o)) (src + (si + o)) l (omega arith) (
          IsOpen-written c2 (p + (16 + o)) (split64 val) (omega arith) (
            IsOpen-written c1 (p + (8 + o)) (split64 key) (omega arith)
              (IsOpen-copied s (p + 8) (src + si) o (omega arith) op))))

-- The copy of `l` bytes from `si` on.
module _ (s : Store) (src p si l flags size n : ℕ) where
  abbrev pub without : Store
  without = written (copied s (p + 8) (src + si) l) p (split64 (hdr_word flags size n (n * 16 + 8)))

  module _ (far : (src + (si + l) ≤ p) ⊎ (p + (8 + l) ≤ src)) where
    pub without_header : word without p ≡ hdr_word flags size n (n * 16 + 8)
    without_header =
        join64-pokes (bytes_of (copied s (p + 8) (src + si) l)) p
          (hdr_word flags size n (n * 16 + 8))
        ∙ omega (arith, hdr_word-lt flags size n (n * 16 + 8))

    pub without_front : (k : ℕ) → k + 8 ≤ l → word without (p + 8 + k) ≡ word s (src + si + k)
    without_front k h =
        join64-pokes_outside (bytes_of (copied s (p + 8) (src + si) l)) p (p + 8 + k) _
          (inr (omega arith))
        ∙ word-copied s (p + 8) (src + si) l k h

    pub without_kept : (a : ℕ) → (a < p) ⊎ (p + (8 + l) ≤ a) → bytes_of without a ≡ bytes_of s a
    without_kept a h =
        pokes_outside (bytes_of (copied s (p + 8) (src + si) l)) p _ a (omega arith)
        ∙ pokes_outside (bytes_of s) (p + 8) _ a
            (omega (arith, length-peeks (bytes_of s) (src + si) l))

    pub IsOpen-without : 14 ≤ p → IsOpen s → IsOpen without
    IsOpen-without h op =
        IsOpen-written (copied s (p + 8) (src + si) l) p _ h
          (IsOpen-copied s (p + 8) (src + si) l (omega arith) op)
