-- ===== src/Btree/Leaf/View.antt =====
-- What a leaf page of src/db/store/btree.c stands for: its items.
use adventure.Base.{
  ℕ, ◌+◌, ◌*◌, ◌%◌, ◌^◌, ◌≤◌, ◌<◌, ◌≡◌, List, arith, length, get_or, Bool, not, bit_and, ◌==◌,
}
use adventure.Memory.Words.{join64_ext}
use adventure.Store.{Store, bytes_of}
use adventure.Store.Access.{word}
use adventure.Page.{hdr_word}
use adventure.Page.Header.{Fields, hdr_word-Fields}
use adventure.Btree.Leaf.Items.{Item}

-- The bytes of a page of `n` items that are in use.
abbrev pub used_bytes : ℕ → ℕ
used_bytes n = 8 + 16 * n

-- `PG_FLAGS(hdr) & BTREE_LEAF`
abbrev pub leaf_flag : ℕ → Bool
leaf_flag flags = not (bit_and flags 2 == 0)

-- `xs` are the items of the leaf at `page`, which has `size` bytes, a
-- multiple of 16.
pub record LeafPage (s : Store) (page flags size : ℕ) (xs : List Item) : Type 0 where
  pub behind_header : 32 ≤ page
  pub before_end : page + size ≤ s.end
  pub byte_flags : flags < 2 ^ 8
  pub small_size : size < 2 ^ 16
  pub whole : size % 16 ≡ 0
  pub fits : used_bytes (length xs) ≤ size
  pub header : word s page ≡ hdr_word flags size (length xs) (used_bytes (length xs))
  pub keys : (i : ℕ) → i < length xs → word s (page + used_bytes i) ≡ (get_or xs i (0, 0)).0
  pub vals : (i : ℕ) → i < length xs → word s (page + used_bytes i + 8) ≡ (get_or xs i (0, 0)).1

-- The fields of the page's header.
pub LeafPage-Fields :
    (s : Store) (page flags size : ℕ) (xs : List Item)
    → LeafPage s page flags size xs
    → Fields
        (hdr_word flags size (length xs) (used_bytes (length xs)))
        flags
        size
        (length xs)
        (used_bytes (length xs))
LeafPage-Fields s page flags size xs v =
    hdr_word-Fields flags size (length xs) (used_bytes (length xs)) v.byte_flags v.small_size
      (omega (arith, v.fits, v.small_size)) (omega (arith, v.fits, v.small_size))

-- A word is as it was where the bytes before the old end of the file are.
pub word-kept :
    (s g : Store)
    → ((a : ℕ) → 14 ≤ a → a < s.end → bytes_of g a ≡ bytes_of s a)
    → (q : ℕ) → 14 ≤ q
    → q + 8 ≤ s.end
    → word g q ≡ word s q
word-kept s g kept q lo hi =
    join64_ext (bytes_of s) (bytes_of g) q q (λ i lt. kept (q + i) (omega arith) (omega arith))
