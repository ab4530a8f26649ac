-- ===== src/Btree/Branch/View.antt =====
-- What a branch page of src/db/store/btree.c stands for: its first child, and the keys with the
-- child behind each.
use adventure.Base.{
  ℕ, zero, suc, ◌+◌, ◌*◌, ◌^◌, ◌≤◌, ◌<◌, ◌≡◌, ◌∙◌, ap, List, [], ◌∷◌, arith, length, get_or,
  if◌then◌else◌, ltb,
}
use adventure.Store.{Store}
use adventure.Store.Access.{word}
use adventure.Page.{hdr_word}
use adventure.Page.Header.{Fields, hdr_word-Fields}

-- A key and the page behind it.
abbrev pub Link : Type 0
Link = ℕ × ℕ

-- The bytes of a branch of `n` keys that are in use.
abbrev pub branch_bytes : ℕ → ℕ
branch_bytes n = 16 + 16 * n

pub record BranchPage (s : Store) (page flags size first : ℕ) (ls : List Link) : Type 0 where
  pub behind_header : 32 ≤ page
  pub before_end : page + size ≤ s.end
  pub byte_flags : flags < 2 ^ 8
  pub small_size : size < 2 ^ 16
  pub fits : branch_bytes (length ls) ≤ size
  pub header : word s page ≡ hdr_word flags size (length ls) (branch_bytes (length ls))
  pub leftmost : word s (page + 8) ≡ first
  pub keys : (i : ℕ) → i < length ls → word s (page + branch_bytes i) ≡ (get_or ls i (0, 0)).0
  pub children :
      (i : ℕ) → i < length ls → word s (page + branch_bytes i + 8) ≡ (get_or ls i (0, 0)).1

-- The fields of the page's header.
pub BranchPage-Fields :
    (s : Store) (page flags size first : ℕ) (ls : List Link)
    → BranchPage s page flags size first ls
    → Fields
        (hdr_word flags size (length ls) (branch_bytes (length ls)))
        flags
        size
        (length ls)
        (branch_bytes (length ls))
BranchPage-Fields s page flags size first ls v =
    hdr_word-Fields flags size (length ls) (branch_bytes (length ls)) v.byte_flags v.small_size
      (omega (arith, v.fits, v.small_size)) (omega (arith, v.fits, v.small_size))

-- The number of keys that are not above `key`, up to the first that is.
unfoldable pub find_link : (key : ℕ) → List Link → ℕ
find_link key [] = 0
find_link key (l ∷ ls) = if ltb key l.0 then 0 else suc (find_link key ls)

pub find_link-le : (key : ℕ) (ls : List Link) → find_link key ls ≤ length ls
unfolding find_link
find_link-le key [] = omega arith
find_link-le key (l ∷ ls) = ground (arith, find_link-le key ls)

-- The child at a place.
abbrev pub child_at : (first : ℕ) → List Link → ℕ → ℕ
child_at first ls zero = first
child_at first ls (suc i) = (get_or ls i (0, 0)).1

-- The pointer at the place of a child.
pub child_word :
    (s : Store) (page flags size first : ℕ) (ls : List Link) (i : ℕ)
    → BranchPage s page flags size first ls
    → i ≤ length ls
    → word s (page + (8 + 16 * i)) ≡ child_at first ls i
child_word s page flags size first ls zero v le = ap (word s) (omega arith) ∙ v.leftmost
child_word s page flags size first ls (suc i) v le =
    ap (word s) (omega arith) ∙ v.children i (omega arith)
