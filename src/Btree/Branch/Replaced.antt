-- ===== src/Btree/Branch/Replaced.antt =====
-- `btree_branch_add` for a child that was not split.
use adventure.Base.{
  ℕ, suc, ◌+◌, ◌*◌, ◌^◌, ◌≤◌, ◌<◌, ◌≡◌, ◌≢◌, ◌⊎◌, List, refl, sym, ◌∙◌, ap, inl, inr, some, ◌∷◌,
  arith, ok, length, get_or, ◌==◌, ==_iff, ltb, ltb→lt, ltb→le, Bool-cases, Returns, returns,
}
use adventure.Fs.{Os}
use adventure.Store.{Store, bytes_of, store_alloc}
use adventure.Store.Access.{word}
use adventure.Store.Valid.{IsOpen}
use adventure.Page.{hdr_word}
use adventure.Page.Access.{header_read-ok}
use adventure.Btree.Branch.{btree_branch_add}
use adventure.Btree.Branch.View.{
  Link, BranchPage, BranchPage-Fields, branch_bytes, child_at, child_word,
}
use adventure.Btree.Branch.Replace.{
  replaced, replace_child-eq, replaced_header, replaced_child, replaced_front, replaced_back,
  kept-replaced, IsOpen-replaced,
}
use adventure.Btree.Leaf.View.{word-kept}
use adventure.Btree.Leaf.Taken.{Taken}

-- The child at place `i` is `orig` in the new list, all else is as in the old one.
pub record OneChild (first : ℕ) (ls : List Link) (i orig first' : ℕ) (ls' : List Link)
    : Type 0 where
  pub place : i ≤ length ls
  pub same_length : length ls' ≡ length ls
  pub same_keys : (j : ℕ) → j < length ls → (get_or ls' j (0, 0)).0 ≡ (get_or ls j (0, 0)).0
  pub at : child_at first' ls' i ≡ orig
  pub other : (j : ℕ) → j ≢ i → child_at first' ls' j ≡ child_at first ls j

module _ (s g : Store) (page p orig flags size first first' i : ℕ) (ls ls' : List Link)
    (ps : List ℕ) (v : BranchPage s page flags size first ls)
    (one : OneChild first ls i orig first' ls') (behind : 32 ≤ p)
    (apart : (page + size ≤ p) ⊎ (p + size ≤ page)) (fits : orig < 2 ^ 64)
    (kept : (a : ℕ) → 14 ≤ a → a < s.end → bytes_of g a ≡ bytes_of s a) where
  abbrev n : ℕ
  n = length ls

  abbrev idx : ℕ
  idx = 8 + 16 * i

  abbrev out : Store
  out = replaced g page p idx orig flags size n (branch_bytes n) ps

  lo : 8 ≤ idx
  lo = omega arith

  hi : idx + 8 ≤ branch_bytes n
  hi = omega (arith, one.place)

  far : (page + branch_bytes n ≤ p) ⊎ (p + branch_bytes n ≤ page)
  far = omega (arith, v.fits)

  old_word : (q : ℕ) → page ≤ q → q + 8 ≤ page + size → word g q ≡ word s q
  old_word q a b =
      word-kept s g kept q (omega (arith, v.behind_header)) (omega (arith, v.before_end))

  -- A word of the copy that is not the new pointer.
  copied_word :
      (k : ℕ)
      → 8 ≤ k
      → k + 8 ≤ branch_bytes n
      → (k + 8 ≤ idx) ⊎ (idx + 8 ≤ k)
      → word out (p + k) ≡ word s (page + k)
  copied_word k a b (inl c) =
      replaced_front g page p idx orig flags size n (branch_bytes n) ps lo hi far k a c
      ∙ old_word (page + k) (omega arith) (omega (arith, v.fits))
  copied_word k a b (inr c) =
      replaced_back g page p idx orig flags size n (branch_bytes n) ps lo hi far k c b
      ∙ old_word (page + k) (omega arith) (omega (arith, v.fits))

  child : (j : ℕ) → j ≤ n → word out (p + (8 + 16 * j)) ≡ child_at first' ls' j
  child j le = elim (Bool-cases (j == i)) [
    | inl e ↦
        let same : j ≡ i = (==_iff j i).0 e in
        ap (word out) (omega (arith, same))
        ∙ replaced_child g page p idx orig flags size n (branch_bytes n) ps lo hi far fits
        ∙ sym one.at
        ∙ ap (child_at first' ls') (sym same)
    | inr e ↦
        let other : j ≢ i = λ same. ground (arith, ==_iff j i) in
        copied_word (8 + 16 * j) (omega arith) (omega arith) (apart_places j other)
        ∙ child_word s page flags size first ls j v le
        ∙ sym (one.other j other)
  ]
    where
      apart_places : (j : ℕ) → j ≢ i → (8 + 16 * j + 8 ≤ idx) ⊎ (idx + 8 ≤ 8 + 16 * j)
      apart_places j other = elim (Bool-cases (ltb j i)) [
        | inl e ↦ inl (omega (arith, ltb→lt j i e))
        | inr e ↦ inr (omega (arith, ltb→le j i e, other))
      ]

  replaced-BranchPage : p + size ≤ g.end → BranchPage out p flags size first' ls'
  replaced-BranchPage more = record {
    behind_header = behind;
    before_end = more;
    byte_flags = v.byte_flags;
    small_size = v.small_size;
    fits = omega (arith, v.fits, one.same_length);
    header =
        replaced_header g page p idx orig flags size n (branch_bytes n) ps lo hi far
        ∙ ap (λ c. hdr_word flags size c (branch_bytes c)) (sym one.same_length);
    leftmost = child 0 (omega arith);
    keys = λ j lt.
        let inside : j < n = omega (arith, one.same_length) in
        copied_word (branch_bytes j) (omega arith) (omega arith) (between j)
        ∙ v.keys j inside
        ∙ sym (one.same_keys j inside);
    children = λ j lt. ap (word out) (omega arith) ∙ child (suc j) (omega (arith, one.same_length));
  }
    where
      between : (j : ℕ) → (branch_bytes j + 8 ≤ idx) ⊎ (idx + 8 ≤ branch_bytes j)
      between j = elim (Bool-cases (ltb j i)) [
        | inl e ↦ inl (omega (arith, ltb→lt j i e))
        | inr e ↦ inr (omega (arith, ltb→le j i e))
      ]

-- The branch at `p` of `g` has the new child.
pub record ChildReplaced (s : Store) (page flags size first' : ℕ) (ls' : List Link) (q : ℕ)
    (ps : List ℕ) (p : ℕ) (g : Store) : Type 0 where
  pub IsOpen-after : IsOpen g
  pub new_page : p ≡ q
  pub branch : BranchPage g p flags size first' ls'
  pub next : g.free_list ≡ some (page ∷ ps)
  pub longer : s.end ≤ g.end
  pub kept : (a : ℕ) → 14 ≤ a → a < s.end → (a < q) ⊎ (q + size ≤ a) → bytes_of g a ≡ bytes_of s a

module _ (os : Os) (fuel : ℕ) (s : Store) (page key orig flags size first first' i : ℕ)
    (ls ls' : List Link) where
  -- On an open store, for a branch page, where the page that store_alloc gives lies in the file and
  -- does not overlap it, btree_branch_add with a child that was not split returns that page; it is
  -- the branch with the new child at its place, the old branch is in front of the free list, and no
  -- byte outside the new page has changed of the old file behind the end field of its header.
  pub btree_branch_add-ChildReplaced :
      {q p : ℕ} {ps : List ℕ} {g : Store}
      → IsOpen s
      → BranchPage s page flags size first ls
      → OneChild first ls i orig first' ls'
      → orig < 2 ^ 64
      → store_alloc os fuel size s ≡ ok p g
      → Taken s page size q ps p g
      → Returns
          (λ r h.
            ChildReplaced s page flags size first' ls' q ps r h
            × (h.end ≡ g.end)
            × (h.file.size ≡ g.file.size))
          (btree_branch_add os fuel page (8 + 16 * i) key orig 0 s)
  unfolding btree_branch_add
  btree_branch_add-ChildReplaced {p = p} {ps = ps} {g = g} o v one fits eq a =
      let n : ℕ = length ls in
      let lo : 8 ≤ 8 + 16 * i = omega arith in
      let hi : 8 + 16 * i + 8 ≤ branch_bytes n = omega (arith, one.place) in
      let far : (page + branch_bytes n ≤ p) ⊎ (p + branch_bytes n ≤ page) =
        omega (arith, a.apart, v.fits) in
      let done =
        replace_child-eq os fuel s g page p (8 + 16 * i) key orig _ flags size n (branch_bytes n)
          (BranchPage-Fields s page flags size first ls v) ps a.IsOpen-after eq a.rest lo hi v.fits
          v.small_size a.behind_header a.apart (omega (arith, v.before_end, a.longer)) a.inside in
      rw (header_read-ok s o page (omega (arith, v.before_end, v.fits)), v.header)
        (rw done (
          returns (
            record {
              IsOpen-after =
                  IsOpen-replaced g page p (8 + 16 * i) orig flags size n (branch_bytes n) ps lo hi
                    far (omega (arith, a.behind_header)) a.IsOpen-after;
              new_page = a.is;
              branch =
                  replaced-BranchPage s g page p orig flags size first first' i ls ls' ps v one
                    a.behind_header a.apart fits a.same_bytes a.inside;
              next = refl;
              longer = a.longer;
              kept = λ b lo_b lt out.
                  kept-replaced g page p (8 + 16 * i) orig flags size n (branch_bytes n) ps lo hi
                    far b (omega (arith, a.is, v.fits))
                  ∙ a.same_bytes b lo_b lt;
            },
            refl,
            refl,
          )))
