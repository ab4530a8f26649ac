-- ===== src/Btree/Branch/Root.antt =====
-- The root that `btree_root_create` makes: a branch with two children.
use adventure.Base.{
  ℕ, zero, suc, ◌+◌, ◌^◌, ◌≤◌, ◌<◌, ◌≡◌, ◌⊎◌, List, [], ◌∷◌, refl, ◌∙◌, ap, inl, arith, ok, get_or,
  Returns, returns,
}
use adventure.Fs.{Os}
use adventure.Memory.{pokes_outside}
use adventure.Memory.Words.{split64, join64-pokes, join64-pokes_outside}
use adventure.Store.{Store, bytes_of, store_alloc}
use adventure.Store.Access.{word, written}
use adventure.Store.Valid.{IsOpen, IsOpen-written}
use adventure.Page.{hdr_word}
use adventure.Page.Header.{hdr_word-lt}
use adventure.Page.Access.{page_write-ok, header_write-ok}
use adventure.Btree.Branch.{btree_root_create}
use adventure.Btree.Branch.View.{Link, BranchPage, branch_bytes}

abbrev pub one_link : (mid split : ℕ) → List Link
one_link mid split = (mid, split) ∷ []

-- The root at `q` of `g`.
pub record RootMade (s : Store) (q mid orig split : ℕ) (g : Store) : Type 0 where
  pub IsOpen-after : IsOpen g
  pub root : BranchPage g q 1 64 orig (one_link mid split)
  pub same_end : g.end ≡ s.end
  pub same_size : g.file.size ≡ s.file.size
  pub same_list : g.free_list ≡ s.free_list
  pub kept : (a : ℕ) → (a < q) ⊎ (q + 64 ≤ a) → bytes_of g a ≡ bytes_of s a

module _ (g : Store) (q mid orig split : ℕ) (o : IsOpen g) (behind : 32 ≤ q)
    (inside : q + 64 ≤ g.end) (small_mid : mid < 2 ^ 64) (small_orig : orig < 2 ^ 64)
    (small_split : split < 2 ^ 64) where
  abbrev s1 : Store
  s1 = written g q (split64 (hdr_word 1 64 1 32))

  abbrev s2 : Store
  s2 = written s1 (q + 8) (split64 orig)

  abbrev s3 : Store
  s3 = written s2 (q + 16) (split64 mid)

  abbrev s4 : Store
  s4 = written s3 (q + 24) (split64 split)

  header : word s4 q ≡ hdr_word 1 64 1 32
  header =
      join64-pokes_outside (bytes_of s3) (q + 24) q (split64 split) (inl (omega arith))
      ∙ join64-pokes_outside (bytes_of s2) (q + 16) q (split64 mid) (inl (omega arith))
      ∙ join64-pokes_outside (bytes_of s1) (q + 8) q (split64 orig) (inl (omega arith))
      ∙ join64-pokes (bytes_of g) q (hdr_word 1 64 1 32)
      ∙ omega (arith, hdr_word-lt 1 64 1 32)

  leftmost : word s4 (q + 8) ≡ orig
  leftmost =
      join64-pokes_outside (bytes_of s3) (q + 24) (q + 8) (split64 split) (inl (omega arith))
      ∙ join64-pokes_outside (bytes_of s2) (q + 16) (q + 8) (split64 mid) (inl (omega arith))
      ∙ join64-pokes (bytes_of s1) (q + 8) orig
      ∙ omega arith

  middle : word s4 (q + 16) ≡ mid
  middle =
      join64-pokes_outside (bytes_of s3) (q + 24) (q + 16) (split64 split) (inl (omega arith))
      ∙ join64-pokes (bytes_of s2) (q + 16) mid
      ∙ omega arith

  rightmost : word s4 (q + 24) ≡ split
  rightmost = join64-pokes (bytes_of s3) (q + 24) split ∙ omega arith

  at :
      (i : ℕ)
      → i < 1
      → (word s4 (q + branch_bytes i) ≡ mid) × (word s4 (q + branch_bytes i + 8) ≡ split)
  at zero lt = (middle, ap (word s4) (omega arith) ∙ rightmost)
  at (suc i) lt = absurd (omega arith)

  place :
      (i : ℕ)
      → i < 1
      → (mid ≡ (get_or (one_link mid split) i (0, 0)).0)
        × (split ≡ (get_or (one_link mid split) i (0, 0)).1)
  place zero lt = (refl, refl)
  place (suc i) lt = absurd (omega arith)

  made : RootMade g q mid orig split s4
  made = record {
    IsOpen-after = IsOpen-written s3 (q + 24) (split64 split) (omega arith) (
        IsOpen-written s2 (q + 16) (split64 mid) (omega arith) (
          IsOpen-written s1 (q + 8) (split64 orig) (omega arith)
            (IsOpen-written g q (split64 (hdr_word 1 64 1 32)) (omega arith) o)));
    root = record {
      behind_header = behind;
      before_end = inside;
      byte_flags = omega arith;
      small_size = omega arith;
      fits = omega arith;
      header = header;
      leftmost = leftmost;
      keys = λ i lt. (at i lt).0 ∙ (place i lt).0;
      children = λ i lt. (at i lt).1 ∙ (place i lt).1;
    };
    same_end = refl;
    same_size = refl;
    same_list = refl;
    kept = λ a out.
        pokes_outside (bytes_of s3) (q + 24) (split64 split) a (omega arith)
        ∙ pokes_outside (bytes_of s2) (q + 16) (split64 mid) a (omega arith)
        ∙ pokes_outside (bytes_of s1) (q + 8) (split64 orig) a (omega arith)
        ∙ pokes_outside (bytes_of g) q (split64 (hdr_word 1 64 1 32)) a (omega arith);
  }

  -- From the page that was taken.
  pub btree_root_create-RootMade :
      (os : Os) (fuel : ℕ) (s : Store)
      → store_alloc os fuel 64 s ≡ ok q g
      → Returns
          (λ r h. (r ≡ q) × RootMade g q mid orig split h)
          (btree_root_create os fuel mid orig split s)
  unfolding btree_root_create
  btree_root_create-RootMade os fuel s alloc = rw alloc (
      rw (header_write-ok g o q 1 64 1 32 (omega arith)) (
        rw
          (page_write-ok s1 (IsOpen-written g q (split64 (hdr_word 1 64 1 32)) (omega arith) o) q 8
            orig (omega arith) (omega arith))
          (rw
            (page_write-ok s2
              (IsOpen-written s1 (q + 8) (split64 orig) (omega arith)
                (IsOpen-written g q (split64 (hdr_word 1 64 1 32)) (omega arith) o))
              q 16 mid (omega arith) (omega arith))
            (rw
              (page_write-ok s3
                (IsOpen-written s2 (q + 16) (split64 mid) (omega arith) (
                  IsOpen-written s1 (q + 8) (split64 orig) (omega arith)
                    (IsOpen-written g q (split64 (hdr_word 1 64 1 32)) (omega arith) o)))
                q 24 split (omega arith) (omega arith))
              (returns (refl, made))))))
