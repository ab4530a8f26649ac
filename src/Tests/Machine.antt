-- ===== src/Tests/Machine.antt =====
-- A machine that grants every call, one whose files cannot grow, and an allocator.
use adventure.Base.{
  ℕ, zero, suc, ◌<◌, ◌≡◌, refl, true, some, List, [], ◌∷◌, ltb, lt→ltb, if◌then◌else◌, length,
  get_or, arith,
}
use adventure.Fs.{Os, Grants}
use adventure.Darray.{Heap, Allocates}

-- A new part of a file reads as zeros.
abbrev pub machine : Os
machine = record {
  mkdir_errno = λ p. 0;
  create = λ p files. (0, record { length = 0; bytes = λ a. 0 });
  open_errno = λ p f. 0;
  ftruncate =
      λ n f. (0, record { length = n; bytes = λ a. if ltb a f.length then f.bytes a else 0 });
  mmap_works = λ f. true;
}

abbrev pub full_disk : Os
full_disk = record machine { ftruncate = λ n f. (28, f) }

abbrev pub granted_length : ℕ
granted_length = 1048576

pub machine-Grants : Grants machine granted_length
machine-Grants = record {
  opens = λ p f. refl;
  maps = λ f. refl;
  truncates = λ n f h. refl;
  grows = λ n f h. refl;
  keeps = λ n f a h longer lt. rw (lt→ltb a f.length lt) refl;
}

-- The first `n` cells, with zeros behind the old ones.
unfoldable pub reblock : List ℕ → ℕ → List ℕ
reblock d zero = []
reblock [] (suc n) = 0 ∷ reblock [] n
reblock (x ∷ d) (suc n) = x ∷ reblock d n

length-reblock : (d : List ℕ) (n : ℕ) → length (reblock d n) ≡ n
unfolding reblock
length-reblock d zero = refl
length-reblock [] (suc n) = omega (arith, length-reblock [] n)
length-reblock (x ∷ d) (suc n) = omega (arith, length-reblock d n)

reblock-keeps :
    (d : List ℕ) (n i : ℕ) → i < n → i < length d → get_or (reblock d n) i 0 ≡ get_or d i 0
unfolding reblock
reblock-keeps d zero i h lt = absurd (omega arith)
reblock-keeps [] (suc n) i h lt = absurd (omega arith)
reblock-keeps (x ∷ d) (suc n) zero h lt = refl
reblock-keeps (x ∷ d) (suc n) (suc i) h lt = reblock-keeps d n i (omega arith) (omega arith)

unfoldable pub heap : Heap
heap = record { calloc = λ n. some (reblock [] n); realloc = λ d n. some (reblock d n) }

pub heap-Allocates : Allocates heap granted_length
unfolding heap
heap-Allocates = record {
  allocates = λ n h. (reblock [] n, refl, length-reblock [] n);
  reallocates = λ d n pos h. (reblock d n, refl, length-reblock d n, reblock-keeps d n);
}
