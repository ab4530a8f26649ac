-- ===== src/Edges/View.antt =====
-- What a page of the edge file stands for: the end nodes of a node's edges, oldest first.
use adventure.Base.{ℕ, ◌+◌, ◌*◌, ◌≤◌, ◌<◌, ◌≡◌, ◌∙◌, List, [], arith, length, get_or}
use adventure.Memory.Words.{join64_ext}
use adventure.Store.{Store, bytes_of}
use adventure.Store.Access.{word}

-- The bytes of the page of `n` edges.
abbrev pub page_bytes : ℕ → ℕ
page_bytes n = 8 + 8 * n

-- `xs` are the edges on page `e` of `s`. The page lies between the header and the end of the file.
pub record EdgePage (s : Store) (e : ℕ) (xs : List ℕ) : Type 0 where
  pub behind_header : 32 ≤ e
  pub before_end : e + page_bytes (length xs) ≤ s.end
  pub size_word : word s e ≡ page_bytes (length xs)
  pub items : (i : ℕ) → i < length xs → word s (e + 8 + 8 * i) ≡ get_or xs i 0

-- A page is as it was where the bytes before the old end of the file are.
pub EdgePage-kept :
    (s g : Store) (e : ℕ) (xs : List ℕ)
    → s.end ≤ g.end
    → ((a : ℕ) → 14 ≤ a → a < s.end → bytes_of g a ≡ bytes_of s a)
    → EdgePage s e xs
    → EdgePage g e xs
EdgePage-kept s g e xs longer kept v = record {
  behind_header = v.behind_header;
  before_end = omega (arith, v.before_end);
  size_word = same e (omega (arith, v.behind_header)) (omega (arith, v.before_end)) ∙ v.size_word;
  items = λ i lt.
      same (e + 8 + 8 * i) (omega (arith, v.behind_header)) (omega (arith, v.before_end))
      ∙ v.items i lt;
}
  where
    same : (q : ℕ) → 14 ≤ q → q + 8 ≤ s.end → word g q ≡ word s q
    same q lo hi =
        join64_ext (bytes_of s) (bytes_of g) q q (λ i lt. kept (q + i) (omega arith) (omega arith))

-- `e` is the pointer of a node with the edges `xs`: 0 for none, or a page of them.
pub data Linked (s : Store) : ℕ → List ℕ → Type 0 where
  unlinked : Linked s 0 []
  linked : {e : ℕ} {xs : List ℕ} → EdgePage s e xs → Linked s e xs
