-- ===== src/Edges/Find.antt =====
-- The search of `edges_remove` for an end node, and the list without its first occurrence.
use adventure.Base.{
  ℕ, zero, suc, ◌+◌, ◌*◌, ◌≤◌, ◌<◌, ◌≡◌, refl, ◌∙◌, ap, inl, inr, Bool-cases, List, [], ◌∷◌, arith,
  length, get_or, ◌==◌, lt→ltb, le→ltb, if◌then◌else◌, u64, ok,
}
use adventure.Store.{Store}
use adventure.Store.Access.{word, read64-ok}
use adventure.Store.Valid.{IsOpen}
use adventure.Edges.{find_edge}

-- The place of the first `v`, or the length.
unfoldable pub find_index : ℕ → List ℕ → ℕ
find_index v [] = 0
find_index v (x ∷ xs) = if x == v then 0 else suc (find_index v xs)

-- The list without its first `v`.
unfoldable pub remove_first : ℕ → List ℕ → List ℕ
remove_first v [] = []
remove_first v (x ∷ xs) = if x == v then xs else x ∷ remove_first v xs

pub find_index-le : (v : ℕ) (xs : List ℕ) → find_index v xs ≤ length xs
unfolding find_index
find_index-le v [] = omega arith
find_index-le v (x ∷ xs) = ground (arith, find_index-le v xs)

pub length-remove_first :
    (v : ℕ) (xs : List ℕ) → find_index v xs < length xs → length (remove_first v xs) + 1 ≡ length xs
unfolding find_index remove_first
length-remove_first v [] h = absurd (omega arith)
length-remove_first v (x ∷ xs) h = ground (arith, length-remove_first v xs)

pub remove_first_none : (v : ℕ) (xs : List ℕ) → length xs ≤ find_index v xs → remove_first v xs ≡ xs
unfolding find_index remove_first
remove_first_none v [] h = refl
remove_first_none v (x ∷ xs) h = ground (arith, remove_first_none v xs)

pub get_or-remove_first_before :
    (v : ℕ) (xs : List ℕ) (i : ℕ)
    → i < find_index v xs
    → get_or (remove_first v xs) i 0 ≡ get_or xs i 0
unfolding find_index remove_first
get_or-remove_first_before v [] i h = absurd (omega arith)
get_or-remove_first_before v (x ∷ xs) zero h = ground arith
get_or-remove_first_before v (x ∷ xs) (suc i) h = ground (arith, get_or-remove_first_before v xs i)

pub get_or-remove_first_behind :
    (v : ℕ) (xs : List ℕ) (i : ℕ)
    → find_index v xs ≤ i
    → get_or (remove_first v xs) i 0 ≡ get_or xs (suc i) 0
unfolding find_index remove_first
get_or-remove_first_behind v [] i h = refl
get_or-remove_first_behind v (x ∷ xs) zero h = ground arith
get_or-remove_first_behind v (x ∷ xs) (suc i) h = ground (arith, get_or-remove_first_behind v xs i)

-- In an open store, from the item j of an edge page on, of which the items ys are left and the
-- words are those items, the loop of edges_remove stops at the first item that is v, or behind the
-- page if there is none, after at most as many rounds as there are items, and reads no byte beyond
-- the page.
pub find_edge-eq :
    (r e v j : ℕ) (ys : List ℕ) (s : Store)
    → IsOpen s
    → length ys < r
    → e + (8 + 8 * (j + length ys)) ≤ s.end
    → ((i : ℕ) → i < length ys → word s (e + (8 + 8 * (j + i))) ≡ get_or ys i 0)
    → find_edge r e v (8 + 8 * (j + length ys)) (8 + 8 * j) s ≡ ok (8 + 8 * (j + find_index v ys)) s
unfolding find_edge find_index
find_edge-eq zero e v j ys s o rounds room items = absurd (omega arith)
find_edge-eq (suc r) e v j [] s o rounds room items =
    rw (le→ltb (8 + 8 * j) (8 + 8 * (j + 0)) (omega arith)) (ap (λ (t : ℕ). ok t s) (omega arith))
find_edge-eq (suc r) e v j (y ∷ ys) s o rounds room items =
    let here : u64 (e + (8 + 8 * j)) ≡ e + (8 + 8 * j) = omega (arith, o.within, o.small) in
    let next : u64 (8 + 8 * j + 8) ≡ 8 + 8 * (suc j) = omega (arith, o.within, o.small) in
    let same : 8 + 8 * (j + suc (length ys)) ≡ 8 + 8 * (suc j + length ys) = omega arith in
    let first : word s (e + (8 + 8 * j)) ≡ y = ap (word s) (omega arith) ∙ items 0 (omega arith) in
    let rest =
      find_edge-eq r e v (suc j) ys s o (omega arith) (omega arith)
        (λ i lt. ap (word s) (omega arith) ∙ items (suc i) (omega arith)) in
    rw (lt→ltb (8 + 8 * j) (8 + 8 * (j + suc (length ys))) (omega arith), here)
      (rw (read64-ok s (e + (8 + 8 * j)) (omega (arith, o.live, o.within)), first)
        (elim (Bool-cases (y == v)) [
          | inl hit ↦ rw hit (ap (λ (t : ℕ). ok t s) (omega arith))
          | inr miss ↦ rw (miss, next, same, rest) (ap (λ (t : ℕ). ok t s) (omega arith))
        ]))
