-- ===== src/Edges/Gap.antt =====
-- The new page of `edges_remove`: the edges before and behind the one that is dropped.
use adventure.Base.{
  ℕ, suc, ◌+◌, ◌-◌, ◌*◌, ◌^◌, ◌≤◌, ◌<◌, ◌≡◌, refl, sym, ◌∙◌, ap, inl, inr, some, List, [], ◌∷◌,
  arith, length, get_or, u64, ok, Bool-cases, ltb, ltb→lt, ltb→le,
}
use adventure.Memory.Words.{split64, join64-pokes, join64-pokes_outside}
use adventure.Store.{Store}
use adventure.Store.Access.{
  word, written, copied, write64-ok, copy-ok, word-copied, word-copied_outside,
}
use adventure.Store.Valid.{IsOpen}
use adventure.Store.Alloc.{store_free-eq}
use adventure.Edges.{close_gap}
use adventure.Edges.View.{EdgePage, page_bytes}
use adventure.Edges.Find.{
  find_index, remove_first, length-remove_first, get_or-remove_first_before,
  get_or-remove_first_behind,
}

-- The page after the two copies and the write of the size, with `j` edges before the one dropped.
abbrev closed : Store → (p e n j : ℕ) → Store
closed g p e n j =
    written
      (copied (copied g p e (8 + 8 * j)) (p + (8 + 8 * j)) (e + (8 + 8 * j) + 8)
        (n - (8 + 8 * j) - 8))
      p (split64 (n - 8))

module _ (g : Store) (p e v : ℕ) (xs : List ℕ) (o : IsOpen g) (view : EdgePage g e xs)
    (before : e + page_bytes (length xs) ≤ p) (hit : find_index v xs < length xs)
    (room : p + 8 * length xs ≤ g.end) where
  abbrev n : ℕ
  n = page_bytes (length xs)

  abbrev j : ℕ
  j = find_index v xs

  word_before :
      (i : ℕ) → i < j → word (closed g p e n j) (p + 8 + 8 * i) ≡ get_or (remove_first v xs) i 0
  word_before i lt =
      join64-pokes_outside _ p (p + 8 + 8 * i) (split64 (n - 8)) (inr (omega arith))
      ∙ word-copied_outside (copied g p e (8 + 8 * j)) (p + (8 + 8 * j)) (e + (8 + 8 * j) + 8)
          (n - (8 + 8 * j) - 8) (p + 8 + 8 * i) (inl (omega arith))
      ∙ ap (word (copied g p e (8 + 8 * j))) (omega arith)
      ∙ word-copied g p e (8 + 8 * j) (8 + 8 * i) (omega arith)
      ∙ ap (word g) (omega arith)
      ∙ view.items i (omega (arith, hit))
      ∙ sym (get_or-remove_first_before v xs i lt)

  word_behind :
      (i : ℕ)
      → j ≤ i
      → suc i < length xs
      → word (closed g p e n j) (p + 8 + 8 * i) ≡ get_or (remove_first v xs) i 0
  word_behind i le lt =
      let m : ℕ = 8 * (i - j) in
      join64-pokes_outside _ p (p + 8 + 8 * i) (split64 (n - 8)) (inr (omega arith))
      ∙ ap
          (word (
            copied (copied g p e (8 + 8 * j)) (p + (8 + 8 * j)) (e + (8 + 8 * j) + 8)
              (n - (8 + 8 * j) - 8)))
          (omega arith)
      ∙ word-copied (copied g p e (8 + 8 * j)) (p + (8 + 8 * j)) (e + (8 + 8 * j) + 8)
          (n - (8 + 8 * j) - 8) m (omega arith)
      ∙ word-copied_outside g p e (8 + 8 * j) (e + (8 + 8 * j) + 8 + m) (inl (omega arith))
      ∙ ap (word g) (omega arith)
      ∙ view.items (suc i) lt
      ∙ sym (get_or-remove_first_behind v xs i le)

  pub closed-EdgePage :
      32 ≤ p
      → p + page_bytes (length xs) ≤ g.end + 8
      → EdgePage (closed g p e n j) p (remove_first v xs)
  closed-EdgePage lo fits = record {
    behind_header = lo;
    before_end = omega (arith, length-remove_first v xs hit);
    size_word =
        join64-pokes _ p (n - 8) ∙ omega (arith, length-remove_first v xs hit, o.within, o.small);
    items = λ i lt. elim (Bool-cases (ltb i j)) [
      | inl front ↦ word_before i (ltb→lt i j front)
      | inr back ↦ word_behind i (ltb→le i j back) (omega (arith, length-remove_first v xs hit))
    ];
  }

  pub close_gap-eq :
      g.free_list ≡ some []
      → p + page_bytes (length xs) ≤ g.end + 8
      → close_gap e n (8 + 8 * j) p g
        ≡ ok p (record (closed g p e n j) { free_list = some (e ∷ []) })
  unfolding close_gap
  close_gap-eq list fits =
      let i : ℕ = 8 + 8 * j in
      let c : Store = copied g p e i in
      let c2 : Store = copied c (p + i) (e + i + 8) (n - i - 8) in
      let e1 : u64 (p + i) ≡ p + i = omega (arith, o.within, o.small) in
      let e2 : u64 (e + i + 8) ≡ e + i + 8 = omega (arith, o.within, o.small) in
      let e3 : u64 (n + 2 ^ 65 - i - 8) ≡ n - i - 8 = omega (arith, o.within, o.small) in
      let e4 : u64 (n + 2 ^ 64 - 8) ≡ n - 8 = omega (arith, o.within, o.small) in
      rw (e1, e2, e3, e4)
        (rw
          (
            copy-ok g p e i (omega (arith, o.live, o.within)) (omega (arith, o.live, o.within))
                (inr (omega arith)),
            copy-ok c (p + i) (e + i + 8) (n - i - 8) (omega (arith, o.live, o.within))
                (omega (arith, o.live, o.within)) (inr (omega arith)),
            write64-ok c2 p (n - 8) (omega (arith, o.live, o.within)),
            store_free-eq e [] (written c2 p (split64 (n - 8))) list,
          )
          refl)
