-- ===== src/Store/Reuse.antt =====
-- `store_alloc` where a freed page waits, and where the file cannot grow.
use adventure.Base.{
  ℕ, zero, suc, ◌+◌, ◌*◌, ◌^◌, ◌≤◌, ◌<◌, ◌≡◌, refl, ◌∙◌, ap, inl, inr, true, some, List, ◌∷◌, ltb,
  Bool-cases, arith, ok, hang, Returns, returns, Returns-mono,
}
use adventure.Fs.{Os, Grants}
use adventure.Store.{Store, bytes_of, store_extend, take_page, store_alloc, free_space}
use adventure.Store.Valid.{IsOpen}
use adventure.Store.Alloc.{
  Extends, extended, extended-Extends, alloc-fits, space-short, alloc-short, doubling, le_doubled,
}

-- Page `p` of the free list `p ∷ ps` handed out again: only the list has changed, but for room at
-- the end of the file.
pub record Reused (s : Store) (p : ℕ) (ps : List ℕ) (q : ℕ) (g : Store) : Type 0 where
  pub IsOpen-after : IsOpen g
  pub front : q ≡ p
  pub rest : g.free_list ≡ some ps
  pub same_end : g.end ≡ s.end
  pub longer : s.file.size ≤ g.file.size
  pub same_bytes : (a : ℕ) → a < s.file.size → bytes_of g a ≡ bytes_of s a

handed_out :
    (p : ℕ) (ps : List ℕ) (s : Store)
    → IsOpen s
    → Reused s p ps p (record s { free_list = some ps })
handed_out p ps s o = record {
  IsOpen-after = record {
    live = o.live;
    sized = o.sized;
    header = o.header;
    within = o.within;
    synced = o.synced;
    small = o.small;
  };
  front = refl;
  rest = refl;
  same_end = refl;
  longer = omega arith;
  same_bytes = λ a lt. refl;
}

take_page-front :
    (os : Os) (size p : ℕ) (ps : List ℕ) (s : Store)
    → s.free_list ≡ some (p ∷ ps)
    → take_page os size s.free_list s ≡ ok p (record s { free_list = some ps })
unfolding take_page
take_page-front os size p ps s e = ap (λ l. take_page os size l s) e

Reused-Extends :
    (s g h : Store) (p q : ℕ) (ps : List ℕ) → Extends s g → Reused g p ps q h → Reused s p ps q h
Reused-Extends s g h p q ps e a = record {
  IsOpen-after = a.IsOpen-after;
  front = a.front;
  rest = a.rest;
  same_end = a.same_end ∙ e.same_end;
  longer = omega (arith, a.longer, e.longer);
  same_bytes = λ b lt. a.same_bytes b (omega (arith, e.longer)) ∙ e.same_bytes b lt;
}

module _ {os : Os} {limit : ℕ} (grants : Grants os limit) (small : limit < 2 ^ 63) where
  -- In an open store with a freed page at the front of the free list and room to grow (the file
  -- doubled k times holds what is asked for, within a granted limit below 2^63), store_alloc with k
  -- + 1 rounds of fuel returns that page whatever the size asked for: only the list and the length
  -- of the file change.
  pub store_alloc_reuse :
      (k size p : ℕ) (ps : List ℕ) (s : Store)
      → IsOpen s
      → s.free_list ≡ some (p ∷ ps)
      → s.end + size ≤ s.file.size * 2 ^ k
      → s.file.size * 2 ^ k ≤ limit
      → Returns (Reused s p ps) (store_alloc os (suc k) size s)
  unfolding extended
  store_alloc_reuse zero size p ps s o waits room granted =
      elim (Bool-cases (ltb (free_space os s) size)) [
        | inr enough ↦
            rw (alloc-fits os size s o zero enough, take_page-front os size p ps s waits)
              (returns (handed_out p ps s o))
        | inl short ↦ absurd (omega (arith, space-short os size s o short))
      ]
  store_alloc_reuse (suc k) size p ps s o waits room granted =
      elim (Bool-cases (ltb (free_space os s) size)) [
        | inr enough ↦
            rw (alloc-fits os size s o (suc k) enough, take_page-front os size p ps s waits)
              (returns (handed_out p ps s o))
        | inl short ↦
            let doubled : s.file.size * 2 ≤ limit =
              omega (arith, doubling s.file.size k, le_doubled s.file.size k) in
            let e = extended-Extends grants small s o doubled in
            rw (alloc-short grants small (suc k) size s o doubled short) (
              Returns-mono
                (store_alloc_reuse k size p ps (extended grants small s) e.IsOpen-after waits
                  (omega (arith, doubling s.file.size k)) (omega (arith, doubling s.file.size k)))
                (λ q g a. Reused-Extends s (extended grants small s) g p q ps e a))
      ]

-- Where store_extend reports success but leaves the store as it is, and the free space is below the
-- size asked for, store_alloc does not return with any amount of fuel.
pub store_alloc-hang :
    (os : Os) (k size : ℕ) (s : Store)
    → store_extend os s ≡ (0, s)
    → ltb (free_space os s) size ≡ true
    → store_alloc os k size s ≡ hang
unfolding store_alloc
store_alloc-hang os zero size s stuck short = refl
store_alloc-hang os (suc k) size s stuck short =
    rw (short, stuck) (store_alloc-hang os k size s stuck short)
