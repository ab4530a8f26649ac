-- ===== src/LinkedList/Add.antt =====
-- `list_push` and `list_unshift` add a value at an end of the sequence.
use adventure.Base.{
  ℕ, zero, suc, ◌+◌, ◌^◌, ◌<◌, ◌≡◌, ◌≢◌, refl, sym, ◌∙◌, ap, some, List, [], ◌∷◌, ◌++◌, arith,
  length, length-append, u64, ok, and_then-ok, ◌>>◌,
}
use adventure.LinkedList.{
  Listelem, Cells, Lists, Fresh, put, set_next, set_first, set_last, set_count, new_elem, link_last,
  link_first, list_push, list_unshift,
}
use adventure.LinkedList.Seg.{
  Node, elem, head_of, last_of, Seg, NotIn, Apart, put_same, put_other, Seg-put, Seg-set_next,
  Seg-set_prev, Seg-append, Holds, unused-NotIn, Apart-append_last, last_of-append, last_of-ne,
  last_of-ne_null, write_elem-ok,
}

-- The branches for a list that is not empty.
link_first-ok :
    (a f : ℕ) (s : Lists) {e : Listelem}
    → f ≢ 0
    → s.cells f ≡ some e
    → link_first a f s
      ≡ ok tt (record {
        cells = put f (some (record e { prev = a })) s.cells;
        list = record s.list { first = a };
      })
unfolding link_first
link_first-ok a zero s ne at = absurd (ne refl)
link_first-ok a (suc f) s ne at =
    and_then-ok (λ _. set_first a) (write_elem-ok (suc f) (λ e. record e { prev = a }) s at)

link_last-ok :
    (a l : ℕ) (s : Lists) {e f : Listelem}
    → l ≢ 0
    → s.cells a ≡ some e
    → put a (some (record e { prev = l })) s.cells l ≡ some f
    → link_last a l s
      ≡ ok tt (record {
        cells = put l (some (record f { next = a })) (put a (some (record e { prev = l })) s.cells);
        list = record s.list { last = a };
      })
unfolding link_last
link_last-ok a zero s ne new at = absurd (ne refl)
link_last-ok a (suc l) s {e = e} ne new at =
    and_then-ok (λ _. set_next (suc l) a >> set_last a)
      (write_elem-ok a (λ e. record e { prev = suc l }) s new)
    ∙ and_then-ok (λ _. set_last a)
        (write_elem-ok (suc l) (λ e. record e { next = a })
          (record s { cells = put a (some (record e { prev = suc l })) s.cells }) at)

module _ {calloc : Cells → ℕ} (val : ℕ) (s : Lists) (fresh : Fresh calloc s.cells) where
  abbrev a : ℕ
  a = calloc s.cells

  -- With the new element, whose successor is `f`.
  abbrev started : ℕ → Lists
  started f = record s { cells = put a (some (elem 0 f val)) s.cells }

  -- The new node in front.
  pub list_unshift-Holds :
      (xs : List Node)
      → Holds s xs
      → suc (length xs) < 2 ^ 64
      → (t : Lists) × (list_unshift calloc val s ≡ ok tt t) × Holds t ((a, val) ∷ xs)
  unfolding list_unshift new_elem Seg Apart NotIn
  list_unshift-Holds [] h fits = (
    record {
      cells = put a (some (elem 0 0 val)) s.cells;
      list = record { count = u64 (s.list.count + 1); first = a; last = a };
    },
    and_then-ok (λ _. set_count (λ n. n + 1))
        (ap (λ f. link_first a f (started f)) h.first_is ∙ (unfold link_first in refl)),
    record {
      seg = (put_same a _ s.cells, tt);
      apart = (fresh.not_null, tt, tt);
      first_is = refl;
      last_is = refl;
      counted = omega (arith, h.counted);
      small = fits;
    },
  )
  list_unshift-Holds (x ∷ xs) h fits =
      let new = elem 0 x.0 val in
      let h1 = put a (some new) s.cells in
      let out = unused-NotIn s.cells a 0 (x ∷ xs) 0 fresh.unused h.seg in
      let seg1 = Seg-put s.cells a (some new) 0 (x ∷ xs) 0 out h.seg in
      (
        record {
          cells = put x.0 (some (elem a (head_of xs 0) x.1)) h1;
          list = record { count = u64 (s.list.count + 1); first = a; last = s.list.last };
        },
        and_then-ok (λ _. set_count (λ n. n + 1))
            (ap (λ f. link_first a f (started f)) h.first_is
              ∙ link_first-ok a x.0 (started x.0) h.apart.0 seg1.0),
        record {
          seg = (
            put_other x.0 a _ h1 out.0 ∙ put_same a (some new) s.cells,
            Seg-set_prev h1 0 x xs 0 a h.apart.1 seg1,
          );
          apart = (fresh.not_null, out, h.apart);
          first_is = refl;
          last_is = h.last_is;
          counted = omega (arith, h.counted);
          small = fits;
        },
      )

  -- In a list that stands for a sequence of fewer than 2^64 - 1 elements, where calloc gives an
  -- address that is not NULL and not in use, list_push returns, and the list stands for the
  -- sequence with the new element and its value at the end.
  pub list_push-Holds :
      (xs : List Node)
      → Holds s xs
      → suc (length xs) < 2 ^ 64
      → (t : Lists) × (list_push calloc val s ≡ ok tt t) × Holds t (xs ++ (a, val) ∷ [])
  unfolding list_push new_elem Seg Apart NotIn
  list_push-Holds [] h fits = (
    record {
      cells = put a (some (elem 0 0 val)) s.cells;
      list = record { count = u64 (s.list.count + 1); first = a; last = a };
    },
    and_then-ok (λ _. set_count (λ n. n + 1))
        (ap (λ l. link_last a l (started 0)) h.last_is ∙ (unfold link_last in refl)),
    record {
      seg = (put_same a _ s.cells, tt);
      apart = (fresh.not_null, tt, tt);
      first_is = refl;
      last_is = refl;
      counted = omega (arith, h.counted);
      small = fits;
    },
  )
  list_push-Holds (x ∷ xs) h fits =
      let l : ℕ = last_of x.0 xs in
      let h1 = put a (some (elem 0 0 val)) s.cells in
      let h2 = put a (some (elem l 0 val)) h1 in
      let out = unused-NotIn s.cells a 0 (x ∷ xs) 0 fresh.unused h.seg in
      let seg2 =
        Seg-put h1 a (some (elem l 0 val)) 0 (x ∷ xs) 0 out
          (Seg-put s.cells a (some (elem 0 0 val)) 0 (x ∷ xs) 0 out h.seg) in
      let (e, at, relinked) = Seg-set_next h2 0 x xs 0 h.apart seg2 in
      (
        record {
          cells = put l (some (record e { next = a })) h2;
          list = record { count = u64 (s.list.count + 1); first = s.list.first; last = a };
        },
        and_then-ok (λ _. set_count (λ n. n + 1))
            (ap (λ l. link_last a l (started 0)) h.last_is
              ∙ link_last-ok a l (started 0) (last_of-ne_null 0 x xs h.apart) (put_same a _ s.cells)
                  at),
        record {
          seg = Seg-append _ 0 (x ∷ xs) ((a, val) ∷ []) 0 (relinked a) (
            put_other l a _ h2 (last_of-ne a 0 x xs out) ∙ put_same a (some (elem l 0 val)) h1,
            tt,
          );
          apart = Apart-append_last (x ∷ xs) a val fresh.not_null out h.apart;
          first_is = h.first_is;
          last_is = sym (last_of-append 0 (x ∷ xs) ((a, val) ∷ []));
          counted = omega (arith, h.counted, length-append (x ∷ xs) ((a, val) ∷ []));
          small = omega (arith, length-append (x ∷ xs) ((a, val) ∷ []));
        },
      )
