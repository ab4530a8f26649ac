-- ===== src/LinkedList/Unlink.antt =====
-- The four branches of `list_remove`, by what stands before and behind the element.
use adventure.Base.{
  ℕ, ◌≡◌, ◌≢◌, refl, sym, ◌∙◌, ap, ap₂, Bool, true, false, some, List, [], ◌∷◌, ◌++◌, ◌==◌, ==_refl,
  ne→==, ok, and_then-ok, ◌>>◌, ◌>>=◌,
}
use adventure.LinkedList.{
  Listelem, Lists, put, get_elem, set_prev, set_next, set_first, set_last, read_elem, unlink_elem,
}
use adventure.LinkedList.Seg.{
  Node, elem, head_of, last_of, Seg, NotIn, Apart, put_other, Seg-put, Seg-set_next, Seg-set_prev,
  Seg-append, Seg-split, Holds, last_of-append, last_of-ne, write_elem-ok,
}
use adventure.LinkedList.Split.{
  Apart-split, AllOut-tail, NotIn-head, NotIn-last_of, NotIn-first, Apart-head,
}

-- What the branches of `list_remove` leave: the element is there and is linked to by no other.
pub record Unlinked (s : Lists) (xs : List Node) (a v : ℕ) (ys : List Node) (t : Lists)
    : Type 0 where
  pub before : ℕ
  pub behind : ℕ
  pub there : t.cells a ≡ some (elem before behind v)
  pub seg : Seg t.cells 0 (xs ++ ys) 0
  pub first_is : t.list.first ≡ head_of (xs ++ ys) 0
  pub last_is : t.list.last ≡ last_of 0 (xs ++ ys)
  pub same_count : t.list.count ≡ s.list.count

pub read_elem-ok : (a : ℕ) (s : Lists) {e : Listelem} → s.cells a ≡ some e → get_elem a s ≡ ok e s
unfolding read_elem
read_elem-ok a s at = ap (λ o. read_elem o s) at

module _ (s : Lists) (a v : ℕ) where
  unlink_only :
      Holds s ((a, v) ∷ [])
      → (t : Lists) × (unlink_elem true true a s ≡ ok tt t) × Unlinked s [] a v [] t
  unfolding unlink_elem Seg
  unlink_only h = (
    record s { list = record s.list { first = 0; last = 0 } },
    refl,
    record {
      before = 0;
      behind = 0;
      there = h.seg.0;
      seg = tt;
      first_is = refl;
      last_is = refl;
      same_count = refl;
    },
  )

  unlink_last :
      (x : Node) (xs : List Node)
      → Holds s (x ∷ xs ++ (a, v) ∷ [])
      → (t : Lists) × (unlink_elem false true a s ≡ ok tt t) × Unlinked s (x ∷ xs) a v [] t
  unfolding unlink_elem Seg
  unlink_last x xs h =
      let l : ℕ = last_of x.0 xs in
      let (front, back) = Seg-split s.cells 0 (x ∷ xs) ((a, v) ∷ []) 0 h.seg in
      let (apart, alone, out) = Apart-split (x ∷ xs) ((a, v) ∷ []) h.apart in
      let (f, at, relinked) = Seg-set_next s.cells 0 x xs a apart front in
      let s1 = record s { list = record s.list { last = l } } in
      (
        record { cells = put l (some (record f { next = 0 })) s.cells; list = s1.list },
        and_then-ok (λ e. set_last e.prev >> set_next e.prev 0) (read_elem-ok a s back.0)
            ∙ write_elem-ok l (λ e. record e { next = 0 }) s1 at,
        record {
          before = l;
          behind = 0;
          there =
              put_other l a _ s.cells (last_of-ne a 0 x xs (NotIn-head (x ∷ xs) (a, v) [] out))
              ∙ back.0;
          seg = Seg-append _ 0 (x ∷ xs) [] 0 (relinked 0) tt;
          first_is = h.first_is;
          last_is = sym (last_of-append 0 (x ∷ xs) []);
          same_count = refl;
        },
      )

  unlink_first :
      (y : Node) (ys : List Node)
      → Holds s ((a, v) ∷ y ∷ ys)
      → (t : Lists) × (unlink_elem true false a s ≡ ok tt t) × Unlinked s [] a v (y ∷ ys) t
  unfolding unlink_elem Seg Apart NotIn
  unlink_first y ys h =
      let s1 = record s { list = record s.list { first = y.0 } } in
      (
        record { cells = put y.0 (some (elem 0 (head_of ys 0) y.1)) s.cells; list = s1.list },
        and_then-ok (λ e. set_first e.next >> set_prev e.next 0) (read_elem-ok a s h.seg.0)
            ∙ write_elem-ok y.0 (λ e. record e { prev = 0 }) s1 (h.seg.1).0,
        record {
          before = 0;
          behind = y.0;
          there = put_other y.0 a _ s.cells (h.apart.1).0 ∙ h.seg.0;
          seg = Seg-set_prev s.cells a y ys 0 0 (h.apart.2).1 h.seg.1;
          first_is = refl;
          last_is = h.last_is;
          same_count = refl;
        },
      )

  unlink_middle :
      (x : Node) (xs : List Node) (y : Node) (ys : List Node)
      → Holds s (x ∷ xs ++ (a, v) ∷ y ∷ ys)
      → (t : Lists) × (unlink_elem false false a s ≡ ok tt t) × Unlinked s (x ∷ xs) a v (y ∷ ys) t
  unfolding unlink_elem Seg Apart NotIn
  unlink_middle x xs y ys h =
      let l : ℕ = last_of x.0 xs in
      let (front, back) = Seg-split s.cells 0 (x ∷ xs) ((a, v) ∷ y ∷ ys) 0 h.seg in
      let (apart, rest, out) = Apart-split (x ∷ xs) ((a, v) ∷ y ∷ ys) h.apart in
      let tail = AllOut-tail (x ∷ xs) (a, v) (y ∷ ys) out in
      let (f, at, relinked) = Seg-set_next s.cells 0 x xs a apart front in
      let h1 = put l (some (record f { next = y.0 })) s.cells in
      let s1 = record s { cells = h1 } in
      let out_l = NotIn-last_of 0 x xs (y ∷ ys) tail in
      let a_l : a ≢ l = last_of-ne a 0 x xs (NotIn-head (x ∷ xs) (a, v) (y ∷ ys) out) in
      let back1 = Seg-put s.cells l (some (record f { next = y.0 })) a (y ∷ ys) 0 out_l back.1 in
      let there1 : h1 a ≡ some (elem l y.0 v) = put_other l a _ s.cells a_l ∙ back.0 in
      (
        record s1 { cells = put y.0 (some (elem l (head_of ys 0) y.1)) h1 },
        and_then-ok (λ e. set_next e.prev e.next >> (get_elem a >>= λ f. set_prev f.next f.prev))
              (read_elem-ok a s back.0)
            ∙ and_then-ok (λ _. get_elem a >>= λ f. set_prev f.next f.prev)
                (write_elem-ok l (λ e. record e { next = y.0 }) s at)
            ∙ and_then-ok (λ f. set_prev f.next f.prev) (read_elem-ok a s1 there1)
            ∙ write_elem-ok y.0 (λ e. record e { prev = l }) s1 back1.0,
        record {
          before = l;
          behind = y.0;
          there = put_other y.0 a _ h1 (rest.1).0 ∙ there1;
          seg =
              Seg-append _ 0 (x ∷ xs) (y ∷ ys) 0
                (Seg-put h1 y.0 _ 0 (x ∷ xs) y.0 (NotIn-head (x ∷ xs) y ys tail) (relinked y.0))
                (Seg-set_prev h1 a y ys 0 l (rest.2).1 back1);
          first_is = h.first_is;
          last_is =
              h.last_is
              ∙ last_of-append 0 (x ∷ xs) ((a, v) ∷ y ∷ ys)
              ∙ sym (last_of-append 0 (x ∷ xs) (y ∷ ys));
          same_count = refl;
        },
      )

  -- The two tests find out whether something stands there.
  abbrev none_of : List Node → Bool
  none_of [] = true
  none_of (x ∷ xs) = false

  first_test : (xs ys : List Node) → Holds s (xs ++ (a, v) ∷ ys) → (a == s.list.first) ≡ none_of xs
  first_test [] ys h = ap (λ b. a == b) h.first_is ∙ ==_refl a
  first_test (x ∷ xs) ys h =
      let (apart, rest, out) = Apart-split (x ∷ xs) ((a, v) ∷ ys) h.apart in
      ap (λ b. a == b) h.first_is
      ∙ ne→== a x.0 (NotIn-first x xs (NotIn-head (x ∷ xs) (a, v) ys out))

  last_test : (xs ys : List Node) → Holds s (xs ++ (a, v) ∷ ys) → (a == s.list.last) ≡ none_of ys
  last_test xs ys h =
      ap (λ b. a == b) (h.last_is ∙ last_of-append 0 xs ((a, v) ∷ ys))
      ∙ behind_test ys (Apart-split xs ((a, v) ∷ ys) h.apart).1
    where
      behind_test : (zs : List Node) → Apart ((a, v) ∷ zs) → (a == last_of a zs) ≡ none_of zs
      behind_test [] apart = ==_refl a
      behind_test (z ∷ zs) apart =
          ne→== a (last_of a (z ∷ zs)) (last_of-ne a a z zs (Apart-head a v (z ∷ zs) apart))

  by_place :
      (xs ys : List Node)
      → Holds s (xs ++ (a, v) ∷ ys)
      → (t : Lists) × (unlink_elem (none_of xs) (none_of ys) a s ≡ ok tt t) × Unlinked s xs a v ys t
  by_place [] [] h = unlink_only h
  by_place (x ∷ xs) [] h = unlink_last x xs h
  by_place [] (y ∷ ys) h = unlink_first y ys h
  by_place (x ∷ xs) (y ∷ ys) h = unlink_middle x xs y ys h

  pub unlink_elem-Unlinked :
      (xs ys : List Node)
      → Holds s (xs ++ (a, v) ∷ ys)
      → (t : Lists) × (unlink_elem (a == s.list.first) (a == s.list.last) a s ≡ ok tt t)
        × Unlinked s xs a v ys t
  unlink_elem-Unlinked xs ys h =
      let (t, done, u) = by_place xs ys h in
      (t, ap₂ (λ b c. unlink_elem b c a s) (first_test xs ys h) (last_test xs ys h) ∙ done, u)
