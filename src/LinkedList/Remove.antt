-- ===== src/LinkedList/Remove.antt =====
-- `list_remove` takes an element out of the sequence, wherever it stands.
use adventure.Base.{
  ℕ, zero, suc, ◌+◌, ◌-◌, ◌^◌, ◌<◌, ◌≡◌, ◌≢◌, refl, ◌∙◌, ap, subst, none, some, List, [], ◌∷◌, ◌++◌,
  ◌==◌, ne→==, arith, length, length-append, u64, ok, and_then-ok, ◌>>◌, ◌>>=◌, pure, if◌then◌else◌,
}
use adventure.LinkedList.{
  Listelem, Lists, put, get_elem, set_count, unlink_elem, remove_elem, free, free_cell, list_remove,
  list_pop, list_shift, Cells, Fresh, list_push, list_unshift,
}
use adventure.LinkedList.Seg.{
  Node, head_of, Apart, put_same, Seg-put, Holds, last_of-append, NotIn-append,
}
use adventure.LinkedList.Split.{
  Apart-split, Apart-join, AllOut-tail, NotIn-head, Apart-head, Apart-null, Apart-tail,
}
use adventure.LinkedList.Add.{list_push-Holds, list_unshift-Holds}
use adventure.LinkedList.Unlink.{Unlinked, read_elem-ok, unlink_elem-Unlinked}

pub free-ok :
    (a : ℕ) (s : Lists) {e : Listelem}
    → a ≢ 0
    → s.cells a ≡ some e
    → free a s ≡ ok tt (record s { cells = put a none s.cells })
unfolding free free_cell
free-ok zero s ne at = absurd (ne refl)
free-ok (suc a) s ne at = ap (λ o. free_cell (suc a) o s) at

head_of-ne :
    (xs : List Node) (x : Node) (ys : List Node)
    → Apart (xs ++ x ∷ ys)
    → head_of (xs ++ x ∷ ys) 0 ≢ 0
head_of-ne [] x ys apart = Apart-null x ys apart
head_of-ne (z ∷ xs) x ys apart = Apart-null z (xs ++ x ∷ ys) apart

module _ (s : Lists) (a v : ℕ) (xs ys : List Node) (h : Holds s (xs ++ (a, v) ∷ ys)) where
  -- What follows the branches.
  removed : Lists → Lists
  removed t = record {
    cells = put a none t.cells;
    list = record t.list { count = u64 (t.list.count + (2 ^ 64 - 1)) };
  }

  remove_elem-ok :
      (t : Lists)
      → unlink_elem (a == s.list.first) (a == s.list.last) a s ≡ ok tt t
      → Unlinked s xs a v ys t
      → a ≢ 0
      → remove_elem a s ≡ ok v (removed t)
  unfolding remove_elem removed
  remove_elem-ok t done u ne =
      let t1 = record t { list = record t.list { count = u64 (t.list.count + (2 ^ 64 - 1)) } } in
      and_then-ok
        (λ _. set_count (λ n. n + (2 ^ 64 - 1)) >> (get_elem a >>= λ e. free a >> pure e.val)) done
      ∙ and_then-ok (λ e. free a >> pure e.val) (read_elem-ok a t1 u.there)
      ∙ and_then-ok (λ _. pure v) (free-ok a t1 ne u.there)

  removed-Holds : (t : Lists) → Unlinked s xs a v ys t → Holds (removed t) (xs ++ ys)
  unfolding removed
  removed-Holds t u =
      let (front, rest, out) = Apart-split xs ((a, v) ∷ ys) h.apart in
      let outside = NotIn-append a xs ys (NotIn-head xs (a, v) ys out) (Apart-head a v ys rest) in
      let before = length-append xs ((a, v) ∷ ys) in
      let after = length-append xs ys in
      record {
        seg = Seg-put t.cells a none 0 (xs ++ ys) 0 outside u.seg;
        apart = Apart-join xs ys front (Apart-tail (a, v) ys rest) (AllOut-tail xs (a, v) ys out);
        first_is = u.first_is;
        last_is = u.last_is;
        counted = omega (arith, u.same_count, h.counted, h.small, before, after);
        small = omega (arith, h.small, before, after);
      }

  -- In a list that stands for a sequence of elements (linked both ways, no address NULL or twice,
  -- first, last and count right, fewer than 2^64), list_remove of any element of it returns its
  -- value; the list then stands for the sequence without it, and its cell is free.
  pub list_remove-Holds :
      (t : Lists) × (list_remove a s ≡ ok v t) × Holds t (xs ++ ys) × (t.cells a ≡ none)
  unfolding list_remove removed
  list_remove-Holds =
      let (front, rest, out) = Apart-split xs ((a, v) ∷ ys) h.apart in
      let (t, done, u) = unlink_elem-Unlinked s a v xs ys h in
      (
        removed t,
        ap (λ f. if f == 0 then ok 0 s else remove_elem a s) h.first_is
            ∙ ap (λ b. if b then ok 0 s else remove_elem a s)
                (ne→== (head_of (xs ++ (a, v) ∷ ys) 0) 0 (head_of-ne xs (a, v) ys h.apart))
            ∙ remove_elem-ok t done u (Apart-null (a, v) ys rest),
        removed-Holds t u,
        put_same a none t.cells,
      )

append_nil : (xs : List Node) → xs ++ [] ≡ xs
append_nil [] = refl
append_nil (x ∷ xs) = ap (λ ys. x ∷ ys) (append_nil xs)

pub list_pop-Holds :
    (s : Lists) (a v : ℕ) (xs : List Node)
    → Holds s (xs ++ (a, v) ∷ [])
    → (t : Lists) × (list_pop s ≡ ok v t) × Holds t xs
unfolding list_pop
list_pop-Holds s a v xs h =
    let (t, done, rest, freed) = list_remove-Holds s a v xs [] h in
    (
      t,
      ap (λ b. list_remove b s) (h.last_is ∙ last_of-append 0 xs ((a, v) ∷ [])) ∙ done,
      subst (λ zs. Holds t zs) (append_nil xs) rest,
    )

pub list_shift-Holds :
    (s : Lists) (a v : ℕ) (ys : List Node)
    → Holds s ((a, v) ∷ ys)
    → (t : Lists) × (list_shift s ≡ ok v t) × Holds t ys
unfolding list_shift
list_shift-Holds s a v ys h =
    let (t, done, rest, freed) = list_remove-Holds s a v [] ys h in
    (t, ap (λ b. list_remove b s) h.first_is ∙ done, rest)

-- In a list that stands for a sequence of fewer than 2^64 - 1 elements, where calloc gives an
-- address that is not NULL and not in use, list_pop after list_push and list_shift after
-- list_unshift return the value that was added, and the list stands for the same sequence again.
pub list_pop-push :
    {calloc : Cells → ℕ} (val : ℕ) (s : Lists) (xs : List Node)
    → Fresh calloc s.cells
    → Holds s xs
    → suc (length xs) < 2 ^ 64
    → ((t : Lists) × ((list_push calloc val >> list_pop) s ≡ ok val t) × Holds t xs)
      × ((t : Lists) × ((list_unshift calloc val >> list_shift) s ≡ ok val t) × Holds t xs)
list_pop-push {calloc = calloc} val s xs fresh h fits =
    let (t, pushed, after) = list_push-Holds val s fresh xs h fits in
    let (u, popped, back) = list_pop-Holds t (calloc s.cells) val xs after in
    let (v, unshifted, before) = list_unshift-Holds val s fresh xs h fits in
    let (w, shifted, again) = list_shift-Holds v (calloc s.cells) val xs before in
    (
      (u, and_then-ok (λ _. list_pop) pushed ∙ popped, back),
      (w, and_then-ok (λ _. list_shift) unshifted ∙ shifted, again),
    )
