-- ===== src/LinkedList/Destroy.antt =====
-- `list_destroy` frees each element behind the loop's pointer, and the last one after the loop.
use adventure.Base.{
  ℕ, zero, suc, ◌<◌, ◌≡◌, ◌≢◌, refl, ◌∙◌, ap, none, some, List, [], ◌∷◌, arith, length, ok,
  and_then-ok, ◌>>◌, ◌>>=◌,
}
use adventure.LinkedList.{Listelem, Cells, Lists, put, get_elem, free, destroy_loop, list_destroy}
use adventure.LinkedList.Seg.{
  Node, head_of, last_of, Seg, NotIn, Apart, put_same, put_other, Seg-put, Holds,
}
use adventure.LinkedList.Unlink.{read_elem-ok}
use adventure.LinkedList.Remove.{free-ok}

-- The heap after `free(a)`.
abbrev freed_at : (a : ℕ) → Cells → Cells
freed_at zero h = h
freed_at (suc a) h = put (suc a) none h

-- The heap when the loop ends, which began at `xs` with `p` before it.
abbrev freed_before : (p : ℕ) → List Node → Cells → Cells
freed_before p [] h = h
freed_before p (x ∷ xs) h = freed_before x.0 xs (freed_at p h)

-- The heap without the elements.
abbrev erased : List Node → Cells → Cells
erased [] h = h
erased (x ∷ xs) h = erased xs (put x.0 none h)

-- The heap without them and the one at `p`.
abbrev erased_from : (p : ℕ) → List Node → Cells → Cells
erased_from p [] h = freed_at p h
erased_from p (x ∷ xs) h = erased_from x.0 xs (freed_at p h)

-- The element before the loop's pointer is there and no part of what is left, or it is NULL.
data Behind (h : Cells) (xs : List Node) : ℕ → Type 0 where
  nothing : Behind h xs 0
  element : {p : ℕ} {e : Listelem} → p ≢ 0 → h p ≡ some e → NotIn p xs → Behind h xs p

free-Behind :
    (p : ℕ) (xs : List Node) (s : Lists)
    → Behind s.cells xs p
    → free p s ≡ ok tt (record s { cells = freed_at p s.cells })
unfolding free
free-Behind zero xs s b = refl
free-Behind (suc p) xs s (element ne at out) = free-ok (suc p) s ne at

Seg-freed :
    (h : Cells) (p q : ℕ) (xs : List Node)
    → Behind h xs p
    → Seg h q xs 0
    → Seg (freed_at p h) q xs 0
Seg-freed h zero q xs b seg = seg
Seg-freed h (suc p) q xs (element ne at out) seg = Seg-put h (suc p) none q xs 0 out seg

destroy_loop-ne :
    (fuel c : ℕ) (s : Lists)
    → c ≢ 0
    → destroy_loop (suc fuel) c s
      ≡ (get_elem c >>= λ e. free e.prev >> (get_elem c >>= λ f. destroy_loop fuel f.next)) s
unfolding destroy_loop
destroy_loop-ne fuel zero s ne = absurd (ne refl)
destroy_loop-ne fuel (suc c) s ne = refl

destroy_loop-ok :
    (fuel p : ℕ) (xs : List Node) (s : Lists)
    → Seg s.cells p xs 0
    → Apart xs
    → Behind s.cells xs p
    → length xs < fuel
    → (destroy_loop fuel (head_of xs 0) s ≡ ok tt (record s { cells = freed_before p xs s.cells }))
      × Behind (freed_before p xs s.cells) [] (last_of p xs)
unfolding Seg Apart
destroy_loop-ok zero p xs s seg apart b enough = absurd (omega arith)
destroy_loop-ok (suc fuel) p [] s seg apart b enough = (unfold destroy_loop in refl, b)
destroy_loop-ok (suc fuel) p (x ∷ xs) s seg apart b enough =
    let s1 = record s { cells = freed_at p s.cells } in
    let seg1 = Seg-freed s.cells p p (x ∷ xs) b seg in
    let (rest, last) =
      destroy_loop-ok fuel x.0 xs s1 seg1.1 apart.2 (element apart.0 seg1.0 apart.1)
        (omega arith) in
    (
      destroy_loop-ne fuel x.0 s apart.0
          ∙ and_then-ok (λ e. free e.prev >> (get_elem x.0 >>= λ f. destroy_loop fuel f.next))
              (read_elem-ok x.0 s seg.0)
          ∙ and_then-ok (λ _. get_elem x.0 >>= λ f. destroy_loop fuel f.next)
              (free-Behind p (x ∷ xs) s b)
          ∙ and_then-ok (λ f. destroy_loop fuel f.next) (read_elem-ok x.0 s1 seg1.0)
          ∙ rest,
      last,
    )

-- With the last one freed, all of them are.
freed_all :
    (p : ℕ) (xs : List Node) (h : Cells)
    → freed_at (last_of p xs) (freed_before p xs h) ≡ erased_from p xs h
freed_all p [] h = refl
freed_all p (x ∷ xs) h = freed_all x.0 xs (freed_at p h)

erased-other : (xs : List Node) (h : Cells) (q : ℕ) → NotIn q xs → erased xs h q ≡ h q
unfolding NotIn
erased-other [] h q out = refl
erased-other (x ∷ xs) h q out =
    erased-other xs (put x.0 none h) q out.1 ∙ put_other x.0 q none h out.0

-- No element of the list is there.
unfoldable pub AllFree : Cells → List Node → Type 0
AllFree h [] = Unit
AllFree h (x ∷ xs) = (h x.0 ≡ none) × AllFree h xs

erased-AllFree : (xs : List Node) (h : Cells) → Apart xs → AllFree (erased xs h) xs
unfolding Apart AllFree
erased-AllFree [] h apart = tt
erased-AllFree (x ∷ xs) h apart = (
  erased-other xs (put x.0 none h) x.0 apart.1 ∙ put_same x.0 none h,
  erased-AllFree xs (put x.0 none h) apart.2,
)

freed_at-ne : (p : ℕ) (h : Cells) → p ≢ 0 → freed_at p h ≡ put p none h
freed_at-ne zero h ne = absurd (ne refl)
freed_at-ne (suc p) h ne = refl

erased_from-eq :
    (p : ℕ) (xs : List Node) (h : Cells) → Apart xs → erased_from p xs h ≡ erased xs (freed_at p h)
unfolding Apart
erased_from-eq p [] h apart = refl
erased_from-eq p (x ∷ xs) h apart =
    erased_from-eq x.0 xs (freed_at p h) apart.2
    ∙ ap (erased xs) (freed_at-ne x.0 (freed_at p h) apart.0)

-- In a list that stands for a sequence of elements, with more fuel than elements, list_destroy
-- returns without a use of a freed element or a second free of one; every element of the list is
-- free then, and every other cell is as it was.
pub list_destroy-AllFree :
    (fuel : ℕ) (s : Lists) (xs : List Node)
    → Holds s xs
    → length xs < fuel
    → (t : Lists) × (list_destroy fuel s ≡ ok tt t)
      × AllFree t.cells xs
      × ((q : ℕ) → NotIn q xs → t.cells q ≡ s.cells q)
unfolding list_destroy
list_destroy-AllFree fuel s xs h enough =
    let (loop, last) = destroy_loop-ok fuel 0 xs s h.seg h.apart nothing enough in
    let s1 = record s { cells = freed_before 0 xs s.cells } in
    let e : freed_at (last_of 0 xs) s1.cells ≡ erased xs s.cells =
      freed_all 0 xs s.cells ∙ erased_from-eq 0 xs s.cells h.apart in
    (
      record s { cells = erased xs s.cells },
      and_then-ok (λ _. free s.list.last) (ap (λ c. destroy_loop fuel c s) h.first_is ∙ loop)
          ∙ ap (λ l. free l s1) h.last_is
          ∙ free-Behind (last_of 0 xs) [] s1 last
          ∙ ap (λ c. ok tt (record s { cells = c })) e,
      erased-AllFree xs s.cells h.apart,
      λ q out. erased-other xs s.cells q out,
    )
