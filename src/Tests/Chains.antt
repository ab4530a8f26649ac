-- ===== src/Tests/Chains.antt =====
-- A linked list of three elements, and the runs on it.
use adventure.Base.{
  ℕ, ◌≡◌, refl, none, some, List, [], ◌∷◌, ◌++◌, ◌==◌, arith, ok, ◌>>◌, if◌then◌else◌,
}
use adventure.LinkedList.{
  Cells, Lists, Fresh, list_push, list_pop, list_unshift, list_shift, list_remove,
}
use adventure.LinkedList.Seg.{Node, elem, Seg, NotIn, Apart, Holds}
use adventure.LinkedList.Add.{list_push-Holds}
use adventure.LinkedList.{list_destroy}
use adventure.LinkedList.Destroy.{AllFree, list_destroy-AllFree}
use adventure.LinkedList.Remove.{list_remove-Holds, list_pop-push}

-- The elements 1, 2 and 3, with the values 7, 8 and 9.
abbrev cells : Cells
cells q =
    if q == 1
    then some (elem 0 2 7)
    else if q == 2
    then some (elem 1 3 8)
    else if q == 3
    then some (elem 2 0 9)
    else none

abbrev chain : List Node
chain = (1, 7) ∷ (2, 8) ∷ (3, 9) ∷ []

abbrev lists : Lists
lists = record { cells = cells; list = record { count = 3; first = 1; last = 3 } }

chain-Holds : Holds lists chain
unfolding Seg Apart NotIn
chain-Holds = record {
  seg = (refl, (refl, (refl, tt)));
  apart = (
    (λ e. absurd (omega arith)),
    ((λ e. absurd (omega arith)), ((λ e. absurd (omega arith)), tt)),
    (
      (λ e. absurd (omega arith)),
      ((λ e. absurd (omega arith)), tt),
      ((λ e. absurd (omega arith)), tt, tt),
    ),
  );
  first_is = refl;
  last_is = refl;
  counted = refl;
  small = omega arith;
}

abbrev calloc : Cells → ℕ
calloc h = 4

calloc-Fresh : Fresh calloc cells
calloc-Fresh = record { not_null = λ e. absurd (omega arith); unused = refl }

list_push-Holds_example :
    (t : Lists) × (list_push calloc 5 lists ≡ ok tt t) × Holds t (chain ++ (4, 5) ∷ [])
list_push-Holds_example = list_push-Holds 5 lists calloc-Fresh chain chain-Holds (omega arith)

list_remove-Holds_example :
    (t : Lists) × (list_remove 2 lists ≡ ok 8 t)
    × Holds t ((1, 7) ∷ (3, 9) ∷ [])
    × (t.cells 2 ≡ none)
list_remove-Holds_example = list_remove-Holds lists 2 8 ((1, 7) ∷ []) ((3, 9) ∷ []) chain-Holds

list_pop-push_example :
    ((t : Lists) × ((list_push calloc 5 >> list_pop) lists ≡ ok 5 t) × Holds t chain)
    × ((t : Lists) × ((list_unshift calloc 5 >> list_shift) lists ≡ ok 5 t) × Holds t chain)
list_pop-push_example = list_pop-push 5 lists chain calloc-Fresh chain-Holds (omega arith)

list_destroy-AllFree_example :
    (t : Lists) × (list_destroy 4 lists ≡ ok tt t)
    × AllFree t.cells chain
    × ((q : ℕ) → NotIn q chain → t.cells q ≡ cells q)
list_destroy-AllFree_example = list_destroy-AllFree 4 lists chain chain-Holds (omega arith)
