-- ===== src/Tests/Arrays.antt =====
-- An array of four cells, and the runs on it.
use adventure.Base.{◌-◌, ◌≡◌, refl, true, some, none, [], ◌∷◌, ◌++◌, ltb, if◌then◌else◌, arith}
use adventure.Darray.{
  darray_resize, darray_reserve, int_index, fill, Darray, darray_push, darray_pop, darray_set,
  darray_get, darray_contract,
}
use adventure.Darray.Contents.{
  IsValid, Holds, darray_push-Holds, darray_pop-Holds, darray_get-set, darray_contract-fault,
}
use adventure.Tests.Machine.{heap, reblock, heap-Allocates}

-- A full array.
abbrev pair : Darray
pair = record { cells = 7 ∷ 9 ∷ []; size = 2; max_size = 2 }

pair-IsValid : IsValid pair
pair-IsValid = record { block = refl; within = omega arith }

pair-Holds : Holds pair (7 ∷ 9 ∷ [])
pair-Holds = record { valid = pair-IsValid; counted = refl; cells_are = λ i lt. refl }

darray_push-Holds_example :
    (b : Darray) × (darray_push heap 5 pair ≡ some (true, b)) × Holds b ((7 ∷ 9 ∷ []) ++ 5 ∷ [])
darray_push-Holds_example =
    darray_push-Holds heap-Allocates 5 pair (7 ∷ 9 ∷ []) pair-Holds (omega arith) (omega arith)

darray_pop-Holds_example : (b : Darray) × (darray_pop pair ≡ some (9, b)) × Holds b (7 ∷ [])
darray_pop-Holds_example = darray_pop-Holds 9 pair (7 ∷ []) pair-Holds

-- Room for a third element.
abbrev roomy : Darray
roomy = record { cells = 7 ∷ 9 ∷ 0 ∷ 0 ∷ []; size = 2; max_size = 4 }

darray_get-set_example :
    (b : Darray) × (darray_set 2 5 roomy ≡ some b)
    × (darray_get 2 b ≡ (if ltb 2 roomy.size then some 5 else some 0))
darray_get-set_example =
    darray_get-set 2 5 roomy (record { block = refl; within = omega arith }) (omega arith)

darray_contract-fault_example :
    (b : Darray) × (darray_contract heap pair ≡ (true, b)) × (darray_get (pair.size - 1) b ≡ none)
darray_contract-fault_example =
    darray_contract-fault heap-Allocates pair (omega arith) (omega arith) (omega arith)

-- Two new cells get the value.
resized :
    darray_resize heap 4 1 pair
    ≡ some (true, record { cells = 7 ∷ 9 ∷ 1 ∷ 1 ∷ []; size = 4; max_size = 4 })
unfolding darray_resize darray_reserve int_index fill heap reblock
resized = refl
