-- ===== src/Darray/Contents.antt =====
-- An array as the list of its elements: pushing is adding at the end, popping takes it back.
use adventure.Base.{
  ℕ, zero, suc, ◌+◌, ◌-◌, ◌*◌, ◌/◌, ◌≤◌, ◌<◌, ◌≡◌, ◌≢◌, refl, sym, ◌∙◌, ap, inl, inr, true, false,
  none, some, List, [], ◌∷◌, ◌++◌, ltb, leb, ltb→lt, ltb→le, leb→lt, Bool-cases, if◌then◌else◌,
  length, get_elem?, get_or, set, arith, length-append, length-set, get_or-append_left,
  get_or-append_last, get_elem?-eq-get_or,
}
use adventure.Darray.{
  Darray, Heap, Allocates, put_last, darray_reserve, darray_expand, darray_contract, darray_push,
  darray_set, darray_get, darray_pop,
}

-- The block has `max_size` cells, and the elements are in it.
pub record IsValid (arr : Darray) : Type 0 where
  pub block : length arr.cells ≡ arr.max_size
  pub within : arr.size ≤ arr.max_size

-- The elements of `arr` are `xs`.
pub record Holds (arr : Darray) (xs : List ℕ) : Type 0 where
  pub valid : IsValid arr
  pub counted : length xs ≡ arr.size
  pub cells_are : (i : ℕ) → i < length xs → get_or arr.cells i 0 ≡ get_or xs i 0

get_or-set_self : (d : List ℕ) (i v : ℕ) → i < length d → get_or (set d i v) i 0 ≡ v
get_or-set_self [] i v h = absurd (omega arith)
get_or-set_self (x ∷ d) zero v h = refl
get_or-set_self (x ∷ d) (suc i) v h = get_or-set_self d i v (omega arith)

get_or-set_ne : (d : List ℕ) (i j v : ℕ) → i ≢ j → get_or (set d i v) j 0 ≡ get_or d j 0
get_or-set_ne [] i j v h = refl
get_or-set_ne (x ∷ d) zero zero v h = absurd (h refl)
get_or-set_ne (x ∷ d) zero (suc j) v h = refl
get_or-set_ne (x ∷ d) (suc i) zero v h = refl
get_or-set_ne (x ∷ d) (suc i) (suc j) v h = get_or-set_ne d i j v (λ e. h (ap suc e))

-- Writing the cell behind the elements adds an element.
put_last-Holds :
    (x : ℕ) (arr : Darray) (xs : List ℕ)
    → Holds arr xs
    → arr.size < arr.max_size
    → (b : Darray) × (put_last x arr ≡ some (true, b)) × Holds b (xs ++ x ∷ [])
unfolding put_last
put_last-Holds x arr xs h room = (
  record arr { cells = set arr.cells arr.size x; size = arr.size + 1 },
  ground (arith, h.valid.block),
  record {
    valid = record {
      block = length-set arr.cells arr.size x ∙ h.valid.block;
      within = omega arith;
    };
    counted = omega (arith, length-append xs (x ∷ []), h.counted);
    cells_are = λ i lt. elim (Bool-cases (ltb i (length xs))) [
      | inl old ↦
          let below = ltb→lt i (length xs) old in
          get_or-set_ne arr.cells arr.size i x (λ e. absurd (omega (arith, h.counted)))
          ∙ h.cells_are i below
          ∙ sym (get_or-append_left xs (x ∷ []) i 0 below)
      | inr new ↦
          let last : i ≡ length xs =
            omega (arith, ltb→le i (length xs) new, length-append xs (x ∷ [])) in
          rw last (
            rw h.counted (get_or-set_self arr.cells arr.size x (omega (arith, h.valid.block)))
            ∙ sym (get_or-append_last xs x 0))
    ];
  },
)

-- A longer block with the old cells in it holds the same elements.
regrown :
    (arr : Darray) (xs d : List ℕ) (n : ℕ)
    → Holds arr xs
    → arr.max_size ≤ n
    → length d ≡ n
    → ((i : ℕ) → i < n → i < length arr.cells → get_or d i 0 ≡ get_or arr.cells i 0)
    → Holds (record arr { cells = d; max_size = n }) xs
regrown arr xs d n h longer long kept = record {
  valid = record { block = long; within = omega (arith, h.valid.within) };
  counted = h.counted;
  cells_are = λ i lt.
      kept i (omega (arith, h.counted, h.valid.within))
        (omega (arith, h.counted, h.valid.within, h.valid.block))
      ∙ h.cells_are i lt;
}

expand-eq :
    (heap : Heap) (arr : Darray) (d : List ℕ)
    → 0 < arr.max_size
    → heap.realloc arr.cells (arr.max_size * 2) ≡ some d
    → darray_expand heap arr ≡ (true, record arr { cells = d; max_size = arr.max_size * 2 })
unfolding darray_expand darray_reserve
expand-eq heap arr d pos granted = ground arith

module _ {heap : Heap} {limit : ℕ} (a : Allocates heap limit) where
  -- darray_push on an array that holds xs, with at least one cell and an allocator that grants
  -- blocks of twice its cells, succeeds and gives an array that holds xs and then the element, also
  -- where the block is full and grows.
  pub darray_push-Holds :
      (x : ℕ) (arr : Darray) (xs : List ℕ)
      → Holds arr xs
      → 0 < arr.max_size
      → arr.max_size * 2 ≤ limit
      → (b : Darray) × (darray_push heap x arr ≡ some (true, b)) × Holds b (xs ++ x ∷ [])
  darray_push-Holds x arr xs h pos fits = elim (Bool-cases (leb arr.max_size arr.size)) [
    | inr room ↦
        let (b, e, after) = put_last-Holds x arr xs h (leb→lt arr.max_size arr.size room) in
        (b, at_once room ∙ e, after)
    | inl full ↦
        let (d, granted, long, kept) =
          a.reallocates arr.cells (arr.max_size * 2) (omega arith) fits in
        let bigger = record arr { cells = d; max_size = arr.max_size * 2 } in
        let (b, e, after) =
          put_last-Holds x bigger xs (regrown arr xs d (arr.max_size * 2) h (omega arith) long kept)
            (omega (arith, h.valid.within)) in
        (b, grown full d granted ∙ e, after)
  ]
    where
      at_once : leb arr.max_size arr.size ≡ false → darray_push heap x arr ≡ put_last x arr
      at_once e = unfold darray_push in rw e refl

      grown :
          leb arr.max_size arr.size ≡ true
          → (d : List ℕ) → heap.realloc arr.cells (arr.max_size * 2) ≡ some d
          → darray_push heap x arr
            ≡ put_last x (record arr { cells = d; max_size = arr.max_size * 2 })
      grown full d granted = unfold darray_push in rw (full, expand-eq heap arr d pos granted) refl

pop-eq :
    (arr : Darray) (x : ℕ)
    → 1 ≤ arr.size
    → get_elem? arr.cells (arr.size - 1) ≡ some x
    → darray_pop arr ≡ some (x, record arr { size = arr.size - 1 })
unfolding darray_pop
pop-eq arr x h e = ground arith

contract-eq :
    (heap : Heap) (arr : Darray) (d : List ℕ)
    → 2 ≤ arr.max_size
    → heap.realloc arr.cells (arr.max_size / 2) ≡ some d
    → darray_contract heap arr ≡ (true, record arr { cells = d; max_size = arr.max_size / 2 })
unfolding darray_contract darray_reserve
contract-eq heap arr d two granted = ground arith

get_elem?_beyond : (d : List ℕ) (i : ℕ) → length d ≤ i → get_elem? d i ≡ none
get_elem?_beyond [] i h = refl
get_elem?_beyond (x ∷ d) zero h = absurd (omega arith)
get_elem?_beyond (x ∷ d) (suc i) h = get_elem?_beyond d i (omega arith)

-- darray_pop on an array that holds xs and then x gives x and an array that holds xs.
pub darray_pop-Holds :
    (x : ℕ) (arr : Darray) (xs : List ℕ)
    → Holds arr (xs ++ x ∷ [])
    → (b : Darray) × (darray_pop arr ≡ some (x, b)) × Holds b xs
darray_pop-Holds x arr xs h =
    let some_left : 1 ≤ arr.size = omega (arith, h.counted, length-append xs (x ∷ [])) in
    let at : arr.size - 1 ≡ length xs = omega (arith, h.counted, length-append xs (x ∷ [])) in
    let there : arr.size - 1 < length arr.cells = omega (arith, h.valid.block, h.valid.within) in
    let got : get_or arr.cells (arr.size - 1) 0 ≡ x =
      ap (λ (i : ℕ). get_or arr.cells i 0) at
      ∙ h.cells_are (length xs) (omega (arith, length-append xs (x ∷ [])))
      ∙ get_or-append_last xs x 0 in
    (
      record arr { size = arr.size - 1 },
      pop-eq arr x some_left (get_elem?-eq-get_or arr.cells (arr.size - 1) 0 there ∙ ap some got),
      record {
        valid = record { block = h.valid.block; within = omega (arith, h.valid.within) };
        counted = sym at;
        cells_are = λ i lt.
            h.cells_are i (omega (arith, length-append xs (x ∷ [])))
            ∙ get_or-append_left xs (x ∷ []) i 0 lt;
      },
    )

-- A pop from an empty array gives NULL and changes nothing.
pub darray_pop-none : (arr : Darray) → arr.size ≡ 0 → darray_pop arr ≡ some (0, arr)
unfolding darray_pop
darray_pop-none arr e = ground arith

-- After darray_set on a valid array at an index that its block has, darray_get gives the new
-- element if the index was below the size, and NULL otherwise.
pub darray_get-set :
    (i x : ℕ) (arr : Darray)
    → IsValid arr
    → i < arr.max_size
    → (b : Darray) × (darray_set i x arr ≡ some b)
      × (darray_get i b ≡ (if ltb i arr.size then some x else some 0))
darray_get-set i x arr v h = (
  record arr { cells = set arr.cells i x; size = if ltb arr.size i then i else arr.size },
  unfold darray_set in ground (arith, v.block),
  unfold darray_get in
      ground (
        arith,
        v.block,
        get_elem?-eq-get_or (set arr.cells i x) i 0,
        get_or-set_self arr.cells i x,
        length-set arr.cells i x,
      ),
)

-- Where there are at least two cells, half of them are fewer than the elements, and the allocator
-- grants blocks of that many, darray_contract succeeds and leaves an array whose last element
-- darray_get reads beyond the block.
pub darray_contract-fault :
    {heap : Heap} {limit : ℕ}
    → Allocates heap limit
    → (arr : Darray) → 2 ≤ arr.max_size
    → arr.max_size / 2 < arr.size
    → arr.max_size ≤ limit
    → (b : Darray) × (darray_contract heap arr ≡ (true, b)) × (darray_get (arr.size - 1) b ≡ none)
darray_contract-fault {heap} a arr two over fits =
    let (d, granted, long, kept) =
      a.reallocates arr.cells (arr.max_size / 2) (omega arith) (omega arith) in
    (
      record arr { cells = d; max_size = arr.max_size / 2 },
      contract-eq heap arr d two granted,
      unfold darray_get in ground (arith, get_elem?_beyond d (arr.size - 1)),
    )
