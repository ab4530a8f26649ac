-- ===== src/Darray.antt =====
-- src/struct/darray.c: an array of pointers that grows. A pointer is a number, 0 is NULL; the cells
-- are those of the allocated block. The C library's allocator is `Heap`, with what the proofs need
-- of it as `Allocates`. A cell read or written outside the block is a fault (`none`); `size_t`
-- products do not wrap below 2 ^ 61 cells, which `Allocates` bounds.
pub mod Contents
use adventure.Base.{
  ℕ, zero, suc, ◌+◌, ◌-◌, ◌*◌, ◌/◌, ◌≤◌, ◌<◌, ◌≡◌, ◌%◌, ◌^◌, ◌&&◌, Bool, true, false, Option, none,
  some, List, ltb, leb, if◌then◌else◌, length, get_elem?, get_or, set,
}

pub record Darray : Type 0 where
  pub cells : List ℕ
  pub size : ℕ
  pub max_size : ℕ

pub record Heap : Type 0 where
  -- `calloc(n, sizeof(void *))` and `realloc(data, n * sizeof(void *))`; `none` is NULL
  pub calloc : ℕ → Option (List ℕ)
  pub realloc : List ℕ → ℕ → Option (List ℕ)

-- The documented behaviour for blocks of up to `limit` cells: a block is as long as was asked for,
-- and the cells that both blocks have are kept.
pub record Allocates (heap : Heap) (limit : ℕ) : Type 0 where
  pub allocates : (n : ℕ) → n ≤ limit → (d : List ℕ) × (heap.calloc n ≡ some d) × (length d ≡ n)
  pub reallocates :
      (d : List ℕ) (n : ℕ)
      → 0 < n
      → n ≤ limit
      → (e : List ℕ) × (heap.realloc d n ≡ some e)
        × (length e ≡ n)
        × ((i : ℕ) → i < n → i < length d → get_or e i 0 ≡ get_or d i 0)

-- A `size_t` that was stored into an `int`, compared as a `size_t` again: the sign is extended.
unfoldable pub int_index : ℕ → ℕ
int_index n = if ltb (n % 2 ^ 32) (2 ^ 31) then n % 2 ^ 32 else n % 2 ^ 32 + (2 ^ 64 - 2 ^ 32)

-- `for(int i = arr->size; i < size; i++) arr->data[i] = val`, `left` rounds from `i` on. A negative
-- index, one outside the block, and the overflow of the `int` are faults.
unfoldable pub fill : (left i val : ℕ) → List ℕ → Option (List ℕ)
fill zero i val d = some d
fill (suc left) i val d =
    let rest = fill left (i + 1) val (set d i val) in
    if ltb i (2 ^ 31 - 1) && ltb i (length d) then rest else none

-- `arr->data[i] = elem`
unfoldable pub store_cell : (i elem : ℕ) → Darray → Option Darray
store_cell i elem arr =
    if ltb i (length arr.cells) then some (record arr { cells = set arr.cells i elem }) else none

-- `arr->data[arr->size] = elem; arr->size++`
unfoldable pub put_last : (elem : ℕ) → Darray → Option (Bool × Darray)
unfolding store_cell
put_last elem arr = elim (store_cell arr.size elem arr) [
  | none ↦ none
  | some b ↦ some (true, record b { size = b.size + 1 })
]

module _ (heap : Heap) where
  unfoldable pub darray_create : ℕ → Option Darray
  darray_create max_size = elim (heap.calloc max_size) [
    | none ↦ none
    | some d ↦ some (record { cells = d; size = 0; max_size = max_size })
  ]

  -- The result code: `true` is 0, `false` is -1.
  unfoldable pub darray_reserve : ℕ → Darray → Bool × Darray
  darray_reserve size arr =
      if ltb 0 size
      then (elim (heap.realloc arr.cells size) [
        | none ↦ (false, arr)
        | some d ↦ (true, record arr { cells = d; max_size = size })
      ])
      else (false, arr)

  unfoldable pub darray_resize : (size val : ℕ) → Darray → Option (Bool × Darray)
  unfolding darray_reserve fill int_index
  darray_resize size val arr =
      let (done, grown) = darray_reserve size arr in
      if done
      then (elim (fill (size - int_index arr.size) (int_index arr.size) val grown.cells) [
        | none ↦ none
        | some d ↦ some (true, record grown { cells = d; size = size })
      ])
      else some (false, grown)

  unfoldable pub darray_expand : Darray → Bool × Darray
  unfolding darray_reserve
  darray_expand arr = darray_reserve (arr.max_size * 2) arr

  unfoldable pub darray_contract : Darray → Bool × Darray
  unfolding darray_reserve
  darray_contract arr =
      if ltb arr.max_size 2 then (true, arr) else darray_reserve (arr.max_size / 2) arr

  unfoldable pub darray_push : (elem : ℕ) → Darray → Option (Bool × Darray)
  unfolding darray_expand put_last
  darray_push elem arr =
      if leb arr.max_size arr.size
      then (let (done, grown) = darray_expand arr in
          if done then put_last elem grown else some (false, grown))
      else put_last elem arr

-- The size is moved to `i` and not behind it, as the source has it.
unfoldable pub darray_set : (i elem : ℕ) → Darray → Option Darray
darray_set i elem arr =
    let moved = record arr { size = if ltb arr.size i then i else arr.size } in
    if ltb i arr.max_size
    then (if ltb i (length arr.cells)
        then some (record moved { cells = set arr.cells i elem })
        else none)
    else some arr

-- `some 0` is the NULL of an index beyond the size.
unfoldable pub darray_get : ℕ → Darray → Option ℕ
darray_get i arr = if ltb i arr.size then get_elem? arr.cells i else some 0

unfoldable pub darray_pop : Darray → Option (ℕ × Darray)
darray_pop arr =
    if ltb 0 arr.size
    then (elim (get_elem? arr.cells (arr.size - 1)) [
      | none ↦ none
      | some v ↦ some (v, record arr { size = arr.size - 1 })
    ])
    else some (0, arr)
