-- ===== src/LinkedList.antt =====
-- src/struct/list.c and list.h: a doubly linked list on a heap of elements. A pointer is a number,
-- 0 being NULL; a cell that is not allocated is `none`, and its use a fault. The address that the C
-- library's `calloc` gives is the argument `calloc`.
pub mod Seg
pub mod Split
pub mod Add
pub mod Unlink
pub mod Remove
pub mod Destroy
use adventure.Base.{
  ℕ, zero, suc, ◌+◌, ◌-◌, ◌^◌, ◌≡◌, ◌≢◌, Bool, true, false, Option, none, some, ◌==◌, if◌then◌else◌,
  u64, Cmd, Out, ok, fault, hang, pure, ◌>>=◌, ◌>>◌,
}

pub record Listelem : Type 0 where
  pub prev : ℕ
  pub next : ℕ
  pub val : ℕ

-- `struct list`
pub record LinkedList : Type 0 where
  pub count : ℕ
  pub first : ℕ
  pub last : ℕ

abbrev pub Cells : Type 0
Cells = ℕ → Option Listelem

-- A list and the heap of its elements.
pub record Lists : Type 0 where
  pub cells : Cells
  pub list : LinkedList

-- What is documented of `calloc` on the heap `h`, where it succeeds: the address is not NULL, and
-- the cell was not in use.
pub record Fresh (calloc : Cells → ℕ) (h : Cells) : Type 0 where
  pub not_null : calloc h ≢ 0
  pub unused : h (calloc h) ≡ none

unfoldable pub put : (a : ℕ) → Option Listelem → Cells → Cells
put a e h q = if q == a then e else h q

-- What a change of an element and a read of it do with the cell.
unfoldable pub write_elem : (a : ℕ) → (Listelem → Listelem) → Option Listelem → Cmd Lists (Unit {0})
write_elem a f none s = fault
write_elem a f (some e) s = ok tt (record s { cells = put a (some (f e)) s.cells })

unfoldable pub read_elem : Option Listelem → Cmd Lists Listelem
read_elem none s = fault
read_elem (some e) s = ok e s

abbrev pub set_prev : (a p : ℕ) → Cmd Lists (Unit {0})
set_prev a p s = write_elem a (λ e. record e { prev = p }) (s.cells a) s

abbrev pub set_next : (a n : ℕ) → Cmd Lists (Unit {0})
set_next a n s = write_elem a (λ e. record e { next = n }) (s.cells a) s

abbrev pub get_elem : (a : ℕ) → Cmd Lists Listelem
get_elem a s = read_elem (s.cells a) s

unfoldable pub free_cell : (a : ℕ) → Option Listelem → Cmd Lists (Unit {0})
free_cell a none s = fault
free_cell a (some e) s = ok tt (record s { cells = put a none s.cells })

-- `free`, which does nothing for NULL.
unfoldable pub free : (a : ℕ) → Cmd Lists (Unit {0})
free zero s = ok tt s
free (suc a) s = free_cell (suc a) (s.cells (suc a)) s

abbrev pub set_first : ℕ → Cmd Lists (Unit {0})
set_first a s = ok tt (record s { list = record s.list { first = a } })

abbrev pub set_last : ℕ → Cmd Lists (Unit {0})
set_last a s = ok tt (record s { list = record s.list { last = a } })

abbrev pub set_count : (ℕ → ℕ) → Cmd Lists (Unit {0})
set_count f s = ok tt (record s { list = record s.list { count = u64 (f s.list.count) } })

abbrev pub list_create : LinkedList
list_create = record { count = 0; first = 0; last = 0 }

-- `calloc` of an element, with the members that are set at once.
unfoldable pub new_elem : (calloc : Cells → ℕ) → Listelem → Cmd Lists ℕ
new_elem calloc e s = let a = calloc s.cells in ok a (record s { cells = put a (some e) s.cells })

-- The two branches of `list_push`.
unfoldable pub link_last : (elem last : ℕ) → Cmd Lists (Unit {0})
link_last elem zero = do set_first elem; set_last elem
link_last elem (suc l) = do set_prev elem (suc l); set_next (suc l) elem; set_last elem

unfoldable pub list_push : (calloc : Cells → ℕ) (val : ℕ) → Cmd Lists (Unit {0})
list_push calloc val s =
    (do
      elem ← new_elem calloc (record { prev = 0; next = 0; val = val })
      link_last elem s.list.last
      set_count (λ n. n + 1))
      s

-- The two branches of `list_unshift`.
unfoldable pub link_first : (elem first : ℕ) → Cmd Lists (Unit {0})
link_first elem zero = do set_first elem; set_last elem
link_first elem (suc f) = do set_prev (suc f) elem; set_first elem

unfoldable pub list_unshift : (calloc : Cells → ℕ) (val : ℕ) → Cmd Lists (Unit {0})
list_unshift calloc val s =
    (do
      elem ← new_elem calloc (record { prev = 0; next = s.list.first; val = val })
      link_first elem s.list.first
      set_count (λ n. n + 1))
      s

-- The four branches of `list_remove`, by whether the element is the first and the last one.
unfoldable pub unlink_elem : (is_first is_last : Bool) (elem : ℕ) → Cmd Lists (Unit {0})
unlink_elem true true elem = do set_first 0; set_last 0
unlink_elem false true elem = do e ← get_elem elem; set_last e.prev; set_next e.prev 0
unlink_elem true false elem = do e ← get_elem elem; set_first e.next; set_prev e.next 0
unlink_elem false false elem = do
  e ← get_elem elem
  set_next e.prev e.next
  f ← get_elem elem
  set_prev f.next f.prev

-- What follows the check; the value of the element.
unfoldable pub remove_elem : (elem : ℕ) → Cmd Lists ℕ
remove_elem elem s =
    (do
      unlink_elem (elem == s.list.first) (elem == s.list.last) elem
      set_count (λ n. n + (2 ^ 64 - 1))
      e ← get_elem elem
      free elem
      pure e.val)
      s

unfoldable pub list_remove : (elem : ℕ) → Cmd Lists ℕ
list_remove elem s = if s.list.first == 0 then ok 0 s else remove_elem elem s

unfoldable pub list_pop : Cmd Lists ℕ
list_pop s = list_remove s.list.last s

unfoldable pub list_shift : Cmd Lists ℕ
list_shift s = list_remove s.list.first s

abbrev pub list_count : Lists → ℕ
list_count s = s.list.count

-- `list->first? list->first->val : NULL`, and the same of the last.
unfoldable pub val_at : (a : ℕ) → Cmd Lists ℕ
val_at zero s = ok 0 s
val_at (suc a) s = (do e ← get_elem (suc a); pure e.val) s

unfoldable pub list_first : Cmd Lists ℕ
list_first s = val_at s.list.first s

unfoldable pub list_last : Cmd Lists ℕ
list_last s = val_at s.list.last s

-- The loop of `list_destroy`, on fuel.
unfoldable pub destroy_loop : (fuel cur : ℕ) → Cmd Lists (Unit {0})
destroy_loop zero cur s = hang
destroy_loop (suc fuel) zero s = ok tt s
destroy_loop (suc fuel) (suc c) s =
    (do e ← get_elem (suc c); free e.prev; f ← get_elem (suc c); destroy_loop fuel f.next) s

unfoldable pub list_destroy : (fuel : ℕ) → Cmd Lists (Unit {0})
list_destroy fuel s = (do destroy_loop fuel s.list.first; free s.list.last) s

-- The loop of `list_clear`, on fuel; `free_val` is `free` of a value, which the user allocated.
unfoldable pub clear_loop :
    (free_val : ℕ → Cmd Lists (Unit {0})) (fuel cur : ℕ) → Cmd Lists (Unit {0})
clear_loop free_val zero cur s = hang
clear_loop free_val (suc fuel) zero s = ok tt s
clear_loop free_val (suc fuel) (suc c) s =
    (do e ← get_elem (suc c); free_val e.val; f ← get_elem (suc c); clear_loop free_val fuel f.next)
      s

unfoldable pub list_clear : (free_val : ℕ → Cmd Lists (Unit {0})) (fuel : ℕ) → Cmd Lists (Unit {0})
list_clear free_val fuel s = clear_loop free_val fuel s.list.first s
