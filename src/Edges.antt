-- ===== src/Edges.antt =====
-- src/db/store/edges.c: the edges of a node as one page of the edge file, a word that holds the
-- page's size in bytes and then a word for the end node of each edge. `fuel` bounds `store_alloc`.
pub mod View
pub mod Add
pub mod Find
pub mod Gap
pub mod Remove
pub mod Lost
use adventure.Base.{
  ℕ, zero, suc, ◌+◌, ◌-◌, ◌*◌, ◌/◌, ◌^◌, leb, ◌==◌, ltb, if◌then◌else◌, u64, Cmd, ok, hang, pure,
  ◌>>=◌, ◌>>◌,
}
use adventure.Fs.{Os}
use adventure.Store.{Store, store_read_ui64, store_write_ui64, store_copy, store_alloc, store_free}

-- What follows once `size` and `e_new` are known.
unfoldable pub finish_add : (e_old end size e_new : ℕ) → Cmd Store ℕ
finish_add e_old end size e_new = do
  store_write_ui64 (u64 (e_new + size)) end
  store_write_ui64 e_new (u64 (size + 8))
  store_free e_old
  pure e_new

-- `start` is not used.
unfoldable pub edges_add : Os → (fuel e_old start end : ℕ) → Cmd Store ℕ
edges_add os fuel e_old start end =
    if e_old == 0
    then (do e_new ← store_alloc os fuel (8 + 8); finish_add e_old end 8 e_new)
    else (do
      size ← store_read_ui64 e_old
      e_new ← store_alloc os fuel (u64 (size + 8))
      store_copy e_new e_old size
      finish_add e_old end size e_new)

-- `for (i = hdr_sz; i < size; i += item_sz)`: the index of the first word that is `end`, or the
-- first index past the page.
unfoldable pub find_edge : (rounds e_old end size i : ℕ) → Cmd Store ℕ
find_edge zero e_old end size i s = hang
find_edge (suc r) e_old end size i s =
    let step = (do
      v ← store_read_ui64 (u64 (e_old + i))
      if v == end then pure i else find_edge r e_old end size (u64 (i + 8))) in
    if ltb i size then step s else ok i s

-- What follows once the new page is there: all but the word at `i` goes to it.
unfoldable pub close_gap : (e_old size i e_new : ℕ) → Cmd Store ℕ
close_gap e_old size i e_new = do
  store_copy e_new e_old i
  store_copy (u64 (e_new + i)) (u64 (e_old + i + 8)) (u64 (size + 2 ^ 65 - i - 8))
  store_write_ui64 e_new (u64 (size + 2 ^ 64 - 8))
  store_free e_old
  pure e_new

-- Each round moves `i` by 8, so `size` rounds are enough (`Edges.Find`).
unfoldable pub edges_remove : Os → (fuel e_old start end : ℕ) → Cmd Store ℕ
edges_remove os fuel e_old start end = if e_old == 0 then pure 0 else do
  size ← store_read_ui64 e_old
  i ← find_edge (size + 1) e_old end size 8
  let size_new = u64 (size + 2 ^ 64 - 8)
  if leb size i
      then pure e_old
      else if leb (2 ^ 63) size_new
      then pure e_old
      else do e_new ← store_alloc os fuel size_new; close_gap e_old size i e_new
