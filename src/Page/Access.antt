-- ===== src/Page/Access.antt =====
-- Words and runs of a page of an open store, where the 16-bit offsets lie inside the file.
use native.Mathlib.Nat.{add-zero}
use adventure.Base.{ℕ, ◌+◌, ◌^◌, ◌≤◌, ◌<◌, ◌≡◌, ◌∙◌, ap, ◌⊎◌, u16, u64, ok, arith}
use adventure.Memory.Words.{split64}
use adventure.Store.{Store}
use adventure.Store.Access.{word, written, copied, read64-ok, write64-ok, copy-ok}
use adventure.Store.Valid.{IsOpen}
use adventure.Page.{hdr_word, hdr_write, read_ui64, write_ui64, copy}

module _ (s : Store) (o : IsOpen s) (page : ℕ) where
  pub page_read-ok :
      (i : ℕ) → i < 2 ^ 16 → page + i + 8 ≤ s.end → read_ui64 page i s ≡ ok (word s (page + i)) s
  unfolding read_ui64
  page_read-ok i small room =
      let at : u64 (page + u16 i) ≡ page + i = omega (arith, o.within, o.small) in
      rw at (read64-ok s (page + i) (omega (arith, o.within, o.live)))

  pub page_write-ok :
      (i n : ℕ)
      → i < 2 ^ 16
      → page + i + 8 ≤ s.end
      → write_ui64 page i n s ≡ ok tt (written s (page + i) (split64 n))
  unfolding write_ui64
  page_write-ok i n small room =
      let at : u64 (page + u16 i) ≡ page + i = omega (arith, o.within, o.small) in
      rw at (write64-ok s (page + i) n (omega (arith, o.within, o.live)))

  pub header_write-ok :
      (flags sz n used : ℕ)
      → page + 8 ≤ s.end
      → hdr_write page flags sz n used s
        ≡ ok tt (written s page (split64 (hdr_word flags sz n used)))
  unfolding hdr_write
  header_write-ok flags sz n used room =
      page_write-ok 0 (hdr_word flags sz n used) (omega arith) (omega arith)
      ∙ ap (λ (q : ℕ). ok tt (written s q (split64 (hdr_word flags sz n used)))) (add-zero page)

  -- The header of the page is its word at offset 0.
  pub header_read-ok : page + 8 ≤ s.end → read_ui64 page 0 s ≡ ok (word s page) s
  header_read-ok room =
      page_read-ok 0 (omega arith) (omega arith) ∙ ap (λ (q : ℕ). ok (word s q) s) (add-zero page)

  pub page_copy-ok :
      (di src si n : ℕ)
      → di < 2 ^ 16
      → si < 2 ^ 16
      → n < 2 ^ 16
      → page + di + n ≤ s.end
      → src + si + n ≤ s.end
      → (page + di + n ≤ src + si) ⊎ (src + si + n ≤ page + di)
      → copy page di src si n s ≡ ok tt (copied s (page + di) (src + si) n)
  unfolding copy
  page_copy-ok di src si n hd hs hn into from far =
      let e1 : u64 (page + u16 di) ≡ page + di = omega (arith, o.within, o.small) in
      let e2 : u64 (src + u16 si) ≡ src + si = omega (arith, o.within, o.small) in
      let e3 : u16 n ≡ n = omega arith in
      rw (e1, e2, e3)
        (copy-ok s (page + di) (src + si) n (omega (arith, o.within, o.live))
          (omega (arith, o.within, o.live)) far)
