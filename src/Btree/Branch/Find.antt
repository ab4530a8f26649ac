-- ===== src/Btree/Branch/Find.antt =====
-- The search of a branch page.
use adventure.Base.{
  ℕ, zero, suc, ◌+◌, ◌-◌, ◌*◌, ◌^◌, ◌≤◌, ◌<◌, ◌≡◌, ◌∙◌, ap, inl, inr, List, [], ◌∷◌, Bool-cases,
  arith, length, get_or, ltb, lt→ltb, le→ltb, u16, u64, ok, and_then-ok,
}
use adventure.Store.{Store}
use adventure.Store.Access.{word}
use adventure.Store.Valid.{IsOpen}
use adventure.Page.{pg_used, hdr_word}
use adventure.Page.Access.{page_read-ok, header_read-ok}
use adventure.Btree.Search.{page_rounds, branch_scan, btree_branch_find}
use adventure.Btree.Branch.View.{Link, branch_bytes, BranchPage, BranchPage-Fields, find_link}

module _ (s : Store) (o : IsOpen s) (page key hdr : ℕ) where
  -- From the child `j` on, of which the keys `ls` are left.
  branch_scan-eq :
      (r j : ℕ) (ls : List Link)
      → length ls < r
      → pg_used hdr ≡ branch_bytes (j + length ls)
      → branch_bytes (j + length ls) < 2 ^ 16
      → page + branch_bytes (j + length ls) ≤ s.end
      → ((i : ℕ) → i < length ls → word s (page + branch_bytes (j + i)) ≡ (get_or ls i (0, 0)).0)
      → branch_scan r page key hdr (8 + 16 * j) s ≡ ok (8 + 16 * (j + find_link key ls)) s
  unfolding branch_scan find_link
  branch_scan-eq zero j ls rounds used small room keys = absurd (omega arith)
  branch_scan-eq (suc r) j [] rounds used small room keys =
      let bound : u64 (branch_bytes (j + 0) + 2 ^ 64 - 8) ≡ 8 + 16 * j = omega arith in
      rw (used, bound, le→ltb (8 + 16 * j) (8 + 16 * j) (omega arith))
        (ap (λ (t : ℕ). ok t s) (omega arith))
  branch_scan-eq (suc r) j (l ∷ ls) rounds used small room keys =
      let bound : u64 (branch_bytes (j + suc (length ls)) + 2 ^ 64 - 8)
          ≡ 8 + 16 * (j + suc (length ls)) =
        omega arith in
      let next : u16 (8 + 16 * j + 16) ≡ 8 + 16 * (suc j) = omega arith in
      let first : word s (page + (8 + 16 * j + 8)) ≡ l.0 =
        ap (word s) (omega arith) ∙ keys 0 (omega arith) in
      let rest =
        branch_scan-eq r (suc j) ls (omega arith) (omega (arith, used)) (omega arith) (omega arith)
          (λ i lt. ap (word s) (omega arith) ∙ keys (suc i) (omega arith)) in
      rw (used, bound, lt→ltb (8 + 16 * j) (8 + 16 * (j + suc (length ls))) (omega arith))
        (rw (page_read-ok s o page (8 + 16 * j + 8) (omega arith) (omega arith), first, next)
          (elim (Bool-cases (ltb key l.0)) [
            | inl e ↦ rw e (ap (λ (t : ℕ). ok t s) (omega arith))
            | inr e ↦ rw e (rest ∙ ap (λ (t : ℕ). ok t s) (omega arith))
          ]))

-- The search ends at the child before the first key that is above `key`.
pub btree_branch_find-eq :
    (s : Store) (page key flags size first : ℕ) (ls : List Link)
    → IsOpen s
    → BranchPage s page flags size first ls
    → btree_branch_find page key s ≡ ok (8 + 16 * find_link key ls) s
unfolding btree_branch_find
btree_branch_find-eq s page key flags size first ls o v =
    and_then-ok (λ hdr. branch_scan page_rounds page key hdr 8)
      (header_read-ok s o page (omega (arith, v.before_end, v.fits)) ∙ ap (λ h. ok h s) v.header)
    ∙ branch_scan-eq s o page key (hdr_word flags size (length ls) (branch_bytes (length ls)))
        page_rounds 0 ls (omega (arith, v.fits, v.small_size))
        ((BranchPage-Fields s page flags size first ls v).used_field ∙ omega arith)
        (omega (arith, v.fits, v.small_size)) (omega (arith, v.fits, v.before_end))
        (λ i lt. ap (word s) (omega arith) ∙ v.keys i lt)
    ∙ ap (λ (t : ℕ). ok t s) (omega arith)
