-- ===== src/Btree/Leaf/Taken.antt =====
-- Where `store_alloc` gets the page for the copy of a leaf: at the end of the file, or the freed
-- page that waits in front.
use adventure.Base.{
  ℕ, suc, ◌+◌, ◌*◌, ◌^◌, ◌≤◌, ◌<◌, ◌≡◌, ◌∙◌, ◌⊎◌, inl, inr, some, List, [], ◌∷◌, arith, Returns,
  returns, refl, Returns-mono,
}
use adventure.Fs.{Os, Grants}
use adventure.Store.{Store, bytes_of, store_alloc, take_page}
use adventure.Store.Valid.{IsOpen, IsOpen-list}
use adventure.Store.Alloc.{
  store_alloc-Allocated, alloc-fits, space-enough, take_page-end, end_page-eq, ended-Allocated,
}
use adventure.Store.Reuse.{store_alloc_reuse}

-- The page at `q` is to come: there is no freed page and `q` is the end, or `q` waits in front of
-- `ps`, has `size` bytes and does not overlap the leaf at `page`.
pub data Coming (s : Store) (page size : ℕ) : ℕ → List ℕ → Type 0 where
  at_end : s.free_list ≡ some [] → Coming s page size s.end []
  waiting :
      {q : ℕ} {ps : List ℕ}
      → s.free_list ≡ some (q ∷ ps)
      → 32 ≤ q
      → q + size ≤ s.end
      → (page + size ≤ q) ⊎ (q + size ≤ page)
      → Coming s page size q ps

-- The page at `p` was taken from `s`.
pub record Taken (s : Store) (page size q : ℕ) (ps : List ℕ) (p : ℕ) (g : Store) : Type 0 where
  pub IsOpen-after : IsOpen g
  pub is : p ≡ q
  pub rest : g.free_list ≡ some ps
  pub behind_header : 32 ≤ p
  pub inside : p + size ≤ g.end
  pub longer : s.end ≤ g.end
  pub apart : (page + size ≤ p) ⊎ (p + size ≤ page)
  pub same_bytes : (a : ℕ) → 14 ≤ a → a < s.end → bytes_of g a ≡ bytes_of s a

module _ {os : Os} {limit : ℕ} (grants : Grants os limit) (small : limit < 2 ^ 63) (k : ℕ)
    (s : Store) (page size : ℕ) where
  pub store_alloc-Taken :
      {q : ℕ} {ps : List ℕ}
      → IsOpen s
      → page + size ≤ s.end
      → Coming s page size q ps
      → s.end + size ≤ s.file.size * 2 ^ k
      → s.file.size * 2 ^ k ≤ limit
      → Returns (Taken s page size q ps) (store_alloc os (suc k) size s)
  store_alloc-Taken o leaf (at_end list) room granted =
      Returns-mono (store_alloc-Allocated grants small k size s o (inr list) room granted) λ p g a.
        record {
          IsOpen-after = a.IsOpen-after;
          is = a.at_end;
          rest = a.same_list ∙ list;
          behind_header = omega (arith, a.at_end, o.header);
          inside = omega (arith, a.at_end, a.moved_end);
          longer = omega (arith, a.moved_end);
          apart = inl (omega (arith, a.at_end));
          same_bytes = λ b lo lt. a.same_bytes b lo (omega (arith, o.within));
        }
  store_alloc-Taken o leaf (waiting {q = q} {ps = ps} list behind inside apart) room granted =
      Returns-mono (store_alloc_reuse grants small k size q ps s o list room granted) λ p g a.
        record {
          IsOpen-after = a.IsOpen-after;
          is = a.front;
          rest = a.rest;
          behind_header = omega (arith, a.front);
          inside = omega (arith, a.front, a.same_end);
          longer = omega (arith, a.same_end);
          apart = omega (arith, a.front);
          same_bytes = λ b lo lt. a.same_bytes b (omega (arith, o.within));
        }

-- The page at `p` was taken and the file did not grow.
pub record TakenInside (s : Store) (page size q : ℕ) (ps : List ℕ) (p : ℕ) (g : Store)
    : Type 0 where
  pub taken : Taken s page size q ps p g
  pub same_size : g.file.size ≡ s.file.size
  pub end_le : g.end ≤ s.end + size

module _ (os : Os) (k : ℕ) (s : Store) (page size : ℕ) where
  -- The page that waits is taken, and the end stays where it is.
  pub store_alloc-waiting :
      (q : ℕ) (ps : List ℕ)
      → IsOpen s
      → s.free_list ≡ some (q ∷ ps)
      → 32 ≤ q
      → q + size ≤ s.end
      → (page + size ≤ q) ⊎ (q + size ≤ page)
      → s.end + size ≤ s.file.size
      → Returns
          (λ p g. TakenInside s page size q ps p g × (g.end ≡ s.end))
          (store_alloc os (suc k) size s)
  unfolding take_page
  store_alloc-waiting q ps o list behind in_file apart room =
      rw (alloc-fits os size s o k (space-enough os size s o room), list)
        (returns (
          record {
            taken = record {
              IsOpen-after = IsOpen-list s (some ps) o;
              is = refl;
              rest = refl;
              behind_header = behind;
              inside = in_file;
              longer = omega arith;
              apart = apart;
              same_bytes = λ b lo lt. refl;
            };
            same_size = refl;
            end_le = omega arith;
          },
          refl,
        ))

  -- Where the page fits into the file, no more of the file is asked for.
  pub store_alloc-TakenInside :
      {q : ℕ} {ps : List ℕ}
      → IsOpen s
      → page + size ≤ s.end
      → Coming s page size q ps
      → s.end + size ≤ s.file.size
      → Returns (TakenInside s page size q ps) (store_alloc os (suc k) size s)
  store_alloc-TakenInside o inside (at_end list) room =
      let a = ended-Allocated s size o room in
      rw
        (
          alloc-fits os size s o k (space-enough os size s o room),
          take_page-end os size s (inr list),
          end_page-eq s size o room os,
        )
        (returns record {
          taken = record {
            IsOpen-after = a.IsOpen-after;
            is = refl;
            rest = list;
            behind_header = o.header;
            inside = omega arith;
            longer = omega arith;
            apart = inl inside;
            same_bytes = λ b lo lt. a.same_bytes b lo (omega (arith, o.within));
          };
          same_size = refl;
          end_le = omega arith;
        })
  store_alloc-TakenInside o inside (waiting {q = q} {ps = ps} list behind in_file apart) room =
      Returns-mono (store_alloc-waiting q ps o list behind in_file apart room) (λ p g a. a.0)
