-- ===== src/Btree/Tree/Root.antt =====
-- A tree of one leaf: `btree_add` of a new key where there is room, and `btree_find` in it.
use adventure.Base.{
  ℕ, suc, ◌+◌, ◌*◌, ◌^◌, ◌≤◌, ◌<◌, ◌≡◌, ◌≢◌, refl, sym, ◌∙◌, ap, inl, inr, Option, none, some, List,
  [], arith, length, ◌==◌, ltb, Bool-cases, ltb→lt, ltb→le, if◌then◌else◌, ne→==, ok, subst,
  Returns, returns, Returns-eq, true,
}
use adventure.Fs.{Os, Grants}
use adventure.Store.{Store, bytes_of}
use adventure.Memory.Words.{split64, join64-pokes}
use adventure.Store.Access.{word, written}
use adventure.Store.Valid.{IsOpen, IsOpen-written}
use adventure.Store.Alloc.{NoneFree, store_alloc-Allocated}
use adventure.Page.{hdr_word}
use adventure.Page.Access.{header_read-ok, header_write-ok}
use adventure.Page.Header.{hdr_word-lt}
use adventure.Btree.Search.{is_leaf}
use adventure.Btree.Leaf.Items.{
  Item, find_item, find_item-le, find_item-value_of, insert, value_of, value_of-insert, Rises,
  item_other,
}
use adventure.Btree.Leaf.View.{used_bytes, leaf_flag, LeafPage, LeafPage-Fields}
use adventure.Btree.Leaf.Find.{btree_leaf_find-eq}
use adventure.Btree.Leaf.Taken.{Coming}
use adventure.Btree.Leaf.Add.{Inserted, btree_leaf_add-Inserted}
use adventure.Btree.Tree.{cursor, btree_create, btree_find, btree_add, btree_recur_add, leaf_part}

-- BTREE_LEAF | BTREE_ROOT
abbrev pub root_leaf : ℕ
root_leaf = 3

-- What a search for `key` ends at: the item of the key with its value, or, if there is none, the
-- end of the items or an item of another key.
pub data Ends (g : Store) (page n key : ℕ) : Option ℕ → ℕ → Type 0 where
  at_item :
      {v i : ℕ} → word g (page + i) ≡ key → word g (page + i + 8) ≡ v → Ends g page n key (some v) i
  at_end : {i : ℕ} → i ≡ used_bytes n → Ends g page n key none i
  at_other : {i : ℕ} → word g (page + i) ≢ key → Ends g page n key none i

module _ (g : Store) (page flags size : ℕ) (xs : List Item) (o : IsOpen g)
    (v : LeafPage g page flags size xs) (tagged : leaf_flag flags ≡ true) where
  pub leaf_header : is_leaf (hdr_word flags size (length xs) (used_bytes (length xs))) ≡ true
  unfolding is_leaf
  leaf_header = ap leaf_flag (LeafPage-Fields g page flags size xs v).flags_field ∙ tagged

module _ (g : Store) (page flags size : ℕ) (xs : List Item) (o : IsOpen g)
    (v : LeafPage g page flags size xs) (tagged : leaf_flag flags ≡ true) (low : ℕ)
    (rises : Rises low xs) (key : ℕ) where
  ends :
      (r : Option ℕ)
      → value_of key xs ≡ r
      → Ends g page (length xs) key r (used_bytes (find_item key xs))
  ends none e = elim (Bool-cases (ltb (find_item key xs) (length xs))) [
    | inl inside ↦
        let lt = ltb→lt _ _ inside in
        at_other (λ same.
          item_other key xs (find_item key xs) e lt (sym (v.keys (find_item key xs) lt) ∙ same))
    | inr outside ↦
        at_end (omega (arith, ltb→le (find_item key xs) (length xs) outside, find_item-le key xs))
  ]
  ends (some w) e =
      let (lt, item) = find_item-value_of low key w xs rises e in
      at_item (v.keys _ lt ∙ ap (λ x. x.0) item) (v.vals _ lt ∙ ap (λ x. x.1) item)

  -- Where btree_find ends, at any depth.
  pub btree_find-Ends :
      (d : ℕ)
      → (i : ℕ) × (btree_find (suc d) page key g ≡ ok (cursor page i) g)
        × Ends g page (length xs) key (value_of key xs) i
  unfolding btree_find
  btree_find-Ends d = (
    used_bytes (find_item key xs),
    rw (ne→== page 0 (omega (arith, v.behind_header))) (
        rw (header_read-ok g o page (omega (arith, v.before_end, v.fits)), v.header)
          (rw (leaf_header g page flags size xs o v tagged)
            (rw (btree_leaf_find-eq g page key flags size xs o v).0 refl))),
    ends (value_of key xs) refl,
  )

-- The tree at `root` has one leaf, with the items `xs`; every search in it ends where it is to.
pub record OneLeaf (size : ℕ) (xs : List Item) (value : ℕ → Option ℕ) (root : ℕ) (g : Store)
    : Type 0 where
  pub open_store : IsOpen g
  pub leaf : LeafPage g root root_leaf size xs
  pub rises : Rises 0 xs
  pub finds :
      (key : ℕ)
      → (i : ℕ) × (btree_find 1 root key g ≡ ok (cursor root i) g)
        × Ends g root (length xs) key (value key) i

module _ {os : Os} {limit : ℕ} (grants : Grants os limit) (small : limit < 2 ^ 63) (k : ℕ)
    (s : Store) (root key val size : ℕ) (xs : List Item) where
  OneLeaf-Inserted :
      (q : ℕ) (ps : List ℕ) (p : ℕ) (g : Store)
      → value_of key xs ≡ none
      → Inserted s root root_leaf size xs key val q ps p g
      → OneLeaf size (insert key val xs) (λ q. if key == q then some val else value_of q xs) p g
  OneLeaf-Inserted q ps p g new a = record {
    open_store = a.IsOpen-after;
    leaf = a.leaf;
    rises = a.Rises-after;
    finds = λ q.
        let (i, found, ends) =
          btree_find-Ends g p root_leaf size (insert key val xs) a.IsOpen-after a.leaf refl 0
            a.Rises-after q 0 in
        (
          i,
          found,
          subst (λ r. Ends g p (length (insert key val xs)) q r i)
              (value_of-insert key val xs q new) ends,
        );
  }

  -- On an open store, for a tree of one leaf whose keys rise below 2^63, with room for an item, a
  -- new key below 2^63 and a value below 2^64, where a page is to come (no page is freed, or one of
  -- the leaf's size that does not overlap it waits in front of the free list) and the file has room
  -- to grow (doubled k times it holds a page more, within a granted limit below 2^63), btree_add
  -- with k + 1 rounds of fuel and depth 1 returns the root of a tree of one leaf with rising keys,
  -- in which btree_find ends at the new key's item with its value and, for every other key, at an
  -- item of it with the value it had, or at none where there was none; the old leaf is then the
  -- page to come.
  pub btree_add-OneLeaf :
      {q : ℕ} {ps : List ℕ}
      → IsOpen s
      → Coming s root size q ps
      → LeafPage s root root_leaf size xs
      → Rises 0 xs
      → value_of key xs ≡ none
      → key < 2 ^ 63
      → val < 2 ^ 64
      → used_bytes (length xs) + 16 ≤ size
      → s.end + size ≤ s.file.size * 2 ^ k
      → s.file.size * 2 ^ k ≤ limit
      → Returns
          (λ p g.
            OneLeaf size (insert key val xs) (λ r. if key == r then some val else value_of r xs) p g
            × Coming g p size root ps)
          (btree_add os (suc k) 1 root key val s)
  unfolding btree_add btree_recur_add leaf_part
  btree_add-OneLeaf {q = q} {ps = ps} o coming v rises new fits_key fits_val room granted_room
        granted =
      let (p, g, eq, a) = Returns-eq (
        btree_leaf_add-Inserted grants small k s root key val root_leaf size xs o coming v rises new
          fits_key fits_val room granted_room granted) in
      rw (ne→== root 0 (omega (arith, v.behind_header))) (
        rw (header_read-ok s o root (omega (arith, v.before_end, v.fits)), v.header)
          (rw (leaf_header s root root_leaf size xs o v refl) (
            rw eq (
              rw (ne→== p 0 (omega (arith, a.leaf.behind_header)))
                (returns (OneLeaf-Inserted q ps p g new a, a.next))))))

-- The empty leaf that `btree_create` makes.
module _ (s : Store) (p : ℕ) (o : IsOpen s) (behind : 32 ≤ p) (room : p + 64 ≤ s.end) where
  abbrev fresh : Store
  fresh = written s p (split64 (hdr_word root_leaf 64 0 8))

  fresh-IsOpen : IsOpen fresh
  fresh-IsOpen = IsOpen-written s p (split64 (hdr_word root_leaf 64 0 8)) (omega arith) o

  fresh-LeafPage : LeafPage fresh p root_leaf 64 []
  fresh-LeafPage = record {
    behind_header = behind;
    before_end = room;
    byte_flags = omega arith;
    small_size = omega arith;
    whole = refl;
    fits = omega arith;
    header =
        join64-pokes (bytes_of s) p (hdr_word root_leaf 64 0 8)
        ∙ omega (arith, hdr_word-lt root_leaf 64 0 8);
    keys = λ i lt. absurd (omega arith);
    vals = λ i lt. absurd (omega arith);
  }

  fresh-OneLeaf : OneLeaf 64 [] (λ q. none) p fresh
  unfolding Rises value_of
  fresh-OneLeaf = record {
    open_store = fresh-IsOpen;
    leaf = fresh-LeafPage;
    rises = tt;
    finds = λ q. btree_find-Ends fresh p root_leaf 64 [] fresh-IsOpen fresh-LeafPage refl 0 tt q 0;
  }

-- On an open store with no freed page and room to grow (the file doubled k times holds 64 bytes
-- more, within a granted limit below 2^63), btree_create with k + 1 rounds of fuel returns the root
-- of a tree of one leaf with no items, in which btree_find finds no key.
pub btree_create-OneLeaf :
    {os : Os} {limit : ℕ} (grants : Grants os limit) (small : limit < 2 ^ 63) (k : ℕ) (s : Store)
    → IsOpen s
    → NoneFree s
    → s.end + 64 ≤ s.file.size * 2 ^ k
    → s.file.size * 2 ^ k ≤ limit
    → Returns (OneLeaf 64 [] (λ q. none)) (btree_create os (suc k) s)
unfolding btree_create
btree_create-OneLeaf {os = os} grants small k s o list room granted =
    let (p, g, eq, a) =
      Returns-eq (store_alloc-Allocated grants small k 64 s o list room granted) in
    let behind : 32 ≤ p = omega (arith, a.at_end, o.header) in
    let inside : p + 64 ≤ g.end = omega (arith, a.at_end, a.moved_end) in
    rw eq (
      rw (header_write-ok g a.IsOpen-after p root_leaf 64 0 8 (omega arith))
        (returns (fresh-OneLeaf g p a.IsOpen-after behind inside)))
