-- ===== src/Hashmap/Shadow.antt =====
-- `hmap_insert` puts a value in front of those that a key has, `hmap_remove` takes it away again.
use adventure.Base.{
  ℕ, ◌%◌, ◌≡◌, refl, sym, ◌∙◌, ap, inl, inr, Option, some, List, ◌∷◌, ◌==◌, ==_refl, ==_iff, ne→==,
  Bool-cases, ok, arith, get_elem?-set_self, set-set,
}
use adventure.Hashmap.{
  Entry, Hashmap, read_val, same_key, place, hmap_get_entry, bucket_at, put_bucket, value_at,
  unlink, remove_at, remove_from, hmap_insert, hmap_remove,
}
use adventure.Hashmap.Search.{find}
use adventure.Hashmap.Table.{
  IsTable, IsKeyed, entries, stored, rebucketed, get_bucket-eq, entries_same, entries_other,
  entries_near,
}

module _ {K : Type 0} (map : Hashmap K) (t : IsTable map) where
  -- A bucket that is written with the entries that it has.
  entries_rewritten :
      (hash h : ℕ) → entries (rebucketed map hash (entries map hash)) h ≡ entries map h
  entries_rewritten hash h = elim (Bool-cases (hash % map.size == h % map.size)) [
    | inr far ↦
        entries_other map hash t (entries map hash) h (λ e. (cc (==_refl (h % map.size), far, e)))
    | inl near ↦
        let one = (==_iff _ _).0 near in
        entries_near (rebucketed map hash (entries map hash)) hash h one
        ∙ entries_same map hash t (entries map hash)
        ∙ sym (entries_near map hash h one)
  ]

  bucket_at-rebucketed :
      (hash : ℕ) (es : List (Entry K))
      → bucket_at hash (rebucketed map hash es) ≡ ok (some es) (rebucketed map hash es)
  unfolding bucket_at
  bucket_at-rebucketed hash es =
      rw
        (
          ne→== map.size 0 (omega (arith, t.positive)),
          get_elem?-set_self map.buckets (hash % map.size) (some es)
              (omega (arith, t.positive, t.block)),
        )
        refl

  module _ (l : IsKeyed map) (key : K) (v : ℕ) where
    abbrev front : Entry K
    front = record { key = key; val = v; hash = map.hash key }

    abbrev shadowed : Hashmap K
    shadowed = rebucketed map (map.hash key) (front ∷ entries map (map.hash key))

    insert-eq : hmap_insert key v map ≡ ok tt shadowed
    unfolding hmap_insert
    insert-eq = let (m, got, put) = get_bucket-eq map (map.hash key) t in rw got (put _)

    place-front : (es : List (Entry K)) → hmap_get_entry shadowed key (front ∷ es) ≡ some 0
    unfolding hmap_get_entry place same_key
    place-front es = rw (==_refl (map.hash key), l.reflexive key) refl

    front-taken :
        (es : List (Entry K))
        → remove_at
            (map.hash key)
            (front ∷ es)
            (some 0)
            (rebucketed map (map.hash key) (front ∷ es))
          ≡ ok v (rebucketed map (map.hash key) es)
    unfolding remove_at value_at read_val unlink put_bucket
    front-taken es =
        ap (λ (bs : List (Option (List (Entry K)))). ok v (record map { buckets = bs }))
          (set-set map.buckets (map.hash key % map.size) (some (front ∷ es)) (some es))

    remove-eq :
        hmap_remove key shadowed ≡ ok v (rebucketed map (map.hash key) (entries map (map.hash key)))
    unfolding hmap_remove remove_from
    remove-eq =
        let es = entries map (map.hash key) in
        rw (bucket_at-rebucketed (map.hash key) (front ∷ es)) (
          ap (λ o. remove_at (map.hash key) (front ∷ es) o shadowed) (place-front es)
          ∙ front-taken es)

    -- In a table that has a bucket for each hash and whose compare is an equality with one hash for
    -- equal keys, hmap_insert gives the key the new value whatever it had; hmap_remove then returns
    -- that value, and every key has the value again that it had before the two calls.
    pub hmap_remove-insert :
        (m n : Hashmap K) × (hmap_insert key v map ≡ ok tt m)
        × (stored m key ≡ some v)
        × (hmap_remove key m ≡ ok v n)
        × ((other : K) → stored n other ≡ stored map other)
    hmap_remove-insert = (
      shadowed,
      rebucketed map (map.hash key) (entries map (map.hash key)),
      insert-eq,
      newest,
      remove-eq,
      before,
    )
      where
        newest : stored shadowed key ≡ some v
        newest =
            unfold stored find same_key in
            rw (entries_same map (map.hash key) t (front ∷ entries map (map.hash key)))
              (rw (==_refl (map.hash key), l.reflexive key) refl)

        before :
            (other : K)
            → stored (rebucketed map (map.hash key) (entries map (map.hash key))) other
              ≡ stored map other
        before other =
            unfold stored same_key in rw (entries_rewritten (map.hash key) (map.hash other)) refl
