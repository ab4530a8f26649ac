-- ===== src/Hashmap/Table.antt =====
-- The buckets of a table by their hashes, and the values that it has for its keys.
use adventure.Base.{
  ℕ, ◌%◌, ◌<◌, ◌≡◌, ◌≢◌, refl, ap, true, Option, none, some, List, [], ne→==, ok, arith, length,
  get_elem?, set, get_elem?-set_self, get_elem?-set_ne, set-set, get_elem?_inside,
}
use adventure.Hashmap.{Entry, Hashmap, same_key, bucket_at, put_bucket, hmap_get_bucket}
use adventure.Hashmap.Search.{find}

-- There is a bucket for each hash.
pub record IsTable {K : Type 0} (map : Hashmap K) : Type 0 where
  pub positive : 0 < map.size
  pub block : length map.buckets ≡ map.size

-- `compare` is an equality of keys, and equal keys have one hash.
pub record IsKeyed {K : Type 0} (map : Hashmap K) : Type 0 where
  pub reflexive : (a : K) → map.compare a a ≡ true
  pub congruent : (a b c : K) → map.compare a b ≡ true → map.compare c a ≡ map.compare c b
  pub hashes : (a b : K) → map.compare a b ≡ true → map.hash a ≡ map.hash b

-- The pointer that stands for a value that may be missing.
unfoldable pub or_null : Option ℕ → ℕ
or_null none = 0
or_null (some v) = v

module _ {K : Type 0} where
  -- The entries of the bucket for a hash, none if it is NULL.
  unfoldable pub entries : Hashmap K → ℕ → List (Entry K)
  entries map hash = elim (get_elem? map.buckets (hash % map.size)) [
    | none ↦ []
    | some b ↦ elim b [ none ↦ [] | some es ↦ es ]
  ]

  pub entries_near :
      (map : Hashmap K) (hash h : ℕ)
      → hash % map.size ≡ h % map.size
      → entries map h ≡ entries map hash
  unfolding entries
  entries_near map hash h e = rw (entries, e) refl

  -- The value of a key.
  unfoldable pub stored : Hashmap K → K → Option ℕ
  stored map key = find (same_key map key) (entries map (map.hash key))

  -- The table after the bucket for a hash became `es`.
  abbrev pub rebucketed : Hashmap K → ℕ → List (Entry K) → Hashmap K
  rebucketed map hash es = record map { buckets = set map.buckets (hash % map.size) (some es) }

  module _ (map : Hashmap K) (hash : ℕ) (t : IsTable map) where
    inside : hash % map.size < map.size
    inside = omega (arith, t.positive)

    pub bucket_at-eq :
        (b : Option (List (Entry K))) × (get_elem? map.buckets (hash % map.size) ≡ some b)
        × (bucket_at hash map ≡ ok b map)
    unfolding bucket_at
    bucket_at-eq =
        let (b, e) =
          get_elem?_inside map.buckets (hash % map.size) (omega (arith, t.positive, t.block)) in
        (b, e, rw (ne→== map.size 0 (omega (arith, t.positive)), e) refl)

    from_bucket :
        (b : Option (List (Entry K)))
        → get_elem? map.buckets (hash % map.size) ≡ some b
        → bucket_at hash map ≡ ok b map
        → (m : Hashmap K) × (hmap_get_bucket hash map ≡ ok (entries map hash) m)
          × ((es : List (Entry K)) → put_bucket hash es m ≡ ok tt (rebucketed map hash es))
    unfolding hmap_get_bucket put_bucket entries
    from_bucket none e at = (
      rebucketed map hash [],
      rw (at, entries, e) refl,
      λ es.
          ap (λ (bs : List (Option (List (Entry K)))). ok tt (record map { buckets = bs }))
            (set-set map.buckets (hash % map.size) (some []) (some es)),
    )
    from_bucket (some es) e at = (map, rw (at, entries, e) refl, λ es. refl)

    pub get_bucket-eq :
        (m : Hashmap K) × (hmap_get_bucket hash map ≡ ok (entries map hash) m)
        × ((es : List (Entry K)) → put_bucket hash es m ≡ ok tt (rebucketed map hash es))
    get_bucket-eq = let (b, e, at) = bucket_at-eq in from_bucket b e at

    pub entries_same : (es : List (Entry K)) → entries (rebucketed map hash es) hash ≡ es
    unfolding entries
    entries_same es =
        rw
          (
            entries,
            get_elem?-set_self map.buckets (hash % map.size) (some es)
                (omega (arith, t.block, inside)),
          )
          refl

    pub entries_other :
        (es : List (Entry K)) (h : ℕ)
        → hash % map.size ≢ h % map.size
        → entries (rebucketed map hash es) h ≡ entries map h
    unfolding entries
    entries_other es h far =
        rw (entries, get_elem?-set_ne map.buckets (hash % map.size) (h % map.size) (some es) far)
          refl
