-- ===== src/Hashmap/Lookup.antt =====
-- What `hmap_set` changes and what it leaves, and what `hmap_get` returns.
use adventure.Base.{
  ℕ, ◌%◌, ◌≡◌, refl, sym, ◌∙◌, ap, inl, inr, Bool, true, false, Option, none, some, List, [], ◌∷◌,
  ◌==◌, ==_refl, ==_iff, Bool-cases, if◌then◌else◌, ok, arith, get_elem?, length-set,
}
use adventure.Hashmap.{
  Entry, Hashmap, write_val, same_key, place, hmap_get_entry, hmap_set, set_entry, value_at,
  found_value, bucket_value, hmap_get,
}
use adventure.Hashmap.Search.{find, place-cases, find_ext}
use adventure.Hashmap.Table.{
  IsTable, IsKeyed, or_null, entries, entries_near, stored, rebucketed, bucket_at-eq, get_bucket-eq,
  entries_same, entries_other,
}

module _ {K : Type 0} where
  -- The list after `hmap_set` of the key that `p` tells apart from the others.
  record Replaced (p : K → ℕ → Bool) (v : ℕ) (es fs : List (Entry K)) : Type 0 where
    holds : find p fs ≡ some v
    others :
        (q : K → ℕ → Bool)
        → ((k : K) (h : ℕ) → p k h ≡ true → q k h ≡ false)
        → find q fs ≡ find q es

  module _ (map : Hashmap K) (t : IsTable map) (l : IsKeyed map) (key : K) (v : ℕ) where
    pub own : same_key map key key (map.hash key) ≡ true
    unfolding same_key
    own = rw (==_refl (map.hash key), l.reflexive key) refl

    get_entry-eq : (es : List (Entry K)) → hmap_get_entry map key es ≡ place (same_key map key) es
    unfolding hmap_get_entry
    get_entry-eq es = refl

    set-eq :
        (fs : List (Entry K)) × (hmap_set key v map ≡ ok tt (rebucketed map (map.hash key) fs))
        × Replaced (same_key map key) v (entries map (map.hash key)) fs
    unfolding hmap_set set_entry find
    set-eq =
        let es = entries map (map.hash key) in
        let (m, got, put) = get_bucket-eq map (map.hash key) t in
        elim (place-cases (same_key map key) es) [
          | inl (nowhere, absent) ↦ (
            record { key = key; val = v; hash = map.hash key } ∷ es,
            rw got (
                ap (λ o. set_entry key v (map.hash key) es o m) (get_entry-eq es ∙ nowhere)
                ∙ put _),
            record {
              holds = rw own refl;
              others = λ q apart. rw (apart key (map.hash key) own) refl;
            },
          )
          | inr (i, f) ↦ (
            write_val es i v,
            rw got
                (ap (λ o. set_entry key v (map.hash key) es o m) (get_entry-eq es ∙ f.at) ∙ put _),
            record { holds = f.rewrites v; others = λ q apart. f.keeps q apart v },
          )
        ]

    -- Another key is one that no entry of `key` is an entry of.
    apart_from :
        (other : K)
        → map.compare key other ≡ false
        → (k : K) (h : ℕ) → same_key map key k h ≡ true
        → same_key map other k h ≡ false
    unfolding same_key
    apart_from other ne k h hit = elim (Bool-cases (map.compare k other)) [
      | inr differ ↦ ground (arith, differ)
      | inl alike ↦
          ground
            (arith, ne, hit, alike, l.reflexive key, l.congruent k key key, l.congruent k other key)
    ]

    alike_as :
        (other : K)
        → map.compare key other ≡ true
        → (k : K) (h : ℕ) → same_key map other k h ≡ same_key map key k h
    unfolding same_key
    alike_as other eq k h = rw (l.hashes key other eq, l.congruent key other k eq) refl

  module _ (map : Hashmap K) (t : IsTable map) (l : IsKeyed map) (key : K) (v : ℕ) where
    -- In a table that has a bucket for each hash, whose compare is an equality with one hash for
    -- equal keys, hmap_set returns, the key has the new value, and every key that is not equal to
    -- it has the value that it had.
    pub hmap_set-stored :
        (m : Hashmap K) × (hmap_set key v map ≡ ok tt m)
        × IsTable m
        × ((other : K)
            → stored m other ≡ (if map.compare key other then some v else stored map other))
    unfolding stored same_key
    hmap_set-stored =
        let (fs, done, r) = set-eq map t l key v in
        let m = rebucketed map (map.hash key) fs in
        let same : entries m (map.hash key) ≡ fs = entries_same map (map.hash key) t fs in
        (
          m,
          done,
          record { positive = t.positive; block = length-set _ _ _ ∙ t.block },
          λ other. elim (Bool-cases (map.compare key other)) [
            | inl eq ↦
                rw (eq, sym (l.hashes key other eq), same)
                  (find_ext _ _ (alike_as map t l key v other eq) fs ∙ r.holds)
            | inr ne ↦ rw ne (elsewhere other ne fs r)
          ],
        )
      where
        elsewhere :
            (other : K)
            → map.compare key other ≡ false
            → (fs : List (Entry K)) → Replaced (same_key map key) v (entries map (map.hash key)) fs
            → find
                (same_key map other)
                (entries (rebucketed map (map.hash key) fs) (map.hash other))
              ≡ find (same_key map other) (entries map (map.hash other))
        elsewhere other ne fs r =
            elim (Bool-cases (map.hash key % map.size == map.hash other % map.size)) [
              | inr far ↦ ap (find (same_key map other)) (
                  entries_other map (map.hash key) t fs (map.hash other)
                    (λ e. (cc (==_refl (map.hash other % map.size), far, e))))
              | inl near ↦
                  let one = (==_iff _ _).0 near in
                  ap (find (same_key map other)) (
                    entries_near (rebucketed map (map.hash key) fs) (map.hash key) (map.hash other)
                      one
                    ∙ entries_same map (map.hash key) t fs)
                  ∙ r.others (same_key map other) (apart_from map t l key v other ne)
                  ∙ ap (find (same_key map other))
                      (sym (entries_near map (map.hash key) (map.hash other) one))
            ]

  found_value-eq :
      (map : Hashmap K) (p : K → ℕ → Bool) (es : List (Entry K))
      → found_value es (place p es) map ≡ ok (or_null (find p es)) map
  unfolding found_value value_at or_null
  found_value-eq map p es = elim (place-cases p es) [
    | inl (nowhere, absent) ↦ rw (nowhere, absent) refl
    | inr (i, f) ↦ rw (f.at, f.finds) (rw (value_at, f.reads) refl)
  ]

  entries_null :
      (map : Hashmap K) (hash : ℕ)
      → get_elem? map.buckets (hash % map.size) ≡ some none
      → entries map hash ≡ []
  unfolding entries
  entries_null map hash e = rw (entries, e) refl

  entries_list :
      (map : Hashmap K) (hash : ℕ) (es : List (Entry K))
      → get_elem? map.buckets (hash % map.size) ≡ some (some es)
      → entries map hash ≡ es
  unfolding entries
  entries_list map hash es e = rw (entries, e) refl

  bucket_value-eq :
      (map : Hashmap K) (key : K) (b : Option (List (Entry K)))
      → get_elem? map.buckets (map.hash key % map.size) ≡ some b
      → bucket_value map key b map ≡ ok (or_null (stored map key)) map
  unfolding bucket_value stored hmap_get_entry or_null find
  bucket_value-eq map key none e =
      ap (λ (fs : List (Entry K)). ok (or_null (find (same_key map key) fs)) map)
        (sym (entries_null map (map.hash key) e))
  bucket_value-eq map key (some es) e =
      found_value-eq map (same_key map key) es
      ∙ ap (λ (fs : List (Entry K)). ok (or_null (find (same_key map key) fs)) map)
          (sym (entries_list map (map.hash key) es e))

  get-stored :
      (map : Hashmap K) (key : K)
      → IsTable map
      → hmap_get key map ≡ ok (or_null (stored map key)) map
  unfolding hmap_get
  get-stored map key t =
      let (b, e, at) = bucket_at-eq map (map.hash key) t in rw at (bucket_value-eq map key b e)

  -- In a table that has a bucket for each hash, whose compare is an equality of keys that share a
  -- hash where they are equal, hmap_set of a key returns, and then hmap_get of an equal key returns
  -- the value that was set, and hmap_get of any other key returns what it did before.
  pub hmap_get-set :
      (map : Hashmap K)
      → IsTable map
      → IsKeyed map
      → (key : K) (v : ℕ)
      → (m : Hashmap K) × (hmap_set key v map ≡ ok tt m)
        × ((other : K) → map.compare key other ≡ true → hmap_get other m ≡ ok v m)
        × ((other : K)
            → map.compare key other ≡ false
            → (w : ℕ) × (hmap_get other map ≡ ok w map) × (hmap_get other m ≡ ok w m))
  unfolding or_null
  hmap_get-set map t l key v =
      let (m, set, u, look) = hmap_set-stored map t l key v in
      (
        m,
        set,
        λ other same. get-stored m other u ∙ ap (λ o. ok (or_null o) m) (rw same at (look other)),
        λ other ne. (
          or_null (stored map other),
          get-stored map other t,
          get-stored m other u ∙ ap (λ o. ok (or_null o) m) (rw ne at (look other)),
        ),
      )
