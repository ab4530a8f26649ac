-- ===== src/Tests/Tables.antt =====
-- A table of two buckets with numbers as keys.
use adventure.Base.{
  ℕ, List, true, false, ◌≡◌, refl, ap, Option, none, some, [], ◌∷◌, ◌==◌, ==_refl, ==_iff,
  if◌then◌else◌, Out, ok, arith, ◌>>◌,
}
use adventure.Hashmap.{
  hmap_create, Hashmap, hmap_set, hmap_get, hmap_insert, hmap_remove, hmap_resize, hmap_rehash,
  rehash_bucket, hmap_get_bucket, bucket_at, put_bucket, bucket_value, found_value, value_at,
  read_val, hmap_get_entry, place, behind, same_key,
}
use adventure.Hashmap.Shadow.{hmap_remove-insert}
use adventure.Hashmap.Table.{IsTable, IsKeyed, stored}
use adventure.Hashmap.Lookup.{hmap_set-stored, hmap_get-set}

abbrev table : Hashmap ℕ
table = record {
  buckets =
      none
      ∷ some (record { key = 3; val = 30; hash = 3 } ∷ record { key = 1; val = 10; hash = 1 } ∷ [])
      ∷ [];
  size = 2;
  compare = λ a b. a == b;
  hash = λ a. a;
}

table-IsTable : IsTable table
table-IsTable = record { positive = omega arith; block = refl }

table-IsKeyed : IsKeyed table
table-IsKeyed = record {
  reflexive = ==_refl;
  congruent = λ a b c e. ap (λ t. c == t) ((==_iff a b).0 e);
  hashes = λ a b e. (==_iff a b).0 e;
}

hmap_set-stored_example :
    (m : Hashmap ℕ) × (hmap_set 1 11 table ≡ ok tt m)
    × IsTable m
    × ((other : ℕ) → stored m other ≡ (if 1 == other then some 11 else stored table other))
hmap_set-stored_example = hmap_set-stored table table-IsTable table-IsKeyed 1 11

hmap_get-set_example :
    (m : Hashmap ℕ) × (hmap_set 1 11 table ≡ ok tt m)
    × ((other : ℕ) → (1 == other) ≡ true → hmap_get other m ≡ ok 11 m)
    × ((other : ℕ)
        → (1 == other) ≡ false
        → (w : ℕ) × (hmap_get other table ≡ ok w table) × (hmap_get other m ≡ ok w m))
hmap_get-set_example = hmap_get-set table table-IsTable table-IsKeyed 1 11

-- The value that a run returns.
value : Out (Hashmap ℕ) ℕ → Option ℕ
value (ok v m) = some v
value Out.fault = none
value Out.hang = none

-- Two insertions of one key: the newer value is found, and after a resize the older one.
newer : value ((hmap_insert 1 20 >> hmap_get 1) table) ≡ some 20
unfolding value hmap_get hmap_insert hmap_get_bucket bucket_at put_bucket bucket_value found_value
    value_at read_val hmap_get_entry place behind same_key
newer = refl

older_after_resize : value ((hmap_insert 1 20 >> hmap_resize 3 >> hmap_get 1) table) ≡ some 10
unfolding value hmap_get hmap_insert hmap_get_bucket bucket_at put_bucket bucket_value found_value
    value_at read_val hmap_get_entry place behind same_key hmap_resize hmap_rehash rehash_bucket
older_after_resize = refl

hmap_remove-insert_example :
    (m n : Hashmap ℕ) × (hmap_insert 1 20 table ≡ ok tt m)
    × (stored m 1 ≡ some 20)
    × (hmap_remove 1 m ≡ ok 20 n)
    × ((other : ℕ) → stored n other ≡ stored table other)
hmap_remove-insert_example = hmap_remove-insert table table-IsTable table-IsKeyed 1 20

-- A new table with the default functions, strings being their own keys.
abbrev new_table : Hashmap (List ℕ)
new_table = hmap_create (λ c. c) (λ key. key) none none

new_table-IsTable : IsTable new_table
unfolding hmap_create
new_table-IsTable = record { positive = omega arith; block = refl }
