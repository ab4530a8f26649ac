-- ===== src/Hashmap.antt =====
-- src/struct/hashmap.c: a table of buckets, each the entries of a `struct list`, first element
-- first; `none` is a NULL bucket. A value is a number, 0 is NULL. The key type and the two function
-- pointers are the user's. Allocations are taken to succeed. A hash modulo a size of 0 and a cell
-- outside the table are faults.
pub mod Search
pub mod Table
pub mod Lookup
pub mod Shadow
use adventure.Base.{
  ℕ, zero, suc, ◌+◌, ◌*◌, ◌/◌, ◌%◌, ◌^◌, Bool, true, false, Option, none, some, List, [], ◌∷◌, ◌==◌,
  ltb, ◌&&◌, if◌then◌else◌, u32, bit_xor, shr, Cmd, ok, fault, pure, ◌>>=◌, ◌>>◌, length, get_elem?,
  set, replicate, map,
}

pub record Entry (K : Type 0) : Type 0 where
  pub key : K
  pub val : ℕ
  pub hash : ℕ

-- `compare` is whether the C function returns 0.
pub record Hashmap (K : Type 0) : Type 0 where
  pub buckets : List (Option (List (Entry K)))
  pub size : ℕ
  pub compare : K → K → Bool
  pub hash : K → ℕ

abbrev pub default_size : ℕ
default_size = 300

-- The loop of `default_hash` on the rest of a string; `char` is a `char` as the 32-bit value that it
-- is promoted to. A string is shorter than 2 ^ 32.
unfoldable pub hash_loop : (char : ℕ → ℕ) → List ℕ → ℕ → ℕ
hash_loop char [] hash = hash
hash_loop char (c ∷ cs) hash =
    let a = u32 (hash + char c) in
    let b = u32 (a + u32 (a * 2 ^ 10)) in hash_loop char cs (bit_xor b (shr b 6))

unfoldable pub default_hash : (char : ℕ → ℕ) → List ℕ → ℕ
unfolding hash_loop
default_hash char key =
    let a = hash_loop char key 0 in
    let b = u32 (a + u32 (a * 2 ^ 3)) in let c = bit_xor b (shr b 11) in u32 (c + u32 (c * 2 ^ 15))

-- `strcmp(a, b)` is 0.
unfoldable pub default_compare : List ℕ → List ℕ → Bool
default_compare [] [] = true
default_compare [] (b ∷ bs) = false
default_compare (a ∷ rest) [] = false
default_compare (a ∷ rest) (b ∷ bs) = a == b && default_compare rest bs

-- `none` is a NULL function pointer; `string` is the string that a key points to, for the defaults.
unfoldable pub hmap_create :
    {K : Type 0} (char : ℕ → ℕ) (string : K → List ℕ)
    → Option (K → ℕ)
    → Option (K → K → Bool)
    → Hashmap K
unfolding default_hash default_compare
hmap_create char string hash compare = record {
  buckets = replicate default_size none;
  size = default_size;
  compare = elim compare [ none ↦ λ a b. default_compare (string a) (string b) | some f ↦ f ];
  hash = elim hash [ none ↦ λ a. default_hash char (string a) | some f ↦ f ];
}

-- The place of a list element, which the C code holds as a pointer: its value read, written, and
-- the element taken out.
unfoldable pub read_val : {K : Type 0} → List (Entry K) → ℕ → Option ℕ
read_val [] i = none
read_val (e ∷ es) zero = some e.val
read_val (e ∷ es) (suc i) = read_val es i

unfoldable pub write_val : {K : Type 0} → List (Entry K) → ℕ → ℕ → List (Entry K)
write_val [] i v = []
write_val (e ∷ es) zero v = record e { val = v } ∷ es
write_val (e ∷ es) (suc i) v = e ∷ write_val es i v

unfoldable pub unlink : {K : Type 0} → List (Entry K) → ℕ → List (Entry K)
unlink [] i = []
unlink (e ∷ es) zero = es
unlink (e ∷ es) (suc i) = e ∷ unlink es i

-- `next` is the place of an element of the rest.
unfoldable pub behind : Option ℕ → Option ℕ
behind none = none
behind (some i) = some (suc i)

module _ {K : Type 0} where
  -- Whether an entry with the key `k` and the hash `h` is the one of `key`.
  unfoldable pub same_key : Hashmap K → K → K → ℕ → Bool
  same_key map key k h = h == map.hash key && map.compare k key

  -- The place of the first entry that `p` is true of.
  unfoldable pub place : (K → ℕ → Bool) → List (Entry K) → Option ℕ
  place p [] = none
  place p (e ∷ es) = if p e.key e.hash then some 0 else behind (place p es)

  unfoldable pub hmap_get_entry : Hashmap K → K → List (Entry K) → Option ℕ
  hmap_get_entry map key bucket = place (same_key map key) bucket

  -- `map->buckets[hash % map->size]`
  unfoldable pub bucket_at : ℕ → Cmd (Hashmap K) (Option (List (Entry K)))
  bucket_at hash map =
      if map.size == 0
      then fault
      else elim (get_elem? map.buckets (hash % map.size)) [ none ↦ fault | some b ↦ ok b map ]

  -- What a change of the list at that bucket leaves.
  unfoldable pub put_bucket : ℕ → List (Entry K) → Cmd (Hashmap K) (Unit {0})
  put_bucket hash bucket map =
      ok tt (record map { buckets = set map.buckets (hash % map.size) (some bucket) })

  -- A NULL bucket becomes an empty list.
  unfoldable pub hmap_get_bucket : ℕ → Cmd (Hashmap K) (List (Entry K))
  hmap_get_bucket hash = do
    bucket ← bucket_at hash
    elim bucket [ none ↦ put_bucket hash [] >> pure [] | some b ↦ pure b ]

  unfoldable pub hmap_insert : (key : K) (val : ℕ) → Cmd (Hashmap K) (Unit {0})
  hmap_insert key val map =
      let hash = map.hash key in
      (do
        bucket ← hmap_get_bucket hash
        put_bucket hash (record { key = key; val = val; hash = hash } ∷ bucket))
        map

  -- The entry at a place gets the value, or a new one is put in front.
  unfoldable pub set_entry :
      (key : K) (val hash : ℕ) (bucket : List (Entry K)) → Option ℕ → Cmd (Hashmap K) (Unit {0})
  set_entry key val hash bucket (some i) = put_bucket hash (write_val bucket i val)
  set_entry key val hash bucket none =
      put_bucket hash (record { key = key; val = val; hash = hash } ∷ bucket)

  unfoldable pub hmap_set : (key : K) (val : ℕ) → Cmd (Hashmap K) (Unit {0})
  hmap_set key val map =
      let hash = map.hash key in
      (do
        bucket ← hmap_get_bucket hash
        set_entry key val hash bucket (hmap_get_entry map key bucket))
        map

  -- The value at a place; a place behind the list is no element.
  unfoldable pub value_at : List (Entry K) → ℕ → Cmd (Hashmap K) ℕ
  value_at bucket i map = elim (read_val bucket i) [ none ↦ fault | some v ↦ ok v map ]

  -- The value of the entry at a place, NULL for no entry.
  unfoldable pub found_value : List (Entry K) → Option ℕ → Cmd (Hashmap K) ℕ
  found_value bucket none = pure 0
  found_value bucket (some i) = value_at bucket i

  unfoldable pub bucket_value : Hashmap K → K → Option (List (Entry K)) → Cmd (Hashmap K) ℕ
  bucket_value map key none = pure 0
  bucket_value map key (some b) = found_value b (hmap_get_entry map key b)

  unfoldable pub hmap_get : K → Cmd (Hashmap K) ℕ
  hmap_get key map = (bucket_at (map.hash key) >>= bucket_value map key) map

  unfoldable pub hmap_contains : K → Cmd (Hashmap K) Bool
  hmap_contains key map =
      (do
        bucket ← bucket_at (map.hash key)
        elim bucket [
          | none ↦ pure false
          | some b ↦ elim (hmap_get_entry map key b) [ none ↦ pure false | some i ↦ pure true ]
        ])
        map

  -- The entry at a place is taken out of its bucket.
  unfoldable pub remove_at : ℕ → List (Entry K) → Option ℕ → Cmd (Hashmap K) ℕ
  remove_at hash bucket none = pure 0
  remove_at hash bucket (some i) = do
    val ← value_at bucket i
    put_bucket hash (unlink bucket i)
    pure val

  unfoldable pub remove_from : Hashmap K → K → Option (List (Entry K)) → Cmd (Hashmap K) ℕ
  remove_from map key none = pure 0
  remove_from map key (some b) = remove_at (map.hash key) b (hmap_get_entry map key b)

  unfoldable pub hmap_remove : K → Cmd (Hashmap K) ℕ
  hmap_remove key map = (bucket_at (map.hash key) >>= remove_from map key) map

  -- The entries of a bucket, then the buckets, inserted into the new table in order.
  unfoldable pub rehash_bucket : List (Entry K) → Cmd (Hashmap K) (Unit {0})
  rehash_bucket [] map = ok tt map
  rehash_bucket (e ∷ es) map = (hmap_insert e.key e.val >> rehash_bucket es) map

  unfoldable pub hmap_rehash : List (Option (List (Entry K))) → Cmd (Hashmap K) (Unit {0})
  hmap_rehash [] map = ok tt map
  hmap_rehash (none ∷ bs) map = hmap_rehash bs map
  hmap_rehash (some b ∷ bs) map = (rehash_bucket b >> hmap_rehash bs) map

  unfoldable pub hmap_resize : ℕ → Cmd (Hashmap K) (Unit {0})
  hmap_resize size map =
      hmap_rehash map.buckets (record map { buckets = replicate size none; size = size })
