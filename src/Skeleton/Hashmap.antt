-- ===== src/Skeleton/Hashmap.antt =====
-- model/c-skeleton/src/lcthw/hashmap.c and hashmap.h: a hash map whose buckets are dynamic arrays.
-- The comparison and the hash are those that the map was created with.
pub mod Lookup
pub mod Update
pub mod GetSet
pub mod Created
use kernel_test.Base.{
  ℕ, zero, suc, ◌+◌, ◌-◌, ◌%◌, Bool, true, false, ◌&&◌, Option, none, some, ◌>>=◌, set, ltb, ◌==◌,
  if◌then◌else◌,
}
use kernel_test.Skeleton.DArray.{
  Cell, null, ptr, junk, DArray, create, push, pop, darray_get, darray_set,
}

-- `HashmapNode`. Its list `next` is made empty, and is not used here.
pub record HashmapNode {ℓ κ} (K : Type ℓ) (V : Type κ) : Type (ℓ ⊔ κ) where
  pub key : K
  pub data' : V
  pub hash : ℕ

-- `Hashmap`: its `buckets`.
abbrev pub Hashmap {ℓ κ} : Type ℓ → Type κ → Type (ℓ ⊔ κ)
Hashmap K V = DArray (DArray (HashmapNode K V))

-- `DEFAULT_NUMBER_OF_BUCKETS`
abbrev pub default_number_of_buckets : ℕ
default_number_of_buckets = 100

-- The pointer in a cell: NULL is an inner `none`, and what was never written an outer one.
unfoldable pub load {ℓ} : {A : Type ℓ} → Cell A → Option (Option A)
load null = some none
load (ptr x) = some (some x)
load junk = none

module _ {ℓ κ} {K : Type ℓ} {V : Type κ} where
  -- Hashmap_create(buckets_len, compare, hash)
  unfoldable pub hashmap_create : Bool → ℕ → Option (Hashmap K V)
  hashmap_create room buckets_len =
      create room 8 (if ltb 0 buckets_len then buckets_len else default_number_of_buckets) >>= λ b.
      some (record b { end = b.max })

  module _ (compare : K → K → Bool) (hash : K → ℕ) where
    -- Hashmap_find_bucket(map, key, create, hash_out): the number of the bucket, the bucket, and the
    -- map; a NULL result is an inner `none`.
    unfoldable pub find_bucket :
        Hashmap K V → K → Bool → Bool → Option (ℕ × Option (DArray (HashmapNode K V)) × Hashmap K V)
    unfolding load
    find_bucket m key create_it room =
        let n = hash key % m.max in
        darray_get m n >>= λ c. load c >>= λ b. elim b [
          | some bucket ↦ some (n, some bucket, m)
          | none ↦
              if create_it
              then elim (create {A = HashmapNode K V} room 8 default_number_of_buckets) [
                | none ↦ some (n, none, m)
                | some bucket ↦ darray_set m n (ptr bucket) >>= λ m'. some (n, some bucket, m')
              ]
              else some (n, none, m)
        ]

    -- A bucket that was changed in place.
    unfoldable pub put_back : Hashmap K V → ℕ → DArray (HashmapNode K V) → Hashmap K V
    put_back m n bucket = record m { contents = set m.contents n (ptr bucket) }

    -- Hashmap_set(map, key, data): whether it returns 0, and the map. What DArray_push returns is not
    -- looked at.
    unfoldable pub hashmap_set : Bool → Hashmap K V → K → V → Option (Bool × Hashmap K V)
    unfolding find_bucket put_back
    hashmap_set room m key data' = find_bucket m key true room >>= λ r. elim (r.1) [
      | none ↦ some (false, r.2)
      | some bucket ↦
          if room
          then (push room bucket (record { key = key; data' = data'; hash = hash key }) >>= λ q.
              some (true, put_back (r.2) (r.0) (q.1)))
          else some (false, r.2)
    ]

    -- if (node->hash == hash && map->compare(node->key, key) == 0)
    abbrev pub matches : ℕ → K → HashmapNode K V → Bool
    matches h key node = node.hash == h && compare node.key key

    -- The loop of Hashmap_get_node, with the rounds that are left: -1 is an inner `none`. A node that
    -- is NULL would be an access through NULL.
    unfoldable pub node_loop :
        ℕ → ℕ → ℕ → DArray (HashmapNode K V) → K → Option (Option (ℕ × HashmapNode K V))
    unfolding load
    node_loop zero i h bucket key = some none
    node_loop (suc n) i h bucket key =
        let rest = node_loop n (i + 1) h bucket key in
        darray_get bucket i >>= λ c. load c >>= λ b. elim b [
          | none ↦ none
          | some node ↦ if matches h key node then some (some (i, node)) else rest
        ]

    -- Hashmap_get_node(map, hash, bucket, key), with the node that is found.
    unfoldable pub get_node :
        ℕ → DArray (HashmapNode K V) → K → Option (Option (ℕ × HashmapNode K V))
    unfolding node_loop
    get_node h bucket key = node_loop bucket.end 0 h bucket key

    -- Hashmap_getnode(map, key); a NULL result is an inner `none`.
    unfoldable pub hashmap_getnode : Hashmap K V → K → Option (Option (HashmapNode K V))
    unfolding find_bucket get_node
    hashmap_getnode m key = find_bucket m key false true >>= λ r. elim (r.1) [
      | none ↦ some none
      | some bucket ↦ get_node (hash key) bucket key >>= λ f. elim f [
        | none ↦ some none
        | some q ↦ some (some (q.1))
      ]
    ]

    -- Hashmap_get(map, key)
    unfoldable pub hashmap_get : Hashmap K V → K → Option (Option V)
    unfolding hashmap_getnode
    hashmap_get m key = hashmap_getnode m key >>= λ f. elim f [
      | none ↦ some none
      | some node ↦ some (some node.data')
    ]

    -- Hashmap_delete(map, key): the data, and the map. The last node takes the place of the one that
    -- is deleted.
    unfoldable pub hashmap_delete : Hashmap K V → K → Option (Option V × Hashmap K V)
    unfolding find_bucket get_node put_back
    hashmap_delete m key = find_bucket m key false true >>= λ r. elim (r.1) [
      | none ↦ some (none, m)
      | some bucket ↦ get_node (hash key) bucket key >>= λ f. elim f [
        | none ↦ some (none, m)
        | some q ↦ pop true bucket >>= λ p.
            (if q.0 == bucket.end - 1 then some (p.1) else darray_set (p.1) (q.0) (p.0))
            >>= λ bucket'. some (some (q.1.data'), put_back m (r.0) bucket')
      ]
    ]
