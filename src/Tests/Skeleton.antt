-- ===== src/Tests/Skeleton.antt =====
-- Runs of the containers of model/c-skeleton.
use kernel_test.Base.{ℕ, ◌%◌, ◌≡◌, refl, true, [], ◌∷◌, some, none, ◌==◌, ◌>>=◌, replicate, arith}
use kernel_test.Skeleton.DArray.{null, DArray, create, push, pop, clear}
use kernel_test.Skeleton.DArray.Stack.{IsStack, create-IsStack, push-IsStack}
use kernel_test.Skeleton.Hashmap.{Hashmap, hashmap_create, hashmap_set, hashmap_getnode}
use kernel_test.Skeleton.Hashmap.Lookup.{IsMap}
use kernel_test.Skeleton.Hashmap.Created.{hashmap_create-IsMap}
use kernel_test.Skeleton.Hashmap.Update.{add_node, hashmap_set-IsMap}
use kernel_test.Skeleton.Hashmap.GetSet.{or_else, if_matches, getnode-set}
use kernel_test.Skeleton.Chunk.{Chunk, chunk_merge}
use kernel_test.Skeleton.Chunk.Merging.{chunk_merge-overrun}
use kernel_test.Skeleton.Algos.{
  hashmap_fnv1a_hash, hashmap_adler32_hash, hashmap_djb_hash, xor_checksum,
}

-- An array with room for one element.
created : (a : DArray ℕ) × (create true 8 1 ≡ some a) × IsStack a [] × (pop true a ≡ some (null, a))
created = create-IsStack 8 1 (omega arith)

pushed : (a' : DArray ℕ) × (push true created.0 7 ≡ some (true, a')) × IsStack a' (7 ∷ [])
pushed = push-IsStack created.0 [] 7 created.2

-- An array of one element that has grown: clearing it meets a cell that was never written.
clear-grown :
    (push {A = ℕ} true
        (record { end = 0; max = 1; element_size = 8; expand_rate = 300; contents = null ∷ [] })
        7
      >>= λ r. clear r.1)
    ≡ none
unfolding push clear
clear-grown = refl

-- Keys are numbers, and their own hash.
abbrev own : ℕ → ℕ
own k = k

new_map :
    (m : Hashmap ℕ ℕ) × (hashmap_create true 4 ≡ some m) × (m.max ≡ 4) × IsMap ◌==◌ own m (λ n. [])
new_map = hashmap_create-IsMap ◌==◌ own 4

hashmap_set-IsMap_example :
    (m' : Hashmap ℕ ℕ) × (hashmap_set ◌==◌ own true new_map.0 6 60 ≡ some (true, m'))
    × (m'.max ≡ new_map.0.max)
    × IsMap ◌==◌ own m'
        (add_node ◌==◌ own (6 % new_map.0.max) (record { key = 6; data' = 60; hash = 6 }) (λ n. []))
hashmap_set-IsMap_example = hashmap_set-IsMap ◌==◌ own new_map.0 (λ n. []) 6 60 new_map.3

getnode-set_example :
    (m' : Hashmap ℕ ℕ) × (hashmap_set ◌==◌ own true new_map.0 6 60 ≡ some (true, m'))
    × ((key' : ℕ)
        → hashmap_getnode ◌==◌ own m' key' ≡ (
            hashmap_getnode ◌==◌ own new_map.0 key' >>= λ r.
            some (or_else r (if_matches ◌==◌ own key' (record { key = 6; data' = 60; hash = 6 })))))
getnode-set_example = getnode-set ◌==◌ own new_map.0 (λ n. []) 6 60 new_map.3

abbrev small_chunk : Chunk
small_chunk = record { end = 2; limit = 8; content = 1 ∷ 2 ∷ replicate 6 0 }

merge_overruns : chunk_merge true small_chunk (replicate 20 5) 0 19 ≡ none
merge_overruns = chunk_merge-overrun small_chunk (replicate 20 5) 0 19 (omega arith) (omega arith)

hashes :
    (hashmap_fnv1a_hash (97 ∷ []) ≡ 0xe40c292c)
    × (hashmap_adler32_hash (97 ∷ 98 ∷ []) ≡ 0x012600c4)
    × (hashmap_djb_hash (97 ∷ []) ≡ 177670)
    × (xor_checksum (1 ∷ 2 ∷ 4 ∷ []) ≡ 7)
unfolding hashmap_fnv1a_hash hashmap_adler32_hash hashmap_djb_hash xor_checksum
hashes = (refl, refl, refl, refl)
