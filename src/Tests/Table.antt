-- ===== src/Tests/Table.antt =====
-- Runs of the hash table of model/kernel_hash/hash_table.c.
use kernel_test.KernelHash.Jen.{hash_jen, jen_bkt}
use kernel_test.KernelHash.Memory.{alloc_data_memory}
use kernel_test.Base.{ℕ, ◌≡◌, refl, true, false, List, [], ◌∷◌, none, some, replicate, take, arith}
use kernel_test.KernelHash.Item.{Item}
use kernel_test.KernelHash.Table.{
  same_sha, Cache, Answers, lock_of, hash_of, bkt_of, hash_new_item, get_hash_item,
  bucket_clear_item,
}
use kernel_test.KernelHash.Table.Locks.{lock_of-bkt_of}
use kernel_test.KernelHash.Table.Invariant.{
  IsValid, hash_new_item-IsValid, bucket_clear_item-IsValid,
}
use kernel_test.KernelHash.Table.Lookup.{AllMiss, get-hash_new_item, get_hash_item-none}
use kernel_test.Tests.Sweep.{zero_stats}

abbrev digest : List ℕ
digest = 0xda ∷ 0x39 ∷ 0xa3 ∷ 0xee ∷ replicate 16 0x5e

abbrev pub empty_cache : Cache
empty_cache = record {
  tab = λ b. [];
  hash_count = 0;
  stats = zero_stats;
  bitmap = λ c i. false;
  bitmap_index = λ c. 0;
  loff_file = λ c. 0;
  pending = λ b. false;
}

abbrev pub granted : Answers
granted = record { item_room = true; data_room = true; address = 4096 }

abbrev data' : List ℕ
data' = replicate 40 9

empty_cache-IsValid : IsValid 1 empty_cache
empty_cache-IsValid = record { sound = λ b. tt; placed = λ b. tt }

unfoldable added :
    (cp : Item) × (c' : Cache) × (hash_new_item 100 granted digest data' 40 empty_cache
      ≡ some (some cp, c'))
unfolding hash_new_item alloc_data_memory
added = (_, _, refl)

lock_of-bkt_of_example : lock_of (bkt_of digest) ≡ lock_of (hash_of digest)
lock_of-bkt_of_example = lock_of-bkt_of digest

hash_new_item-IsValid_example : IsValid 1 added.1
hash_new_item-IsValid_example =
    hash_new_item-IsValid 100 granted digest data' 40 1 empty_cache (omega arith)
      empty_cache-IsValid added.2

added-IsValid : IsValid 1 added.1
added-IsValid =
    hash_new_item-IsValid 100 granted digest data' 40 1 empty_cache (omega arith)
      empty_cache-IsValid added.2

bucket_clear_item-IsValid_example :
    (c' : Cache) × (bucket_clear_item (bkt_of digest) added.1 ≡ some c') × IsValid 1 c'
bucket_clear_item-IsValid_example =
    bucket_clear_item-IsValid (bkt_of digest) 1 added.1 added-IsValid

get-hash_new_item_example :
    (found : Item) × ((get_hash_item digest added.1).0 ≡ some found)
    × (found.addr ≡ added.0.addr)
    × (take 40 found.contents ≡ take 40 data')
    × (found.refcnt ≡ 12)
    × (found.share_ref ≡ 2)
get-hash_new_item_example = get-hash_new_item 100 granted digest data' 40 empty_cache added.2

abbrev other : List ℕ
other = replicate 20 1

missed : (get_hash_item other added.1).0 ≡ none
unfolding get_hash_item hash_new_item jen_bkt hash_jen same_sha alloc_data_memory added
missed = refl

get_hash_item-none_example : AllMiss other (added.1.tab (bkt_of digest))
get_hash_item-none_example = get_hash_item-none other 1 added.1 added-IsValid missed (bkt_of digest)
