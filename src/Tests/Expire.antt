-- ===== src/Tests/Expire.antt =====
-- A run of `hash_del_item` of model/kernel_hash/hash_table.c.
use kernel_test.KernelHash.Item.{Item, Stats}
use kernel_test.KernelHash.Expire.Flush.{hash_flush-total, BucketsHeld, total}
use kernel_test.Base.{◌>>=◌, refl, [], ◌∷◌, ◌-◌, ◌≤◌, List, ◌≡◌, some, arith}
use kernel_test.KernelHash.Expire.{hash_flush, hash_del_item, kept, deleted}
use kernel_test.KernelHash.Memory.{free_data_memory}
use kernel_test.Tests.Sweep.{young, zero_stats}

-- Nobody else changes the count between the two times that it is read: the item is kept.
not_deleted : hash_del_item (λ n. n) young 3 zero_stats ≡ some (kept young, 3, zero_stats)
unfolding hash_del_item
not_deleted = refl

-- Somebody lowers it: the item is freed.
deleted_late :
    hash_del_item (λ n. 1) (record young { refcnt = 1 }) 3 zero_stats
    ≡ (free_data_memory (record young { refcnt = 1 }) zero_stats >>= λ r. some (deleted, 2, r.1))
unfolding hash_del_item
deleted_late = refl

abbrev filled_buckets : List (List Item)
filled_buckets = (young ∷ []) ∷ [] ∷ (young ∷ []) ∷ []

filled-BucketsHeld : BucketsHeld filled_buckets
filled-BucketsHeld = ((λ e. refl, tt), (tt, ((λ e. refl, tt), tt)))

filled_total : total filled_buckets ≤ 2
unfolding total
filled_total = omega arith

hash_flush-total_example :
    (st' : Stats) × (hash_flush filled_buckets 2 zero_stats ≡ some (2 - total filled_buckets, st'))
hash_flush-total_example =
    hash_flush-total filled_buckets 2 zero_stats filled-BucketsHeld (omega arith) filled_total
