-- ===== src/KernelHash/Table/Locks.antt =====
-- Readers and writers of a bucket take the same lock (model/kernel_hash/hash_table.c, hash_lock.h).
use kernel_test.Base.{ℕ, ◌<◌, ◌≡◌, List, bit_and_mask, arith}
use kernel_test.KernelHash.Jen.{jen_bkt}
use kernel_test.KernelHash.Table.{hash_of, bkt_of, lock_of, hash_tab_size}

-- The lock that `get_hash_item` takes, by the hash of a digest, is the lock that `_hash` and
-- `bucket_clear_item` take, by its bucket.
pub lock_of-bkt_of : (info : List ℕ) → lock_of (bkt_of info) ≡ lock_of (hash_of info)
unfolding lock_of bkt_of jen_bkt
lock_of-bkt_of info = rw (bit_and_mask 20, bit_and_mask 10, bit_and_mask 10) (omega arith)

-- The bucket that HASH_JEN picks for a digest is one of the table.
pub bkt_of-lt : (info : List ℕ) → bkt_of info < hash_tab_size
unfolding bkt_of jen_bkt
bkt_of-lt info = rw (bit_and_mask 20) (omega arith)
