-- ===== src/Tests/Dedup.antt =====
-- A run of the chunking of a payload into the table (model/kernel_hash/nf_in.c).
use kernel_test.KernelHash.Jen.{hash_jen, jen_bkt}
use kernel_test.KernelHash.Memory.{alloc_data_memory}
use kernel_test.KernelHash.Table.{same_sha, add_hash_info, get_hash_item}
use kernel_test.KernelHash.Rolling.{roll, pack_hash}
use kernel_test.KernelHash.Partition.{get_partition}
use kernel_test.Base.{◌+◌, ◌%◌, ◌≡◌, refl, true, [], ◌++◌, some, u64, arith, replicate, take}
use kernel_test.KernelHash.Params.{init_hash_parameters}
use kernel_test.KernelHash.Partition.Tile.{chunks}
use kernel_test.KernelHash.Dedup.{build_hash, World, Machine, partition_payload}
use kernel_test.KernelHash.Dedup.Totals.{counted_all, partition_payload-sum}
use kernel_test.Tests.Box.{box_get, box_put, boxes, zeros, empty_box}
use kernel_test.Tests.Table.{empty_cache, granted}

abbrev machine : Machine
machine = record {
  sha1_hash_data = λ l. some (take 20 (l ++ replicate 20 0));
  num_online_cpus = 2;
  hash_max_count = 100;
  answers = λ n. granted;
  room = λ n. true;
}

abbrev start_world : World
start_world = record { cache = empty_cache; sum_num = 5; save_num = 0; reads = λ c. []; calls = 0 }

ran :
    (w' : World) × (partition_payload machine boxes init_hash_parameters zeros start_world
      ≡ some w')
unfolding partition_payload get_partition pack_hash init_hash_parameters roll box_put box_get
    build_hash get_hash_item add_hash_info alloc_data_memory jen_bkt hash_jen same_sha
ran = (_, refl)

partition_payload-sum_example : ran.0.sum_num ≡ (5 + counted_all (chunks zeros)) % u64
partition_payload-sum_example =
    partition_payload-sum machine boxes zeros start_world empty_box (omega arith) refl (λ l. cc)
      (omega arith) ran.1
