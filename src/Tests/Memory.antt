-- ===== src/Tests/Memory.antt =====
-- Runs of `alloc_data_memory` and `free_data_memory`, and of the counters of a sweep
-- (model/kernel_hash/hash_table.c).
use kernel_test.Base.{◌+◌, ◌%◌, ◌≡◌, refl, true, [], some, u64, arith, replicate}
use kernel_test.KernelHash.Item.{Item, Stats, released, slab1, slab2}
use kernel_test.KernelHash.Memory.{alloc_data_memory, free_data_memory}
use kernel_test.KernelHash.Memory.Laws.{mm, free-alloc_data_memory}
use kernel_test.KernelHash.Sweep.Accounting.{charges, sweep-charges}
use kernel_test.Tests.Sweep.{zero_stats, young, bucket, ward, bucket-AllSound, swept}

abbrev bare : Item
bare = record young { len = 40; contents = []; mem_style = released }

abbrev filled : Item
filled = record bare { contents = replicate 64 0; mem_style = slab2 }

abbrev charged : Stats
charged = record zero_stats { mm2 = 40 }

bare-filled : alloc_data_memory true 40 bare zero_stats ≡ some (filled, charged)
unfolding alloc_data_memory
bare-filled = refl

free-alloc_data_memory_example : free_data_memory filled charged ≡ some (bare, zero_stats)
free-alloc_data_memory_example =
    free-alloc_data_memory true bare zero_stats refl refl
      (record {
        mm0_in = omega arith;
        mm1_in = omega arith;
        mm2_in = omega arith;
        mm3_in = omega arith;
      })
      bare-filled

sweep-charges_example :
    (mm slab1 swept.0.1.stats + charges slab1 bucket) % u64
    ≡ (mm slab1 zero_stats + charges slab1 swept.0.0) % u64
sweep-charges_example = sweep-charges slab1 bucket ward (λ e. cc) bucket-AllSound swept.1
