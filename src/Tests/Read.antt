-- ===== src/Tests/Read.antt =====
-- A run of `read_data` of model/kernel_hash/nf_in.c on one item.
use kernel_test.Base.{
  dec32, ◌+◌, ◌%◌, ◌≡◌, refl, true, false, [], some, replicate, take, u64, arith,
}
use kernel_test.KernelHash.Item.{Item, released, from_file, stored, is_released}
use kernel_test.KernelHash.Read.{Reading, read_item}
use kernel_test.KernelHash.Read.Restored.{read_item-restores}
use kernel_test.Tests.Sweep.{young, zero_stats}
use kernel_test.Tests.Disk.{Bytes, disk, put_bytes}

abbrev away : Item
away = record young {
  contents = [];
  mem_style = released;
  cpuid = stored 0;
  start = 3;
  flag_cache = from_file;
}

abbrev written : Bytes
written = put_bytes (λ i. 0) (replicate 32 9) 96

abbrev totals : Reading
totals = record { rdl = 100; rdf = 2; stats = zero_stats }

read_item-restores_example :
    (cp' : Item) × (w' : Reading) × (read_item disk true true written away totals ≡ some (cp', w'))
    × (take 20 cp'.contents ≡ take 20 (replicate 32 9))
    × (is_released cp'.mem_style ≡ false)
    × (cp'.flag_mem ≡ true)
    × (cp'.share_ref ≡ dec32 away.share_ref)
    × (w'.rdl ≡ (100 + 20) % u64)
    × (w'.rdf ≡ (2 + 1) % u64)
read_item-restores_example =
    read_item-restores disk away written totals (replicate 32 9) refl refl (omega arith) refl
