-- ===== src/Tests/Write.antt =====
-- Runs of `wr_file` of model/kernel_hash.
use kernel_test.Base.{◌+◌, ◌≤◌, ◌≡◌, refl, true, false, List, [], ◌∷◌, some, none, replicate, arith}
use kernel_test.KernelHash.Item.{units, Item, Stats, to_write, should_write, always_memory, marked}
use kernel_test.KernelHash.Bitmap.{write_bits}
use kernel_test.KernelHash.Sweep.Safety.{AllSound}
use kernel_test.KernelHash.Write.{to_mark, Pool, wr_file}
use kernel_test.KernelHash.Write.Mark.{marked_units}
use kernel_test.KernelHash.Write.Store.{AllReady}
use kernel_test.KernelHash.Write.Readable.{Aligned, Kept, wr_file-Kept}
use kernel_test.Tests.Sweep.{zero_stats, young}
use kernel_test.Tests.Disk.{Bytes, disk, bit_search}

-- A chunk that is to be written, and one that stays in memory.
abbrev ripe : Item
ripe = record young {
  refcnt = 7;
  flag_cache = to_write;
  store_flag = should_write;
  contents = replicate 32 9;
}

abbrev fixed : Item
fixed = record young { addr = 2; refcnt = 20; flag_cache = always_memory }

abbrev mixed : List Item
mixed = fixed ∷ ripe ∷ []

abbrev pool : Pool Bytes
pool = record { bitmap = λ j. false; bitmap_index = 3; loff_file = 96; file = λ i. 0 }

-- A chunk that an earlier run left marked is stored, but no memory was counted for it.
abbrev left_marked : List Item
left_marked = ripe ∷ record ripe { addr = 3; cpuid = marked } ∷ []

wr_file-left_marked : wr_file disk bit_search 0 1000 true left_marked pool zero_stats ≡ none
unfolding wr_file units write_bits
wr_file-left_marked = refl

pool-Aligned : Aligned 1000 pool
pool-Aligned = record { place = omega arith; inside = omega arith; ahead = λ j h. refl }

mixed-AllSound : AllSound mixed
mixed-AllSound = ((refl, refl), (refl, tt))

mixed-AllReady : AllReady mixed
mixed-AllReady = (refl, λ e. cc, (refl, λ e. omega arith, tt))

mixed_units : pool.bitmap_index + marked_units mixed ≤ 1000
unfolding marked_units to_mark units
mixed_units = omega arith

wr_file-Kept_example :
    (cps' : List Item) × (pool' : Pool Bytes) × (st' : Stats) × (wr_file disk bit_search 0 1000 true
        mixed pool zero_stats
      ≡ some (cps', pool', st'))
    × Kept disk bit_search 0 1000 mixed cps' pool pool'
wr_file-Kept_example =
    wr_file-Kept disk bit_search 0 1000 mixed pool zero_stats (omega arith) pool-Aligned mixed_units
      mixed-AllSound mixed-AllReady (λ buf. cc)
