-- ===== src/Tests/Sweep.antt =====
-- Runs of `bucket_clear_item` of model/kernel_hash/hash_table.c.
use kernel_test.KernelHash.Sweep.Safety.{sweep-AllSound, AllSound}
use kernel_test.Base.{arith, some, ◌≡◌, refl, List, [], ◌∷◌, true, false, replicate}
use kernel_test.KernelHash.Item.{
  released, slab1, in_memory, on_disk, to_write, unset, stored, initial, should_write, Item, Stats,
}
use kernel_test.KernelHash.Sweep.{expired, sweep, Ward}
use kernel_test.KernelHash.Sweep.Survivors.{
  sweep_times-keeps, Among, SameChunk, sweep_times-empties, Idle, sweep-survivors, AllIdle,
  sweep_times, survivors, aged,
}

abbrev pub zero_stats : Stats
zero_stats = record {
  mm0 = 0;
  mm1 = 40;
  mm2 = 0;
  mm3 = 0;
  devote0 = 0;
  devote1 = 0;
  devote2 = 0;
  devote3 = 0;
  devote4 = 0;
  mmw = 0;
  mmd = 0;
  mmm = 0;
  mmf = 0;
}

abbrev pub ward : Ward
ward = record { stats = zero_stats; hash_count = 3; bitmap = λ c i. true; flag = false }

-- A chunk of 20 bytes that is only in memory.
abbrev pub young : Item
young = record {
  addr = 1;
  refcnt = 8;
  share_ref = 1;
  len = 20;
  sha1 = 7 ∷ [];
  contents = replicate 32 0;
  mem_style = slab1;
  cpuid = unset;
  start = 0;
  flag_cache = in_memory;
  flag_mem = false;
  store_flag = initial;
}

abbrev old : Item
old = record young { addr = 2; refcnt = 1 }

abbrev saved : Item
saved = record young {
  addr = 3;
  refcnt = 1;
  mem_style = released;
  cpuid = stored 0;
  flag_cache = on_disk;
}

abbrev pub bucket : List Item
bucket = young ∷ old ∷ saved ∷ []

bucket-survivors :
    survivors bucket
    ≡ record young { refcnt = 7; flag_cache = to_write; store_flag = should_write } ∷ []
unfolding survivors aged expired
bucket-survivors = refl

pub bucket-AllSound : AllSound bucket
bucket-AllSound = ((refl, refl), ((refl, refl), ((refl, refl), tt)))

bucket-AllIdle : AllIdle 8 bucket
bucket-AllIdle = (
  (8, omega arith, record { count = refl; unshared = refl }),
  (
    (1, omega arith, record { count = refl; unshared = refl }),
    ((1, omega arith, record { count = refl; unshared = refl }), tt),
  ),
)

sweep-AllSound_example : (r : List Item × Ward) × (sweep bucket ward ≡ some r) × AllSound r.0
sweep-AllSound_example = sweep-AllSound bucket ward bucket-AllSound

pub swept : (r : List Item × Ward) × (sweep bucket ward ≡ some r) × AllSound r.0
swept = sweep-AllSound bucket ward bucket-AllSound

sweep-survivors_example : swept.0.0 ≡ survivors bucket
sweep-survivors_example = sweep-survivors bucket ward swept.1

sweep_times-empties_example : (w' : Ward) × (sweep_times 8 bucket ward ≡ some ([], w'))
sweep_times-empties_example =
    sweep_times-empties 7 bucket ward (omega arith) bucket-AllSound bucket-AllIdle

sweep_times-keeps_example :
    (cps' : List Item) × (w' : Ward) × (sweep_times 5 (old ∷ young ∷ saved ∷ []) ward
      ≡ some (cps', w'))
    × ((cp' : Item) × Among cp' cps' × SameChunk young cp' × Idle 3 cp')
sweep_times-keeps_example =
    sweep_times-keeps 5 8 young (old ∷ young ∷ saved ∷ []) ward (omega arith) (omega arith)
      ((refl, refl), ((refl, refl), ((refl, refl), tt))) (old ∷ [], saved ∷ [], refl)
      (record { count = refl; unshared = refl })
