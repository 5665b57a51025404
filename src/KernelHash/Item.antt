-- ===== src/KernelHash/Item.antt =====
-- `struct hashinfo_item` of model/kernel_hash/hash_table.h, and the counters of hash_table.c.
use kernel_test.Base.{ℕ, ◌+◌, ◌-◌, ◌/◌, Bool, true, false, List, leb, if◌then◌else◌}
use kernel_test.KernelHash.Params.{chunkstep}

-- `mem_style`: -1, 0, 1, 2 and 3
pub data MemStyle : Type 0 where
  released kmalloced slab1 slab2 slab3 : MemStyle

-- `flag_cache`: 0 "just in memory", 1 "just in disk", 2 "in memory, will write to disk",
-- 3 "always in memory", 4 "read from file, so in memory and file"
pub data FlagCache : Type 0 where
  in_memory on_disk to_write always_memory from_file : FlagCache

-- `cpuid`: -1, -2 while a write is being prepared, or the processor whose file holds the data
pub data CpuId : Type 0 where
  unset : CpuId
  marked : CpuId
  stored : ℕ → CpuId

-- `store_flag`: 0, 1 and 2
pub data StoreFlag : Type 0 where
  initial should_write will_write : StoreFlag

-- `addr` is the address of the item. `refcnt` and `share_ref` are `atomic_t`. `contents` is what
-- `data` points to, and is empty where `data` points to nothing that is allocated.
pub record Item : Type 0 where
  pub addr : ℕ
  pub refcnt : ℕ
  pub share_ref : ℕ
  pub len : ℕ
  pub sha1 : List ℕ
  pub contents : List ℕ
  pub mem_style : MemStyle
  pub cpuid : CpuId
  pub start : ℕ
  pub flag_cache : FlagCache
  pub flag_mem : Bool
  pub store_flag : StoreFlag

-- The `atomic64_t` and `percpu_counter` variables of hash_table.c.
pub record Stats : Type 0 where
  pub mm0 : ℕ
  pub mm1 : ℕ
  pub mm2 : ℕ
  pub mm3 : ℕ
  pub devote0 : ℕ
  pub devote1 : ℕ
  pub devote2 : ℕ
  pub devote3 : ℕ
  pub devote4 : ℕ
  pub mmw : ℕ
  pub mmd : ℕ
  pub mmm : ℕ
  pub mmf : ℕ

-- The number of storage units of an item: 1, or DIV_ROUND_UP(len, CHUNKSTEP).
unfoldable pub units : ℕ → ℕ
units len = if leb len chunkstep then 1 else (len + chunkstep - 1) / chunkstep

abbrev pub is_stored : CpuId → Bool
is_stored (stored c) = true
is_stored _ = false

abbrev pub is_unset : CpuId → Bool
is_unset unset = true
is_unset _ = false

abbrev pub is_marked : CpuId → Bool
is_marked marked = true
is_marked _ = false

abbrev pub is_released : MemStyle → Bool
is_released released = true
is_released _ = false
