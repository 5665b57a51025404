-- ===== src/KernelHash/Setup/Entry/Expected.antt =====
-- What minit and mexit of model/kernel_hash/main.c are to return and to leave held, by the first call
-- that the kernel refuses.
use kernel_test.Base.{
  ℕ, zero, suc, Bool, true, false, not, ◌&&◌, ◌||◌, Option, none, some, ◌>>=◌, if◌then◌else◌,
}
use kernel_test.KernelHash.Setup.{
  is_negative, Status, success, minus_one, enomem, enodev, refused, Kernel, Setup, is_live,
}
use kernel_test.KernelHash.Setup.Percpu.{after_refusal, any_live, any_slab, caches_made}

-- Which parts of the module are held.
pub record Held : Type 0 where
  pub queue : Bool
  pub files : Bool
  pub slabs : Bool
  pub bitmaps : Bool
  pub table : Bool
  pub timers_memory : Bool
  pub hooks : Bool
  pub pool : Bool
  pub jprobe : Bool

abbrev pub held : Setup → Held
held m = record {
  queue = is_live m.skb_wq;
  files = any_live m.reserve_file;
  slabs = any_slab m.slabs;
  bitmaps = any_live m.bitmap;
  table =
      is_live m.tables.writeread_wq
      || is_live m.tables.hash_tab
      || is_live m.tables.hash_cachep
      || m.tables.timers;
  timers_memory = is_live m.tables.bucket_clear;
  hooks = m.nf_out || m.nf_in;
  pool = is_live m.sha1sig_pool;
  jprobe = m.jprobe;
}

abbrev pub nothing_held : Held
nothing_held = record {
  queue = false;
  files = false;
  slabs = false;
  bitmaps = false;
  table = false;
  timers_memory = false;
  hooks = false;
  pool = false;
  jprobe = false;
}

abbrev pub all_held : Held
all_held = record {
  queue = true;
  files = true;
  slabs = true;
  bitmaps = true;
  table = true;
  timers_memory = true;
  hooks = true;
  pool = true;
  jprobe = true;
}

abbrev pub tables_made : Kernel → Bool
tables_made k =
    k.writeread_wq_made && (k.hash_tab_made && (k.bucket_clear_made && k.hash_cachep_made))

-- The end of minit when all up to the bitmaps is held: with no hash table or hook it stops.
abbrev pub cache_outcome : Kernel → Option (Status × Held)
cache_outcome k =
    if not (tables_made k && (k.nf_out_taken && k.nf_in_taken))
    then none
    else if not k.pool_made
    then some (success, record nothing_held { queue = true; timers_memory = true })
    else if not k.jprobe_taken
    then some (refused, record all_held { jprobe = false })
    else some (success, all_held)

abbrev pub bitmap_outcome : Kernel → Option ℕ → Option (Status × Held)
bitmap_outcome k none = cache_outcome k
bitmap_outcome k (some j) = some (enomem, record nothing_held { queue = true })

abbrev pub slab_outcome : Kernel → Option ℕ → Option (Status × Held)
slab_outcome k bitmaps =
    if not (caches_made k)
    then some (enomem, record nothing_held { queue = true })
    else bitmap_outcome k bitmaps

-- With `files` processors after one whose file is refused, free_percpu_file stops if there is one.
abbrev pub file_outcome : Kernel → Option ℕ → Option ℕ → Option (Status × Held)
file_outcome k none bitmaps = slab_outcome k bitmaps
file_outcome k (some zero) bitmaps = some (enodev, record nothing_held { queue = true })
file_outcome k (some (suc j)) bitmaps = none

abbrev pub outcome : Kernel → ℕ → Option (Status × Held)
outcome k cpus =
    if not k.skb_wq_made
    then some (minus_one, nothing_held)
    else file_outcome k (after_refusal k.file_opened 0 cpus) (after_refusal k.bitmap_made 0 cpus)

abbrev pub left_held : Status × Setup → Option (Status × Held)
left_held (e, m) = some (e, held m)

-- What is held after the unloading: mexit runs if minit returned 0, and stops if the hooks are out.
abbrev pub unloaded : Status × Held → Option Held
unloaded (e, h) =
    if is_negative e
    then some h
    else if h.pool
    then some (record nothing_held { timers_memory = true })
    else none

abbrev pub expected : Option (Status × Held) → Option ((Status × Held) × Option Held)
expected o = o >>= λ r. some (r, unloaded r)
