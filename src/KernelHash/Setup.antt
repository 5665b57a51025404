-- ===== src/KernelHash/Setup.antt =====
-- What the kernel module holds, and how it takes and gives it back: init_some_parameters of
-- model/kernel_hash/main.c, slab_cache.c, alloc_file.c, and alloc_bitmap and free_bitmap of bitmap.c.
-- A `none` is a call that the kernel does not allow: an object released that is not held, or a list
-- or a timer used that was not set up.
pub mod Cache
pub mod Percpu
pub mod Entry
use kernel_test.Base.{
  ℕ, zero, suc, ◌+◌, ◌*◌, ◌/◌, ◌^◌, Bool, true, false, not, ◌&&◌, List, [], ◌∷◌, Option, none, some,
  ◌>>=◌, ◌==◌, if◌then◌else◌, add64, sub64, replicate,
}

-- A pointer: NULL, an error of the kernel, an object that is held, or one that was released.
pub data Ptr : Type 0 where
  null : Ptr
  err : Ptr
  live : Ptr
  freed : Ptr

abbrev pub is_live : Ptr → Bool
is_live live = true
is_live _ = false

abbrev pub is_null : Ptr → Bool
is_null null = true
is_null _ = false

abbrev pub is_err : Ptr → Bool
is_err err = true
is_err _ = false

-- The value that is returned: 0, -1, -ENOMEM, -ENODEV, or what the kernel answered, below zero.
pub data Status : Type 0 where
  success : Status
  minus_one : Status
  enomem : Status
  enodev : Status
  refused : Status

abbrev pub is_negative : Status → Bool
is_negative success = false
is_negative _ = true

-- What the kernel answers: whether each of its calls succeeds, in the order of the calls.
pub record Kernel : Type 0 where
  pub skb_wq_made : Bool
  pub file_opened : ℕ → Bool
  pub sha_data_made : Bool
  pub slab_chunk1_made : Bool
  pub slab_chunk2_made : Bool
  pub slab_chunk3_made : Bool
  pub reskb_made : Bool
  pub listhead_made : Bool
  pub readskb_made : Bool
  pub tasklet_made : Bool
  pub bitmap_made : ℕ → Bool
  pub writeread_wq_made : Bool
  pub hash_tab_made : Bool
  pub bucket_clear_made : Bool
  pub hash_cachep_made : Bool
  pub nf_out_taken : Bool
  pub nf_in_taken : Bool
  pub pool_made : Bool
  pub jprobe_taken : Bool
  pub sizeof_timer_list : ℕ

pub record Slabs : Type 0 where
  pub sha_data : Ptr
  pub slab_chunk1 : Ptr
  pub slab_chunk2 : Ptr
  pub slab_chunk3 : Ptr
  pub reskb_cachep : Ptr
  pub listhead_cachep : Ptr
  pub readskb_cachep : Ptr
  pub tasklet_cachep : Ptr

-- The tables of hash_table.c; `heads` is whether the list heads of hash_tab were set up, `timers`
-- whether print_memory and the timers of the buckets were.
pub record Tables : Type 0 where
  pub writeread_wq : Ptr
  pub hash_tab : Ptr
  pub bucket_clear : Ptr
  pub hash_cachep : Ptr
  pub heads : Bool
  pub timers : Bool

-- All that the module holds, a file and a bitmap for each processor that is online.
pub record Setup : Type 0 where
  pub skb_wq : Ptr
  pub skb_lists : Bool
  pub reserve_file : List Ptr
  pub slabs : Slabs
  pub bitmap : List Ptr
  pub tables : Tables
  pub used_mem : ℕ
  pub nf_out : Bool
  pub nf_in : Bool
  pub sha1sig_users : ℕ
  pub sha1sig_pool : Ptr
  pub jprobe : Bool
  pub kprobe_in_reged : Bool

-- The statics of the module when it is loaded, with `cpus` processors online.
abbrev pub loaded : ℕ → Setup
loaded cpus = record {
  skb_wq = null;
  skb_lists = false;
  reserve_file = replicate cpus null;
  slabs = record {
    sha_data = null;
    slab_chunk1 = null;
    slab_chunk2 = null;
    slab_chunk3 = null;
    reskb_cachep = null;
    listhead_cachep = null;
    readskb_cachep = null;
    tasklet_cachep = null;
  };
  bitmap = replicate cpus null;
  tables = record {
    writeread_wq = null;
    hash_tab = null;
    bucket_clear = null;
    hash_cachep = null;
    heads = false;
    timers = false;
  };
  used_mem = 0;
  nf_out = false;
  nf_in = false;
  sha1sig_users = 0;
  sha1sig_pool = null;
  jprobe = false;
  kprobe_in_reged = false;
}

-- The object of a call that gives NULL when it fails.
abbrev pub or_null : Bool → Ptr
or_null true = live
or_null false = null

-- kmem_cache_destroy, fput, destroy_workqueue: the object is held.
abbrev pub release : Ptr → Option Ptr
release live = some freed
release _ = none

-- vfree, which takes NULL too
abbrev pub vfree : Ptr → Option Ptr
vfree null = some null
vfree p = release p

-- init_some_parameters(), the counters of packets aside
unfoldable pub init_some_parameters : Kernel → Setup → Status × Setup
init_some_parameters k m =
    if not k.skb_wq_made
    then (minus_one, record m { skb_wq = null })
    else (success, record m { skb_wq = live; skb_lists = true })

-- The loop of alloc_percpu_file from processor `cpu` on.
unfoldable pub open_files : (ℕ → Bool) → ℕ → List Ptr → Status × List Ptr
open_files opened cpu [] = (success, [])
open_files opened cpu (p ∷ ps) =
    let rest = open_files opened (cpu + 1) ps in
    if not (opened cpu) then (enodev, err ∷ ps) else (rest.0, live ∷ rest.1)

unfoldable pub alloc_percpu_file : Kernel → Setup → Status × Setup
alloc_percpu_file k m =
    let r = open_files k.file_opened 0 m.reserve_file in (r.0, record m { reserve_file = r.1 })

-- The loop of free_percpu_file.
unfoldable pub put_files : List Ptr → Option (List Ptr)
put_files [] = some []
put_files (p ∷ ps) = do
  p' ← (if not (is_err p) then release p else some p)
  ps' ← put_files ps
  some (p' ∷ ps')

unfoldable pub free_percpu_file : Setup → Option Setup
free_percpu_file m = put_files m.reserve_file >>= λ ps. some (record m { reserve_file = ps })

-- alloc_slab(): a cache that is not made ends it.
unfoldable pub alloc_slab : Kernel → Setup → Status × Setup
alloc_slab k m =
    let s₁ : Slabs = record m.slabs { sha_data = or_null k.sha_data_made } in
    let s₂ : Slabs = record s₁ { slab_chunk1 = or_null k.slab_chunk1_made } in
    let s₃ : Slabs = record s₂ { slab_chunk2 = or_null k.slab_chunk2_made } in
    let s₄ : Slabs = record s₃ { slab_chunk3 = or_null k.slab_chunk3_made } in
    let s₅ : Slabs = record s₄ { reskb_cachep = or_null k.reskb_made } in
    let s₆ : Slabs = record s₅ { listhead_cachep = or_null k.listhead_made } in
    let s₇ : Slabs = record s₆ { readskb_cachep = or_null k.readskb_made } in
    let s₈ : Slabs = record s₇ { tasklet_cachep = or_null k.tasklet_made } in
    if not k.sha_data_made
    then (enomem, record m { slabs = s₁ })
    else if not k.slab_chunk1_made
    then (enomem, record m { slabs = s₂ })
    else if not k.slab_chunk2_made
    then (enomem, record m { slabs = s₃ })
    else if not k.slab_chunk3_made
    then (enomem, record m { slabs = s₄ })
    else if not k.reskb_made
    then (enomem, record m { slabs = s₅ })
    else if not k.listhead_made
    then (enomem, record m { slabs = s₆ })
    else if not k.readskb_made
    then (enomem, record m { slabs = s₇ })
    else if not k.tasklet_made
    then (enomem, record m { slabs = s₈ })
    else (success, record m { slabs = s₈ })

-- A cache of free_slab.
unfoldable pub destroy_cache : Ptr → Option Ptr
destroy_cache p = if not (is_null p) then release p else some p

unfoldable pub free_slab : Setup → Option Setup
unfolding destroy_cache
free_slab m = do
  a ← destroy_cache m.slabs.sha_data
  b ← destroy_cache m.slabs.slab_chunk1
  c ← destroy_cache m.slabs.slab_chunk2
  d ← destroy_cache m.slabs.slab_chunk3
  e ← destroy_cache m.slabs.reskb_cachep
  f ← destroy_cache m.slabs.listhead_cachep
  g ← destroy_cache m.slabs.readskb_cachep
  h ← destroy_cache m.slabs.tasklet_cachep
  some (record m {
    slabs = record {
      sha_data = a;
      slab_chunk1 = b;
      slab_chunk2 = c;
      slab_chunk3 = d;
      reskb_cachep = e;
      listhead_cachep = f;
      readskb_cachep = g;
      tasklet_cachep = h;
    };
  })

-- `bitmap_size`: a bit for each chunk of a file of FILESIZE gigabytes
abbrev pub bitmap_bytes : ℕ
bitmap_bytes = 10 * 1024 * 1024 * 1024 / 32 / 8

-- The loop of alloc_bitmap from processor `cpu` on, with `used_mem`.
unfoldable pub make_bitmaps : (ℕ → Bool) → ℕ → List Ptr → ℕ → Status × List Ptr × ℕ
make_bitmaps made cpu [] used = (success, [], used)
make_bitmaps made cpu (p ∷ ps) used =
    let rest = make_bitmaps made (cpu + 1) ps (add64 used bitmap_bytes) in
    if not (made cpu) then (enomem, null ∷ ps, used) else (rest.0, live ∷ rest.1, rest.2)

unfoldable pub alloc_bitmap : Kernel → Setup → Status × Setup
alloc_bitmap k m =
    let r = make_bitmaps k.bitmap_made 0 m.bitmap m.used_mem in
    (r.0, record m { bitmap = r.1; used_mem = r.2 })

-- The loop of free_bitmap.
unfoldable pub free_bitmaps : List Ptr → Option (List Ptr)
free_bitmaps [] = some []
free_bitmaps (p ∷ ps) = do
  p' ← (if not (is_null p) then vfree p else some p)
  ps' ← free_bitmaps ps
  some (p' ∷ ps')

unfoldable pub free_bitmap : Setup → Option Setup
free_bitmap m = free_bitmaps m.bitmap >>= λ ps. some (record m { bitmap = ps })
