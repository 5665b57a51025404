-- ===== src/KernelHash/Table.antt =====
-- The hash table of model/kernel_hash/hash_table.c, with the locks of hash_lock.h.
pub mod Locks
pub mod Added
pub mod Invariant
pub mod Lookup
use Prim.Native.Nat.{bit_and}
use kernel_test.Base.{
  sext32, ℕ, zero, suc, ◌+◌, ◌-◌, ◌%◌, ◌^◌, Bool, true, false, ◌&&◌, ◌||◌, not, List, [], ◌∷◌, ◌++◌,
  Option, none, some, ◌>>=◌, take, ◌==◌, ltb, if◌then◌else◌, add64, add32, dec32, u64, u32,
}
use kernel_test.KernelHash.Params.{shalen}
use kernel_test.KernelHash.Jen.{hash_jen, jen_bkt}
use kernel_test.KernelHash.Item.{
  released, in_memory, on_disk, to_write, always_memory, from_file, unset, initial, Item, Stats,
  FlagCache,
}
use kernel_test.KernelHash.Memory.{alloc_data_memory, free_data_memory, memcpy}
use kernel_test.KernelHash.Bitmap.{Bits}
use kernel_test.KernelHash.Sweep.{Ward, item_cite_add, item_cite_find, sweep, is_on_disk}

-- `hash_tab_size`
abbrev pub hash_tab_size : ℕ
hash_tab_size = 2 ^ 20

-- `CT_LOCKARRAY_MASK`
abbrev pub ct_lockarray_mask : ℕ
ct_lockarray_mask = 2 ^ 10 - 1

-- The lock that a key picks.
unfoldable pub lock_of : ℕ → ℕ
lock_of key = bit_and key ct_lockarray_mask

-- The global state. `pending` says which buckets have a `w_work` in the work queue.
pub record Cache : Type 0 where
  pub tab : ℕ → List Item
  pub hash_count : ℕ
  pub stats : Stats
  pub bitmap : ℕ → Bits
  pub bitmap_index : ℕ → ℕ
  pub loff_file : ℕ → ℕ
  pub pending : ℕ → Bool

-- What the kernel answers to a call of `hash_new_item`: whether there is memory for the item and for
-- its data, and the address of the item.
pub record Answers : Type 0 where
  pub item_room : Bool
  pub data_room : Bool
  pub address : ℕ

-- HASH_FCN(info, SHA1SIZE, hash_tab_size, hash, bkt): `hash`, and then `bkt`.
unfoldable pub hash_of : List ℕ → ℕ
hash_of info = hash_jen (take shalen info)

unfoldable pub bkt_of : List ℕ → ℕ
unfolding hash_of
bkt_of info = jen_bkt hash_tab_size (hash_of info)

-- One bucket changed.
abbrev pub put_bucket {ℓ} : {A : Type ℓ} → ℕ → List A → (ℕ → List A) → ℕ → List A
put_bucket b items tab i = if i == b then items else tab i

bytes_eq : List ℕ → List ℕ → Bool
bytes_eq [] [] = true
bytes_eq (a ∷ as') (b ∷ bs) = a == b && bytes_eq as' bs
bytes_eq _ _ = false

-- memcmp(a, b, SHA1SIZE) == 0
unfoldable pub same_sha : List ℕ → List ℕ → Bool
unfolding bytes_eq
same_sha a b = bytes_eq (take shalen a) (take shalen b)

-- The item that `hash_new_item` fills in before it allocates.
abbrev pub blank : ℕ → ℕ → Item
blank address len_value = record {
  addr = address;
  refcnt = 0;
  share_ref = 0;
  len = len_value;
  sha1 = [];
  contents = [];
  mem_style = released;
  cpuid = unset;
  start = 0;
  flag_cache = in_memory;
  flag_mem = false;
  store_flag = initial;
}

-- hash_new_item(info, value, len_value): a NULL result is the inner `none`, a `BUG()` the outer one.
unfoldable pub hash_new_item :
    ℕ → Answers → List ℕ → List ℕ → ℕ → Cache → Option (Option Item × Cache)
unfolding bkt_of
hash_new_item hash_max_count ans info value len_value c =
    if ltb hash_max_count (sext32 c.hash_count)
    then some (none, c)
    else if not ans.item_room
    then some (none, c)
    else (alloc_data_memory ans.data_room len_value (blank ans.address len_value) c.stats >>= λ r.
        memcpy r.0.contents value len_value >>= λ filled.
        let cp : Item = record (r.0) {
          contents = filled;
          sha1 = take shalen info;
          refcnt = item_cite_add;
          share_ref = 1;
        } in
        let bkt = bkt_of cp.sha1 in
        some (
          some cp,
          record c {
            tab = put_bucket bkt (cp ∷ c.tab bkt) c.tab;
            hash_count = add32 c.hash_count 1;
            stats = r.1;
          },
        ))

-- add_hash_info(info, value, len_value) == 0, and the table afterwards
unfoldable pub add_hash_info : ℕ → Answers → List ℕ → List ℕ → ℕ → Cache → Option (Bool × Cache)
unfolding hash_new_item
add_hash_info hash_max_count ans info value len_value c =
    hash_new_item hash_max_count ans info value len_value c >>= λ r. elim (r.0) [
      | none ↦ some (false, r.1)
      | some cp ↦ some (true, r.1)
    ]

-- The statistics of a hit, by the state of the item.
unfoldable pub devote : FlagCache → ℕ → Stats → Stats
devote in_memory n st = record st { devote0 = add64 st.devote0 n }
devote on_disk n st = record st { devote1 = add64 st.devote1 n }
devote to_write n st = record st { devote2 = add64 st.devote2 n }
devote always_memory n st = record st { devote3 = add64 st.devote3 n }
devote from_file n st = record st { devote4 = add64 st.devote4 n }

-- An item that is hit.
unfoldable pub touch : Item → Item
touch cp = record cp {
  refcnt = add32 cp.refcnt item_cite_find;
  share_ref = add32 cp.share_ref 1;
  flag_cache = if is_on_disk cp.flag_cache then from_file else cp.flag_cache;
}

-- The loop of `get_hash_item`: the item that is hit, as it was before, and the bucket afterwards.
unfoldable pub find_item : List ℕ → List Item → Option (Item × List Item)
unfolding touch
find_item info [] = none
find_item info (cp ∷ cps) =
    let rest = find_item info cps in
    if same_sha cp.sha1 info then some (cp, touch cp ∷ cps) else rest >>= λ r. some (r.0, cp ∷ r.1)

-- get_hash_item(info)
unfoldable pub get_hash_item : List ℕ → Cache → Option Item × Cache
unfolding bkt_of find_item devote
get_hash_item info c =
    let bkt = bkt_of info in
    elim (find_item info (c.tab bkt)) [
      | none ↦ (none, c)
      | some (cp, cps) ↦ (
        some (touch cp),
        record c { tab = put_bucket bkt cps c.tab; stats = devote cp.flag_cache cp.len c.stats },
      )
    ]

-- bucket_clear_item(data): the sweep, and the work that it queues
unfoldable pub bucket_clear_item : ℕ → Cache → Option Cache
bucket_clear_item data' c =
    let w : Ward = record {
      stats = c.stats;
      hash_count = c.hash_count;
      bitmap = c.bitmap;
      flag = false;
    } in
    sweep (c.tab data') w >>= λ r. some (record c {
      tab = put_bucket data' (r.0) c.tab;
      stats = r.1.stats;
      hash_count = r.1.hash_count;
      bitmap = r.1.bitmap;
      pending = λ b. if b == data' && r.1.flag then true else c.pending b;
    })
