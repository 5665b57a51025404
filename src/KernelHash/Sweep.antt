-- ===== src/KernelHash/Sweep.antt =====
-- `bucket_clear_item` of model/kernel_hash/hash_table.c: the timer that ages the items of a bucket.
pub mod Safety
pub mod Survivors
pub mod Accounting
use kernel_test.Base.{
  ℕ, ◌+◌, Bool, true, false, ◌&&◌, ◌||◌, not, List, [], ◌∷◌, Option, none, some, ◌>>=◌, ◌==◌,
  if◌then◌else◌, add64, dec32, slt, sle,
}
use kernel_test.KernelHash.Item.{
  FlagCache, in_memory, on_disk, to_write, always_memory, from_file, CpuId, unset, marked, stored,
  StoreFlag, initial, should_write, will_write, Item, Stats, units, is_stored,
}
use kernel_test.KernelHash.Memory.{free_data_memory}
use kernel_test.KernelHash.Bitmap.{Bits, write_bits, at_cpu}

-- `ITEM_CITE_ADD`, `ITEM_CITE_FIND`, `ITEM_DISK_LIMIT` and `ITEM_VIP_LIMIT`
abbrev pub item_cite_add : ℕ
item_cite_add = 6

abbrev pub item_cite_find : ℕ
item_cite_find = 6

abbrev pub item_disk_limit : ℕ
item_disk_limit = 6

abbrev pub item_vip_limit : ℕ
item_vip_limit = 12

-- What a sweep changes beside the items; `flag` is its local variable.
pub record Ward : Type 0 where
  pub stats : Stats
  pub hash_count : ℕ
  pub bitmap : ℕ → Bits
  pub flag : Bool

abbrev pub is_on_disk : FlagCache → Bool
is_on_disk on_disk = true
is_on_disk _ = false

abbrev pub is_in_memory : FlagCache → Bool
is_in_memory in_memory = true
is_in_memory _ = false

abbrev pub is_to_write : FlagCache → Bool
is_to_write to_write = true
is_to_write _ = false

abbrev pub is_from_file : FlagCache → Bool
is_from_file from_file = true
is_from_file _ = false

abbrev pub is_should_write : StoreFlag → Bool
is_should_write should_write = true
is_should_write _ = false

abbrev pub is_initial : StoreFlag → Bool
is_initial initial = true
is_initial _ = false

-- if (share_ref == 1 && refcnt <= 1)
unfoldable pub expired : Item → Bool
expired cp = cp.share_ref == 1 && sle cp.refcnt 1

-- Freeing the data, unless it is only on disk. `BUG()` is a `none`.
unfoldable pub drop_data : Item → Ward → Option Ward
drop_data cp w =
    if not (is_on_disk cp.flag_cache)
    then (free_data_memory cp w.stats >>= λ r.
        some (record w { stats = record r.1 { mmf = add64 r.1.mmf cp.len } }))
    else some w

-- Releasing the storage units. A negative `cpuid` would name no bitmap, which is a `none`.
unfoldable pub drop_units : Item → Ward → Option Ward
drop_units cp w =
    if is_on_disk cp.flag_cache
      || (is_to_write cp.flag_cache && is_stored cp.cpuid)
      || is_from_file cp.flag_cache
    then elim cp.cpuid [
      | stored c ↦ some (record w {
        bitmap = at_cpu c (write_bits false (units cp.len) cp.start (w.bitmap c)) w.bitmap;
      })
      | unset ↦ none
      | marked ↦ none
    ]
    else some w

unfoldable pub drop_missed : Item → Ward → Ward
drop_missed cp w =
    if is_should_write cp.store_flag
    then record w { stats = record w.stats { mmd = add64 w.stats.mmd cp.len } }
    else w

-- Deleting an expired item.
unfoldable pub delete_item : Item → Ward → Option Ward
delete_item cp w = do
  w₁ ← drop_data cp (record w { hash_count = dec32 w.hash_count })
  w₂ ← drop_units cp w₁
  some (drop_missed cp w₂)

-- The status machine for an item that stays, in the order of the tests.
unfoldable pub promote_new : Item → Ward → Item × Ward
promote_new cp w =
    if sle item_vip_limit cp.refcnt && is_in_memory cp.flag_cache
    then (
      record cp { flag_cache = always_memory },
      record w { stats = record w.stats { mmm = add64 w.stats.mmm cp.len } },
    )
    else (cp, w)

unfoldable pub choose_write : Item → Item
choose_write cp =
    if slt cp.refcnt item_vip_limit && sle item_disk_limit cp.refcnt && is_in_memory cp.flag_cache
    then record cp { flag_cache = to_write }
    else cp

unfoldable pub promote_unwritten : Item → Ward → Item × Ward
promote_unwritten cp w =
    if sle item_vip_limit cp.refcnt && is_to_write cp.flag_cache && not (is_stored cp.cpuid)
    then (
      record cp { flag_cache = always_memory },
      record w { stats = record w.stats { mmm = add64 w.stats.mmm cp.len } },
    )
    else (cp, w)

unfoldable pub note_write : Item → Ward → Ward
note_write cp w =
    if not w.flag && sle item_disk_limit cp.refcnt && slt cp.refcnt item_vip_limit
    then record w { flag = true }
    else w

unfoldable pub note_store : Item → Item
note_store cp =
    if slt item_disk_limit cp.refcnt && is_initial cp.store_flag
    then record cp { store_flag = should_write }
    else cp

unfoldable pub age_item : Item → Ward → Item × Ward
age_item cp w =
    let (cp₁, w₁) = promote_new (record cp { refcnt = dec32 cp.refcnt }) w in
    let (cp₂, w₂) = promote_unwritten (choose_write cp₁) w₁ in (note_store cp₂, note_write cp₂ w₂)

-- The loop over the bucket.
unfoldable pub sweep : List Item → Ward → Option (List Item × Ward)
sweep [] w = some ([], w)
sweep (cp ∷ cps) w = elim (expired cp) [
  | true ↦ delete_item cp w >>= λ w'. sweep cps w'
  | false ↦ let (cp', w') = age_item cp w in sweep cps w' >>= λ r. some (cp' ∷ r.0, r.1)
]
