-- ===== src/KernelHash/Expire.antt =====
-- `hash_del_item`, `hash_item_expire` and `hash_flush` of model/kernel_hash/hash_table.c.
pub mod Flush
use kernel_test.Base.{
  ℕ, not, List, [], ◌∷◌, Option, some, ◌>>=◌, ◌==◌, if◌then◌else◌, add64, add32, dec32, ◌≡◌, arith,
  u32, ◌<◌,
}
use kernel_test.KernelHash.Item.{Item, Stats}
use kernel_test.KernelHash.Memory.{free_data_memory}
use kernel_test.KernelHash.Sweep.{is_on_disk}

-- What is left of an item: it is in the table, with its state, or it is freed.
pub data Fate : Type 0 where
  kept : Item → Fate
  deleted : Fate

-- hash_del_item(cp). `between` is what other processors make of the count between the two times that it
-- is read, while `_unhash` takes the item out of its bucket; `_hash` puts it back.
unfoldable pub hash_del_item : (ℕ → ℕ) → Item → ℕ → Stats → Option (Fate × ℕ × Stats)
hash_del_item between cp hash_count st =
    let cp₁ : Item = record cp { refcnt = add32 cp.refcnt 1 } in
    let cp₂ : Item = record cp₁ { refcnt = between cp₁.refcnt } in
    if cp₁.refcnt == 2
    then if cp₂.refcnt == 1
      then (free_data_memory cp₂ st >>= λ r. some (deleted, dec32 hash_count, r.1))
      else some (kept (record cp₂ { refcnt = dec32 cp₂.refcnt }), hash_count, st)
    else some (kept (record cp₁ { refcnt = dec32 cp₁.refcnt }), hash_count, st)

-- hash_item_expire(data)
unfoldable pub hash_item_expire : (ℕ → ℕ) → Item → ℕ → Stats → Option (Fate × ℕ × Stats)
unfolding hash_del_item
hash_item_expire between cp hash_count st =
    if cp.refcnt == 1
    then hash_del_item between cp hash_count st
    else some (kept (record cp { refcnt = dec32 cp.refcnt }), hash_count, st)

-- The loop of hash_flush over a bucket.
unfoldable pub flush_bucket : List Item → ℕ → Stats → Option (ℕ × Stats)
flush_bucket [] hash_count st = some (hash_count, st)
flush_bucket (cp ∷ cps) hash_count st =
    (if not (is_on_disk cp.flag_cache)
      then (free_data_memory cp st >>= λ r. some (record r.1 { mmf = add64 r.1.mmf cp.len }))
      else some st)
    >>= λ st'. flush_bucket cps (dec32 hash_count) st'

-- hash_flush(), on the buckets that are given
unfoldable pub hash_flush : List (List Item) → ℕ → Stats → Option (ℕ × Stats)
unfolding flush_bucket
hash_flush [] hash_count st = some (hash_count, st)
hash_flush (b ∷ bs) hash_count st = flush_bucket b hash_count st >>= λ r. hash_flush bs (r.0) (r.1)
