-- ===== src/SendModule/Entries.antt =====
-- The hash table of model/send_module/hash_table.c. The hash, the size of the table and the locks are
-- those of model/kernel_hash, in the same words.
pub mod Ageing
pub mod Known
use kernel_test.Base.{
  sext32, ℕ, ◌+◌, ◌%◌, ◌^◌, not, Bool, true, false, List, [], ◌∷◌, Option, none, some, take, ltb,
  ◌==◌, if◌then◌else◌, add32, dec32, sle, u32, ◌>>=◌,
}
use kernel_test.KernelHash.Params.{shalen}
use kernel_test.KernelHash.Table.{bkt_of, put_bucket, same_sha}

-- `ITEM_CITE_ADD` and `ITEM_CITE_FIND`
abbrev pub cite_add : ℕ
cite_add = 6

abbrev pub cite_find : ℕ
cite_find = 6

-- `struct hashinfo_item`. An entry keeps the length of the data, and not the data.
pub record Entry : Type 0 where
  pub addr : ℕ
  pub refcnt : ℕ
  pub len : ℕ
  pub sha1 : List ℕ

-- `hash_tab` and `hash_count`
pub record Entries : Type 0 where
  pub tab : ℕ → List Entry
  pub hash_count : ℕ

-- hash_new_item(info, value, len_value). `room` and `address` are the answer of the allocator.
unfoldable pub hash_new_item : ℕ → Bool → ℕ → List ℕ → ℕ → Entries → Option Entry × Entries
hash_new_item hash_max_count room address info len_value t =
    if ltb hash_max_count (sext32 t.hash_count)
    then (none, t)
    else if not room
    then (none, t)
    else let cp : Entry = record {
      addr = address;
      refcnt = cite_add;
      len = len_value % u32;
      sha1 = take shalen info;
    } in
      let bkt = bkt_of cp.sha1 in
      (
        some cp,
        record { tab = put_bucket bkt (cp ∷ t.tab bkt) t.tab; hash_count = add32 t.hash_count 1 },
      )

-- add_hash_info(info, value, len_value) == 0, and the table afterwards
unfoldable pub add_hash_info : ℕ → Bool → ℕ → List ℕ → ℕ → Entries → Bool × Entries
unfolding hash_new_item
add_hash_info hash_max_count room address info len_value t =
    let r = hash_new_item hash_max_count room address info len_value t in
    elim (r.0) [ none ↦ (false, r.1) | some cp ↦ (true, r.1) ]

-- An entry that is hit.
unfoldable pub cite : Entry → Entry
cite cp = record cp { refcnt = add32 cp.refcnt cite_find }

-- The loop of get_hash_item: the entry that is hit, and the bucket afterwards.
unfoldable pub find_entry : List ℕ → List Entry → Option (Entry × List Entry)
unfolding cite
find_entry info [] = none
find_entry info (cp ∷ cps) =
    let rest = find_entry info cps in
    if same_sha cp.sha1 info
    then some (cite cp, cite cp ∷ cps)
    else rest >>= λ r. some (r.0, cp ∷ r.1)

-- get_hash_item(info)
unfoldable pub get_hash_item : List ℕ → Entries → Option Entry × Entries
unfolding find_entry
get_hash_item info t =
    let bkt = bkt_of info in
    elim (find_entry info (t.tab bkt)) [
      | none ↦ (none, t)
      | some (cp, cps) ↦ (some cp, record t { tab = put_bucket bkt cps t.tab })
    ]

-- The loop of bucket_clear_item.
unfoldable pub clear_entries : List Entry → ℕ → List Entry × ℕ
clear_entries [] hash_count = ([], hash_count)
clear_entries (cp ∷ cps) hash_count = elim (sle cp.refcnt 1) [
  | true ↦ clear_entries cps (dec32 hash_count)
  | false ↦
      let r = clear_entries cps hash_count in (record cp { refcnt = dec32 cp.refcnt } ∷ r.0, r.1)
]

-- bucket_clear_item(data), which ends by setting its timer again
unfoldable pub bucket_clear_item : ℕ → Entries → Entries
unfolding clear_entries
bucket_clear_item bkt t =
    let r = clear_entries (t.tab bkt) t.hash_count in
    record { tab = put_bucket bkt (r.0) t.tab; hash_count = r.1 }

-- hash_del_item(cp): the entry afterwards, a `none` where it is freed, and `hash_count`. `between` is
-- what other processors make of the count between the two times that it is read, while `_unhash` takes
-- the entry out of its bucket; `_hash` puts it back.
unfoldable pub hash_del_item : (ℕ → ℕ) → Entry → ℕ → Option Entry × ℕ
hash_del_item between cp hash_count =
    let cp₁ : Entry = record cp { refcnt = add32 cp.refcnt 1 } in
    let cp₂ : Entry = record cp₁ { refcnt = between cp₁.refcnt } in
    if cp₁.refcnt == 2
    then if cp₂.refcnt == 1
      then (none, dec32 hash_count)
      else (some (record cp₂ { refcnt = dec32 cp₂.refcnt }), hash_count)
    else (some (record cp₁ { refcnt = dec32 cp₁.refcnt }), hash_count)

-- hash_item_expire(data)
unfoldable pub hash_item_expire : (ℕ → ℕ) → Entry → ℕ → Option Entry × ℕ
unfolding hash_del_item
hash_item_expire between cp hash_count =
    if cp.refcnt == 1
    then hash_del_item between cp hash_count
    else (some (record cp { refcnt = dec32 cp.refcnt }), hash_count)

-- The loop of hash_flush over a bucket frees each entry.
unfoldable pub flush_entries : List Entry → ℕ → ℕ
flush_entries [] hash_count = hash_count
flush_entries (cp ∷ cps) hash_count = flush_entries cps (dec32 hash_count)

-- The loop of hash_flush over the buckets from `idx` on, `n` of them.
unfoldable pub hash_flush : ℕ → ℕ → Entries → Entries
unfolding flush_entries
hash_flush ℕ.zero idx t = t
hash_flush (ℕ.suc n) idx t =
    hash_flush n (idx + 1) (record {
      tab = put_bucket idx [] t.tab;
      hash_count = flush_entries (t.tab idx) t.hash_count;
    })
