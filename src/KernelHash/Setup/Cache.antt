-- ===== src/KernelHash/Setup/Cache.antt =====
-- How the kernel module takes and releases the hash table (initial_hash_table_cache and
-- release_hash_table_cache of model/kernel_hash/hash_table.c) and counts the users of the digest pool
-- (model/kernel_hash/sha.c). A `none` is a call that the kernel does not allow, or one that does not
-- return.
use kernel_test.Base.{
  ◌*◌, Bool, true, false, not, ◌&&◌, Option, none, some, ◌>>=◌, ◌>>◌, guard, ◌==◌, if◌then◌else◌,
  add64, sub64,
}
use kernel_test.KernelHash.Table.{hash_tab_size}
use kernel_test.KernelHash.Setup.{
  null, live, Status, success, minus_one, enomem, Kernel, Tables, Setup, is_live, is_null, or_null,
  release, vfree,
}

-- initial_hash_table_cache(): the list heads and the timers are set up when all else is made.
unfoldable pub initial_hash_table_cache : Kernel → Setup → Option (Status × Setup)
initial_hash_table_cache k m =
    let t₁ : Tables = record m.tables { writeread_wq = or_null k.writeread_wq_made } in
    let t₂ : Tables = record t₁ { hash_tab = or_null k.hash_tab_made } in
    let t₃ : Tables = record t₂ { bucket_clear = or_null k.bucket_clear_made } in
    let t₄ : Tables = record t₃ { hash_cachep = or_null k.hash_cachep_made } in
    let used₁ = add64 m.used_mem (hash_tab_size * 16) in
    let used₂ = add64 used₁ (hash_tab_size * k.sizeof_timer_list) in
    if not k.writeread_wq_made
    then some (minus_one, record m { tables = t₁ })
    else if not k.hash_tab_made
    then some (enomem, record m { tables = t₂ })
    else if not k.bucket_clear_made
    then some (enomem, record m { tables = t₃; used_mem = used₁ })
    else if not k.hash_cachep_made
    then (vfree t₄.hash_tab >>= λ tab.
        some (enomem, record m { tables = record t₄ { hash_tab = tab }; used_mem = used₂ }))
    else some
        (success, record m { tables = record t₄ { heads = true; timers = true }; used_mem = used₂ })

-- release_hash_table_cache(): hash_flush walks the lists of all buckets, so hash_tab has to be held and
-- set up; the timers of the buckets stand in bucket_clear.
unfoldable pub release_hash_table_cache : Setup → Option Setup
release_hash_table_cache m = do
  let t = m.tables
  guard (is_live t.hash_tab && t.heads)
  guard (t.timers && is_live t.bucket_clear)
  wq ← release t.writeread_wq
  cachep ← release t.hash_cachep
  tab ← vfree t.hash_tab
  some (record m {
    tables = record t { writeread_wq = wq; hash_cachep = cachep; hash_tab = tab; timers = false };
  })

-- tcp_alloc_sha1sig_pool(): whether there is a pool. With users but no pool it waits for the one that
-- makes it, which is a `none`. `made` is what __tcp_alloc_sha1sig_pool answers.
unfoldable pub tcp_alloc_sha1sig_pool : Bool → Setup → Option (Bool × Setup)
tcp_alloc_sha1sig_pool made m =
    let users = add64 m.sha1sig_users 1 in
    if m.sha1sig_users == 0
    then if not made
      then some (false, record m { sha1sig_users = sub64 users 1 })
      else if is_null m.sha1sig_pool
      then some (true, record m { sha1sig_users = users; sha1sig_pool = live })
      else some (true, record m { sha1sig_users = users })
    else if is_null m.sha1sig_pool
    then none
    else some (true, record m { sha1sig_users = users })

-- tcp_free_sha1sig_pool(): the last user releases the pool.
unfoldable pub tcp_free_sha1sig_pool : Setup → Option Setup
tcp_free_sha1sig_pool m =
    let users = sub64 m.sha1sig_users 1 in
    if users == 0
    then if is_null m.sha1sig_pool
      then some (record m { sha1sig_users = users })
      else (release m.sha1sig_pool >>= λ _.
          some (record m { sha1sig_users = users; sha1sig_pool = null }))
    else some (record m { sha1sig_users = users })
