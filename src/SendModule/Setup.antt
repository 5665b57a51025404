-- ===== src/SendModule/Setup.antt =====
-- The entry and the exit of model/send_module/main.c, with its slab_cache.c, the cache of its
-- hash_table.c and the users of the digest pool of its sha.c. A `none` is a call that the kernel does
-- not allow, or one that does not return.
pub mod Outcome
use kernel_test.Base.{
  ℕ, ◌*◌, Bool, true, false, not, ◌&&◌, Option, none, some, ◌>>=◌, ◌>>◌, guard, ◌==◌, if◌then◌else◌,
  add64, sub64,
}
use kernel_test.KernelHash.Table.{hash_tab_size}
use kernel_test.KernelHash.Setup.{
  Ptr, null, live, Status, success, enomem, is_negative, is_live, is_null, or_null, release, vfree,
  destroy_cache,
}
use kernel_test.KernelHash.Setup.Entry.{answer}

-- What the kernel answers: whether each of its calls succeeds.
pub record SendKernel : Type 0 where
  pub sha_data_made : Bool
  pub replace_data_made : Bool
  pub mtu_data_made : Bool
  pub hash_tab_made : Bool
  pub bucket_clear_made : Bool
  pub hash_cachep_made : Bool
  pub nf_out_taken : Bool
  pub pool_made : Bool
  pub sizeof_timer_list : ℕ

-- What the module holds; `heads` is whether the list heads of hash_tab were set up, `timers` whether
-- print_memory and the timers of the buckets were.
pub record SendSetup : Type 0 where
  pub sha_data : Ptr
  pub replace_data : Ptr
  pub mtu_data : Ptr
  pub hash_tab : Ptr
  pub bucket_clear : Ptr
  pub hash_cachep : Ptr
  pub heads : Bool
  pub timers : Bool
  pub used_mem : ℕ
  pub nf_out : Bool
  pub sha1sig_users : ℕ
  pub sha1sig_pool : Ptr
  pub kprobe_in_reged : Bool

-- The statics of the module when it is loaded.
abbrev pub send_loaded : SendSetup
send_loaded = record {
  sha_data = null;
  replace_data = null;
  mtu_data = null;
  hash_tab = null;
  bucket_clear = null;
  hash_cachep = null;
  heads = false;
  timers = false;
  used_mem = 0;
  nf_out = false;
  sha1sig_users = 0;
  sha1sig_pool = null;
  kprobe_in_reged = false;
}

unfoldable pub send_alloc_slab : SendKernel → SendSetup → Status × SendSetup
send_alloc_slab k m =
    let m₁ : SendSetup = record m { sha_data = or_null k.sha_data_made } in
    let m₂ : SendSetup = record m₁ { replace_data = or_null k.replace_data_made } in
    let m₃ : SendSetup = record m₂ { mtu_data = or_null k.mtu_data_made } in
    if not k.sha_data_made
    then (enomem, m₁)
    else if not k.replace_data_made
    then (enomem, m₂)
    else if not k.mtu_data_made
    then (enomem, m₃)
    else (success, m₃)

unfoldable pub send_free_slab : SendSetup → Option SendSetup
unfolding destroy_cache
send_free_slab m = do
  a ← destroy_cache m.sha_data
  b ← destroy_cache m.replace_data
  c ← destroy_cache m.mtu_data
  some (record m { sha_data = a; replace_data = b; mtu_data = c })

-- The list heads and the timers are set up when all else is made.
unfoldable pub send_initial_hash_table_cache : SendKernel → SendSetup → Option (Status × SendSetup)
send_initial_hash_table_cache k m =
    let m₁ : SendSetup = record m { hash_tab = or_null k.hash_tab_made } in
    let m₂ : SendSetup = record m₁ {
      used_mem = add64 m₁.used_mem (hash_tab_size * 16);
      bucket_clear = or_null k.bucket_clear_made;
    } in
    let m₃ : SendSetup = record m₂ {
      used_mem = add64 m₂.used_mem (hash_tab_size * k.sizeof_timer_list);
      hash_cachep = or_null k.hash_cachep_made;
    } in
    if not k.hash_tab_made
    then some (enomem, m₁)
    else if not k.bucket_clear_made
    then some (enomem, m₂)
    else if not k.hash_cachep_made
    then (vfree m₃.hash_tab >>= λ tab. some (enomem, record m₃ { hash_tab = tab }))
    else some (success, record m₃ { heads = true; timers = true })

-- hash_flush walks the lists of all buckets; the timers of the buckets stand in bucket_clear.
unfoldable pub send_release_hash_table_cache : SendSetup → Option SendSetup
send_release_hash_table_cache m = do
  guard (is_live m.hash_tab && m.heads)
  guard (m.timers && is_live m.bucket_clear)
  cachep ← release m.hash_cachep
  tab ← vfree m.hash_tab
  some (record m { hash_cachep = cachep; hash_tab = tab; timers = false })

-- tcp_alloc_sha1sig_pool(): whether there is a pool; with users but no pool it waits for another caller.
unfoldable pub send_alloc_pool : Bool → SendSetup → Option (Bool × SendSetup)
send_alloc_pool made m =
    let users = add64 m.sha1sig_users 1 in
    if m.sha1sig_users == 0
    then if not made
      then some (false, record m { sha1sig_users = sub64 users 1 })
      else if is_null m.sha1sig_pool
      then some (true, record m { sha1sig_users = users; sha1sig_pool = live })
      else some (true, record m { sha1sig_users = users })
    else if is_null m.sha1sig_pool
    then none
    else some (true, record m { sha1sig_users = users })

-- tcp_free_sha1sig_pool()
unfoldable pub send_free_pool : SendSetup → Option SendSetup
send_free_pool m =
    let users = sub64 m.sha1sig_users 1 in
    if not (users == 0)
    then some (record m { sha1sig_users = users })
    else if is_null m.sha1sig_pool
    then some (record m { sha1sig_users = users })
    else (release m.sha1sig_pool >>= λ _.
        some (record m { sha1sig_users = users; sha1sig_pool = null }))

unfoldable pub send_unregister_nf_out : SendSetup → Option SendSetup
send_unregister_nf_out m = guard m.nf_out >> some (record m { nf_out = false })

-- The labels of minit.
unfoldable pub send_err_hash_table_cache : SendSetup → Option SendSetup
send_err_hash_table_cache m = send_release_hash_table_cache m >>= send_free_slab

unfoldable pub send_err_nf_reg_out : SendSetup → Option SendSetup
send_err_nf_reg_out m = send_unregister_nf_out m >>= send_err_hash_table_cache

unfoldable pub send_err_sha1siq_pool : SendSetup → Option SendSetup
send_err_sha1siq_pool m = send_free_pool m >>= send_err_nf_reg_out

-- `err` and what a label leaves.
abbrev pub with_err : Status → Option SendSetup → Option (Status × SendSetup)
with_err e o = o >>= λ m. some (e, m)

-- minit() from the hook on. A pool that is not made leaves `err` at 0.
unfoldable pub send_minit_hook : SendKernel → SendSetup → Option (Status × SendSetup)
unfolding send_err_nf_reg_out send_err_sha1siq_pool
send_minit_hook k m =
    let err = answer k.nf_out_taken in
    if is_negative err
    then with_err err (send_err_nf_reg_out m)
    else (send_alloc_pool k.pool_made (record m { nf_out = true }) >>= λ r.
        if not r.0
        then with_err err (send_err_sha1siq_pool r.1)
        else some (err, record r.1 { kprobe_in_reged = true }))

-- minit(), the hash parameters and counters aside.
unfoldable pub send_minit : SendKernel → SendSetup → Option (Status × SendSetup)
unfolding send_free_slab send_err_hash_table_cache send_minit_hook
send_minit k m =
    let r = send_alloc_slab k m in
    if is_negative r.0
    then with_err (r.0) (send_free_slab r.1)
    else (send_initial_hash_table_cache k r.1 >>= λ t.
        if is_negative t.0
        then with_err (t.0) (send_err_hash_table_cache t.1)
        else send_minit_hook k t.1)

unfoldable pub send_mexit : SendSetup → Option SendSetup
send_mexit m = do
  m₁ ← send_unregister_nf_out m
  m₂ ← send_release_hash_table_cache m₁
  m₃ ← send_free_slab m₂
  send_free_pool m₃
