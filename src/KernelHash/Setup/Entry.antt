-- ===== src/KernelHash/Setup/Entry.antt =====
-- The entry and the exit of the kernel module, minit and mexit of model/kernel_hash/main.c. Each label
-- of minit is a function that goes on with the next label.
pub mod Expected
pub mod Outcome
pub mod Unload
use kernel_test.Base.{
  ℕ, List, Bool, true, false, not, Option, none, some, ◌>>=◌, ◌>>◌, guard, if◌then◌else◌,
}
use kernel_test.KernelHash.Item.{Item, Stats}
use kernel_test.KernelHash.Expire.{hash_flush}
use kernel_test.KernelHash.Queue.{Skb, Queues, flush_works, clear_remainder_skb}
use kernel_test.KernelHash.Setup.{
  Ptr, live, Status, success, refused, is_negative, Kernel, Setup, release, init_some_parameters,
  alloc_percpu_file, free_percpu_file, alloc_slab, free_slab, alloc_bitmap, free_bitmap,
}
use kernel_test.KernelHash.Setup.Cache.{
  initial_hash_table_cache, release_hash_table_cache, tcp_alloc_sha1sig_pool, tcp_free_sha1sig_pool,
}

-- A call that the kernel takes, or answers with a value below zero.
abbrev pub answer : Bool → Status
answer true = success
answer false = refused

-- nf_register_hook and nf_unregister_hook of the two hooks: a hook that is taken out is registered.
unfoldable pub register_nf_out : Bool → Setup → Status × Setup
register_nf_out taken m = (answer taken, if taken then record m { nf_out = true } else m)

unfoldable pub register_nf_in : Bool → Setup → Status × Setup
register_nf_in taken m = (answer taken, if taken then record m { nf_in = true } else m)

unfoldable pub unregister_nf_out : Setup → Option Setup
unregister_nf_out m = guard m.nf_out >> some (record m { nf_out = false })

unfoldable pub unregister_nf_in : Setup → Option Setup
unregister_nf_in m = guard m.nf_in >> some (record m { nf_in = false })

-- The labels of minit, from the last to the first.
unfoldable pub err_alloc_file : Setup → Option Setup
err_alloc_file m = free_percpu_file m

unfoldable pub err_alloc_slab : Setup → Option Setup
err_alloc_slab m = free_slab m >>= err_alloc_file

unfoldable pub err_bitmap : Setup → Option Setup
err_bitmap m = free_bitmap m >>= err_alloc_slab

unfoldable pub err_hash_table_cache : Setup → Option Setup
err_hash_table_cache m = release_hash_table_cache m >>= err_bitmap

unfoldable pub err_nf_reg_out : Setup → Option Setup
err_nf_reg_out m = unregister_nf_out m >>= err_hash_table_cache

unfoldable pub err_nf_reg_in : Setup → Option Setup
err_nf_reg_in m = unregister_nf_in m >>= err_nf_reg_out

unfoldable pub err_sha1siq_pool : Setup → Option Setup
err_sha1siq_pool m = tcp_free_sha1sig_pool m >>= err_nf_reg_in

-- `if (0 > (err = f())) goto label;`, and what follows.
abbrev pub or_goto :
    Status × Setup
    → (Setup → Option Setup)
    → (Setup → Option (Status × Setup))
    → Option (Status × Setup)
or_goto (e, m) label next = if is_negative e then (label m >>= λ m'. some (e, m')) else next m

-- From the pool on. Neither a pool that is not made nor the jprobe changes the path of `err`: the
-- former leaves it at 0, the latter goes to `out`.
unfoldable pub minit_pool : Kernel → Setup → Option (Status × Setup)
unfolding err_sha1siq_pool
minit_pool k m = tcp_alloc_sha1sig_pool k.pool_made m >>= λ r.
    if not r.0
    then (err_sha1siq_pool r.1 >>= λ m'. some (success, m'))
    else if not k.jprobe_taken
    then some (refused, r.1)
    else some (success, record r.1 { jprobe = true; kprobe_in_reged = true })

unfoldable pub minit_hooks : Kernel → Setup → Option (Status × Setup)
unfolding err_nf_reg_out err_nf_reg_in
minit_hooks k m =
    or_goto (register_nf_out k.nf_out_taken m) err_nf_reg_out
      (λ m₁. or_goto (register_nf_in k.nf_in_taken m₁) err_nf_reg_in (minit_pool k))

unfoldable pub minit_cache : Kernel → Setup → Option (Status × Setup)
unfolding err_hash_table_cache minit_hooks
minit_cache k m =
    initial_hash_table_cache k m >>= λ r. or_goto r err_hash_table_cache (minit_hooks k)

unfoldable pub minit_bitmap : Kernel → Setup → Option (Status × Setup)
unfolding err_bitmap minit_cache
minit_bitmap k m = or_goto (alloc_bitmap k m) err_bitmap (minit_cache k)

unfoldable pub minit_slab : Kernel → Setup → Option (Status × Setup)
unfolding err_alloc_slab minit_bitmap
minit_slab k m = or_goto (alloc_slab k m) err_alloc_slab (minit_bitmap k)

-- minit(), the hash parameters aside: what it returns and what the module holds then.
unfoldable pub minit : Kernel → Setup → Option (Status × Setup)
unfolding err_alloc_file minit_slab
minit k m =
    or_goto (init_some_parameters k m) some
      (λ m₁. or_goto (alloc_percpu_file k m₁) err_alloc_file (minit_slab k))

-- The hooks and the jprobe are taken out.
unfoldable pub unhook : Setup → Option Setup
unhook m = do
  m₁ ← unregister_nf_in m
  m₂ ← unregister_nf_out m₁
  some (if m₂.kprobe_in_reged then record m₂ { jprobe = false } else m₂)

-- destroy_workqueue(skb_wq)
unfoldable pub destroy_queue : Setup → Option Setup
destroy_queue m = release m.skb_wq >>= λ wq. some (record m { skb_wq = wq })

-- What follows it in mexit, the items of the table aside.
unfoldable pub give_back : Setup → Option Setup
give_back m = do
  m₁ ← release_hash_table_cache m
  m₂ ← free_percpu_file m₁
  m₃ ← free_slab m₂
  m₄ ← free_bitmap m₃
  tcp_free_sha1sig_pool m₄

-- The queues and the table when the module is unloaded: what handle_skb does with a packet, read_data,
-- its allocations, and the buckets, `hash_count` and counters of a state.
module _ {ℓ} {S : Type ℓ} (cut : Skb → S → Option S) (read : S → Option S) (room : Queues S → Bool)
    (table : S → List (List Item) × ℕ × Stats) where
  -- flush_workqueue(skb_wq) and clear_remainder_skb() on processor `here` of `cpus`; a `none` if it
  -- has not returned with the fuel.
  unfoldable pub empty_queues : ℕ → ℕ → ℕ → Queues S → Option (Queues S)
  empty_queues cpus here fuel q = do
    q₁ ← flush_works cut read room cpus 0 q
    r ← clear_remainder_skb cut read room cpus here fuel q₁
    if r.0 then some r.1 else none

  -- hash_flush, on what is left of the table
  unfoldable pub flush_table : Queues S → Option (ℕ × Stats)
  flush_table q = let t = table q.state in hash_flush t.0 t.1 t.2

  -- mexit()
  unfoldable pub mexit : ℕ → ℕ → ℕ → Queues S → Setup → Option (Setup × ℕ × Stats)
  unfolding empty_queues flush_table
  mexit cpus here fuel q m = do
    m₁ ← unhook m
    q₁ ← empty_queues cpus here fuel q
    m₂ ← destroy_queue m₁
    t ← flush_table q₁
    m₃ ← give_back m₂
    some (m₃, t.0, t.1)
