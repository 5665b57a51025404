-- ===== src/Tests/Setup.antt =====
-- Runs of the entry and the exit of model/kernel_hash/main.c, and their theorems at inputs that meet
-- their hypotheses.
use kernel_test.Base.{
  Option, ℕ, List, [], ◌∷◌, ◌+◌, ◌≡◌, refl, true, false, some, none, ◌>>=◌, ◌==◌, if◌then◌else◌,
}
use kernel_test.KernelHash.Setup.{
  success, Kernel, Setup, loaded, is_live, init_some_parameters, open_files, alloc_percpu_file,
  put_files, free_percpu_file, alloc_slab, make_bitmaps, alloc_bitmap,
}
use kernel_test.KernelHash.Setup.Cache.{initial_hash_table_cache, tcp_alloc_sha1sig_pool}
use kernel_test.KernelHash.Setup.Percpu.{after_refusal}
use kernel_test.KernelHash.Setup.Entry.{
  register_nf_out, register_nf_in, minit_pool, minit_hooks, minit_cache, minit_bitmap, minit_slab,
  minit, mexit,
}
use kernel_test.KernelHash.Setup.Entry.Expected.{nothing_held, outcome}
use kernel_test.KernelHash.Setup.Entry.Unload.{held_after, emptied, mexit-unloaded}
use kernel_test.KernelHash.Setup.Entry.{empty_queues, flush_table}
use kernel_test.KernelHash.Queue.{
  Skb, Queues, flush_works, clear_remainder_skb, count_empty, handle_skb, cut_all, resend_skb,
  queue_work,
}
use kernel_test.KernelHash.Item.{Item, Stats}
use kernel_test.KernelHash.Memory.{free_data_memory}
use kernel_test.KernelHash.Expire.{hash_flush, flush_bucket}
use kernel_test.Tests.Sweep.{young, zero_stats}

-- A kernel that refuses nothing.
abbrev willing : Kernel
willing = record {
  skb_wq_made = true;
  file_opened = λ c. true;
  sha_data_made = true;
  slab_chunk1_made = true;
  slab_chunk2_made = true;
  slab_chunk3_made = true;
  reskb_made = true;
  listhead_made = true;
  readskb_made = true;
  tasklet_made = true;
  bitmap_made = λ c. true;
  writeread_wq_made = true;
  hash_tab_made = true;
  bucket_clear_made = true;
  hash_cachep_made = true;
  nf_out_taken = true;
  nf_in_taken = true;
  pool_made = true;
  jprobe_taken = true;
  sizeof_timer_list = 80;
}

-- What minit leaves on two processors.
after_minit : (m : Setup) × (minit willing (loaded 2) ≡ some (success, m))
unfolding minit minit_slab minit_bitmap minit_cache minit_hooks minit_pool init_some_parameters
    alloc_percpu_file open_files alloc_slab alloc_bitmap make_bitmaps initial_hash_table_cache
    register_nf_out register_nf_in tcp_alloc_sha1sig_pool
after_minit = (_, refl)

-- Two packets wait on processor 1, and the table has two items.
abbrev two_wait : Queues ℕ
two_wait = record {
  skb_list = λ c. if c == 1 then (7 ∷ []) ∷ (8 ∷ []) ∷ [] else [];
  work = λ w. none;
  skb_num = 2;
  resent = λ c. [];
  state = 0;
}

abbrev count : Skb → ℕ → Option ℕ
count x s = some (s + 1)

abbrev two_items : ℕ → List (List Item) × ℕ × Stats
two_items s = ((young ∷ []) ∷ (young ∷ []) ∷ [], s, zero_stats)

mexit-unloaded_example :
    (mexit count some (λ q. true) two_items 2 1 3 two_wait after_minit.0 >>= held_after) ≡ (
      if is_live after_minit.0.sha1sig_pool
      then emptied count some
          (λ q. true)
          two_items
          2
          1
          3
          two_wait
          (record nothing_held { timers_memory = true })
      else none)
mexit-unloaded_example =
    mexit-unloaded count some (λ q. true) two_items willing 1 1 3 two_wait after_minit.0
      after_minit.1

-- The two packets are cut on the way, and the count of the table falls to 0.
two_emptied :
    (emptied count some (λ q. true) two_items 2 1 3 two_wait nothing_held >>= λ r. some (r.1))
    ≡ some 0
unfolding empty_queues flush_table flush_works clear_remainder_skb count_empty handle_skb cut_all
    resend_skb queue_work hash_flush flush_bucket free_data_memory
two_emptied = refl

-- The file of the first of two processors cannot be opened.
first_file_refused : minit (record willing { file_opened = λ c. c == 1 }) (loaded 2) ≡ none
unfolding minit init_some_parameters alloc_percpu_file open_files free_percpu_file put_files
first_file_refused = refl

-- The outgoing hook is refused.
hook_refused : outcome (record willing { nf_out_taken = false }) 1 ≡ none
unfolding after_refusal
hook_refused = refl

-- The pool is not made, and the module is loaded.
pool_refused :
    outcome (record willing { pool_made = false }) 1
    ≡ some (success, record nothing_held { queue = true; timers_memory = true })
unfolding after_refusal
pool_refused = refl
