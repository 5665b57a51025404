-- ===== src/KernelHash/Setup/Entry/Outcome.antt =====
-- What minit of model/kernel_hash/main.c returns and leaves held, and what the parts of mexit then give
-- back: each step of minit in turn,
-- from the last to the first.
use kernel_test.Base.{
  some_eq, ap, sym, ◌∙◌, ℕ, zero, suc, ◌≡◌, refl, Bool, true, false, not, List, Option, none, some,
  ◌>>=◌, if◌then◌else◌, replicate,
}
use kernel_test.KernelHash.Setup.{
  is_negative, open_files, make_bitmaps, destroy_cache, Ptr, null, live, freed, Status, success,
  minus_one, enomem, Kernel, Slabs, Setup, loaded, is_live, init_some_parameters, alloc_percpu_file,
  free_percpu_file, alloc_slab, free_slab, alloc_bitmap, free_bitmap,
}
use kernel_test.KernelHash.Setup.Cache.{
  initial_hash_table_cache, release_hash_table_cache, tcp_alloc_sha1sig_pool, tcp_free_sha1sig_pool,
}
use kernel_test.KernelHash.Setup.Percpu.{
  any_live-null, after_refusal, any_live, any_live-freed, put_files-live, free_bitmaps-live,
  slabs_of, caches_made, open_files-Opened, make_bitmaps-Made, alloc_slab-Cached, Opened, Made,
  Cached,
}
use kernel_test.KernelHash.Setup.Entry.{
  or_goto, register_nf_out, register_nf_in, unregister_nf_out, unregister_nf_in, minit_pool,
  minit_hooks, minit_cache, minit_bitmap, minit_slab, minit, unhook, destroy_queue, give_back,
  err_alloc_file, err_alloc_slab, err_bitmap, err_hash_table_cache, err_nf_reg_out, err_nf_reg_in,
  err_sha1siq_pool,
}
use kernel_test.KernelHash.Setup.Entry.Expected.{
  Held, held, nothing_held, cache_outcome, bitmap_outcome, slab_outcome, file_outcome, outcome,
  unloaded, expected,
}

-- What is held after minit, and after mexit if it runs.
abbrev seen : Option (Status × Setup) → Option ((Status × Held) × Option Held)
seen o = o >>= λ r. some (
  (r.0, held r.1),
  if is_negative r.0
      then some (held r.1)
      else (unhook r.1 >>= destroy_queue >>= give_back >>= λ m. some (held m)),
)

module _ (cpus : ℕ) (some_cpu : any_live (replicate cpus live) ≡ true) where
  -- The states after each step that succeeds.
  abbrev queued : Setup
  queued = record (loaded cpus) { skb_wq = live; skb_lists = true }

  abbrev opened : Setup
  opened = record queued { reserve_file = replicate cpus live }

  abbrev cached : Setup
  cached = record opened { slabs = slabs_of live }

  abbrev pub mapped : ℕ → Setup
  mapped used = record cached { bitmap = replicate cpus live; used_mem = used }

  minit_cache_lem :
      (k : Kernel) (used : ℕ) → seen (minit_cache k (mapped used)) ≡ expected (cache_outcome k)
  unfolding minit_cache minit_hooks minit_pool initial_hash_table_cache release_hash_table_cache
      tcp_alloc_sha1sig_pool tcp_free_sha1sig_pool register_nf_out register_nf_in unregister_nf_out
      unregister_nf_in err_hash_table_cache err_nf_reg_out err_nf_reg_in err_sha1siq_pool err_bitmap
      err_alloc_slab err_alloc_file free_bitmap free_slab free_percpu_file destroy_cache unhook
      destroy_queue give_back
  minit_cache_lem k used =
      all k.writeread_wq_made k.hash_tab_made k.bucket_clear_made k.hash_cachep_made k.nf_out_taken
        k.nf_in_taken k.pool_made k.jprobe_taken
    where
      answers : Bool → Bool → Bool → Bool → Bool → Bool → Bool → Bool → Kernel
      answers a b c d e f g h = record k {
        writeread_wq_made = a;
        hash_tab_made = b;
        bucket_clear_made = c;
        hash_cachep_made = d;
        nf_out_taken = e;
        nf_in_taken = f;
        pool_made = g;
        jprobe_taken = h;
      }

      all :
          (a b c d e f g h : Bool)
          → seen (minit_cache (answers a b c d e f g h) (mapped used))
            ≡ expected (cache_outcome (answers a b c d e f g h))
      all false b c d e f g h = refl
      all true false c d e f g h = refl
      all true true false d e f g h = refl
      all true true true false e f g h = refl
      all true true true true false f g h = refl
      all true true true true true false g h = refl
      all true true true true true true false h =
          rw (free_bitmaps-live cpus, put_files-live cpus, any_live-freed cpus) refl
      all true true true true true true true false = rw some_cpu refl
      all true true true true true true true true =
          rw (some_cpu, put_files-live cpus, free_bitmaps-live cpus, any_live-freed cpus) refl

  -- free_slab and free_percpu_file release all the files and caches.
  err_alloc_slab-live :
      (m : Setup) (s : Slabs)
      → m.reserve_file ≡ replicate cpus live
      → free_slab m ≡ some (record m { slabs = s })
      → err_alloc_slab m ≡ some (record m { slabs = s; reserve_file = replicate cpus freed })
  unfolding err_alloc_slab err_alloc_file free_percpu_file
  err_alloc_slab-live m s files e = rw (e, err_alloc_slab) (rw (files, put_files-live cpus) refl)

  minit_bitmap_lem :
      (k : Kernel)
      → seen (minit_bitmap k cached)
        ≡ expected (bitmap_outcome k (after_refusal k.bitmap_made 0 cpus))
  unfolding minit_bitmap alloc_bitmap err_bitmap free_bitmap free_slab destroy_cache
  minit_bitmap_lem k =
      go (after_refusal k.bitmap_made 0 cpus) (make_bitmaps k.bitmap_made 0 (replicate cpus null) 0)
        (make_bitmaps-Made k.bitmap_made 0 cpus 0)
    where
      go :
          (o : Option ℕ) (r : Status × List Ptr × ℕ)
          → Made cpus o r
          → seen (
              or_goto
                (r.0, record cached { bitmap = r.1; used_mem = r.2 })
                err_bitmap
                (minit_cache k))
            ≡ expected (bitmap_outcome k o)
      go none (st, ps, used) (e, h) = rw (e, h) (minit_cache_lem k used)
      go (some j) (st, ps, used) (e, (ps', f, g)) =
          let m : Setup = record cached { bitmap = ps'; used_mem = used } in
          rw (e, f, err_alloc_slab-live m (slabs_of freed) refl refl, g, any_live-freed cpus) refl

  minit_slab_lem :
      (k : Kernel)
      → seen (minit_slab k opened) ≡ expected (slab_outcome k (after_refusal k.bitmap_made 0 cpus))
  unfolding minit_slab err_alloc_slab err_alloc_file free_percpu_file
  minit_slab_lem k = go (caches_made k) (alloc_slab k opened) (alloc_slab-Cached k opened)
    where
      go :
          (b : Bool) (r : Status × Setup)
          → Cached opened b r
          → seen (or_goto r err_alloc_slab (minit_bitmap k))
            ≡ expected (
                if not b
                then some (enomem, record nothing_held { queue = true })
                else bitmap_outcome k (after_refusal k.bitmap_made 0 cpus))
      go true r h = rw h (minit_bitmap_lem k)
      go false (st, m) (e, (s, f, g)) =
          rw (e, err_alloc_slab)
            (rw (f, put_files-live cpus, g, any_live-freed cpus, any_live-null cpus) refl)

  minit_lem : (k : Kernel) → seen (minit k (loaded cpus)) ≡ expected (outcome k cpus)
  unfolding minit init_some_parameters alloc_percpu_file err_alloc_file free_percpu_file
  minit_lem k = start k.skb_wq_made
    where
      rest : Option (Status × Held)
      rest =
          file_outcome k (after_refusal k.file_opened 0 cpus) (after_refusal k.bitmap_made 0 cpus)

      go :
          (o : Option ℕ) (r : Status × List Ptr)
          → Opened cpus o r
          → seen (or_goto (r.0, record queued { reserve_file = r.1 }) err_alloc_file (minit_slab k))
            ≡ expected (file_outcome k o (after_refusal k.bitmap_made 0 cpus))
      go none r h = rw h (minit_slab_lem k)
      go (some zero) (st, ps) (e, (ps', f, g)) = rw (e, f, g, any_live-null cpus) refl
      go (some (suc j)) (st, ps) (e, f) = rw (e, f) refl

      start :
          (b : Bool)
          → seen (
              or_goto
                (if not b
                  then (minus_one, record (loaded cpus) { skb_wq = null })
                  else (success, queued))
                some
                (λ m₁. or_goto (alloc_percpu_file k m₁) err_alloc_file (minit_slab k)))
            ≡ expected (if not b then some (minus_one, nothing_held) else rest)
      start true =
          go (after_refusal k.file_opened 0 cpus) (open_files k.file_opened 0 (replicate cpus null))
            (open_files-Opened k.file_opened 0 cpus)
      start false = rw (any_live-null cpus) refl

expected-unloaded :
    (r : Status × Setup) (e : Option (Status × Held))
    → seen (some r) ≡ expected e
    → (if is_negative r.0
        then some (held r.1)
        else (unhook r.1 >>= destroy_queue >>= give_back >>= λ m. some (held m)))
      ≡ unloaded (r.0, held r.1)
expected-unloaded r none h = cc
expected-unloaded r (some x) h =
    ap (λ p. p.1) (some_eq h) ∙ sym (ap unloaded (ap (λ p. p.0) (some_eq h)))

-- What the parts of mexit give back after a minit that returned 0.
pub minit-gives_back :
    (k : Kernel) (n : ℕ) (m : Setup)
    → minit k (loaded (suc n)) ≡ some (success, m)
    → (unhook m >>= destroy_queue >>= give_back >>= λ m'. some (held m')) ≡ (
        if is_live m.sha1sig_pool
        then some (record nothing_held { timers_memory = true })
        else none)
minit-gives_back k n m e =
    let h : seen (minit k (loaded (suc n))) ≡ expected (outcome k (suc n)) =
      minit_lem (suc n) refl k in
    let h' : seen (some (success, m)) ≡ expected (outcome k (suc n)) = rw e at h in
    expected-unloaded (success, m) _ h'
