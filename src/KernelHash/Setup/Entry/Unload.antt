-- ===== src/KernelHash/Setup/Entry/Unload.antt =====
-- What mexit of model/kernel_hash/main.c does after minit.
use kernel_test.Base.{
  ℕ, suc, ◌≡◌, refl, sym, ◌∙◌, Bool, List, Option, none, some, ◌>>=◌, if◌then◌else◌, Option-cases,
  inl, inr, true, false, ap, some_eq,
}
use kernel_test.KernelHash.Item.{Item, Stats}
use kernel_test.KernelHash.Queue.{Skb, Queues}
use kernel_test.KernelHash.Setup.{Kernel, Setup, success, loaded, is_live}
use kernel_test.KernelHash.Setup.Entry.{
  minit, mexit, unhook, destroy_queue, give_back, empty_queues, flush_table,
}
use kernel_test.KernelHash.Setup.Entry.Expected.{Held, held, nothing_held}
use kernel_test.KernelHash.Setup.Entry.Outcome.{minit-gives_back}

>>=-none {ℓ κ} :
    {A : Type ℓ} {B : Type κ} (o : Option A) → ◌≡◌ {A = Option B} (o >>= λ a. none) none
>>=-none none = refl
>>=-none (some a) = refl

-- The parts held and what is left of the table.
abbrev pub held_after : Setup × ℕ × Stats → Option (Held × ℕ × Stats)
held_after (m, n, st) = some (held m, n, st)

module _ {ℓ} {S : Type ℓ} (cut : Skb → S → Option S) (read : S → Option S) (room : Queues S → Bool)
    (table : S → List (List Item) × ℕ × Stats) where
  -- What emptying the queues and the table leaves, with what is held then.
  abbrev pub emptied : ℕ → ℕ → ℕ → Queues S → Held → Option (Held × ℕ × Stats)
  emptied cpus here fuel q h = empty_queues cut read room table cpus here fuel q >>= λ q₁.
      flush_table cut read room table q₁ >>= λ t. some (h, t.0, t.1)

  -- The parts that are given back do not meet those that are emptied.
  mexit-emptied :
      (cpus here fuel : ℕ) (q : Queues S) (m : Setup)
      → (mexit cut read room table cpus here fuel q m >>= held_after)
        ≡ (unhook m >>= destroy_queue >>= give_back >>= λ m'. emptied cpus here fuel q (held m'))
  unfolding mexit
  mexit-emptied cpus here fuel q m = elim (Option-cases (unhook m)) [
    | inl e ↦ rw (e, mexit) refl
    | inr (m₁, e) ↦ rw (e, mexit) (queues m₁ (empty_queues cut read room table cpus here fuel q))
  ]
    where
      flushed :
          (o : Option (ℕ × Stats)) (g : Option Setup)
          → (o >>= (λ t. g >>= λ m₃. some (m₃, t.0, t.1)) >>= held_after)
            ≡ (g >>= λ m'. o >>= λ t. some (held m', t.0, t.1))
      flushed none none = refl
      flushed none (some m₃) = refl
      flushed (some t) none = refl
      flushed (some t) (some m₃) = refl

      queues :
          (m₁ : Setup) (o : Option (Queues S))
          → (o
              >>= (λ q₁. destroy_queue m₁ >>= λ m₂. flush_table cut read room table q₁ >>= λ t.
                  give_back m₂ >>= λ m₃. some (m₃, t.0, t.1))
              >>= held_after)
            ≡ (destroy_queue m₁ >>= give_back >>= λ m'.
                o >>= λ q₁. flush_table cut read room table q₁ >>= λ t. some (held m', t.0, t.1))
      queues m₁ none = sym (>>=-none (destroy_queue m₁ >>= give_back))
      queues m₁ (some q₁) = elim (Option-cases (destroy_queue m₁)) [
        | inl e ↦ rw e refl
        | inr (m₂, e) ↦ rw e (flushed (flush_table cut read room table q₁) (give_back m₂))
      ]

  -- mexit after a minit, on one processor or more, that returned 0, for any packets that wait and any
  -- table: if the pool of digests is held, then mexit runs to its end exactly if flush_workqueue,
  -- clear_remainder_skb and hash_flush do, and it leaves the count and counters that they leave, with
  -- nothing held but the memory of the timers of the buckets. If the pool is not held, mexit does not
  -- run to its end, whatever waits.
  pub mexit-unloaded :
      (k : Kernel) (n here fuel : ℕ) (q : Queues S) (m : Setup)
      → minit k (loaded (suc n)) ≡ some (success, m)
      → (mexit cut read room table (suc n) here fuel q m >>= held_after) ≡ (
          if is_live m.sha1sig_pool
          then emptied (suc n) here fuel q (record nothing_held { timers_memory = true })
          else none)
  mexit-unloaded k n here fuel q m e =
      mexit-emptied (suc n) here fuel q m
      ∙ observed (unhook m >>= destroy_queue >>= give_back) (is_live m.sha1sig_pool)
          (minit-gives_back k n m e)
    where
      observed :
          (o : Option Setup) (b : Bool)
          → (o >>= λ m'. some (held m'))
            ≡ (if b then some (record nothing_held { timers_memory = true }) else none)
          → (o >>= λ m'. emptied (suc n) here fuel q (held m')) ≡ (
              if b
              then emptied (suc n) here fuel q (record nothing_held { timers_memory = true })
              else none)
      observed none true h = cc
      observed none false h = refl
      observed (some m') true h = ap (emptied (suc n) here fuel q) (some_eq h)
      observed (some m') false h = cc
