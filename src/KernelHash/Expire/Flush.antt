-- ===== src/KernelHash/Expire/Flush.antt =====
-- `hash_flush` of model/kernel_hash/hash_table.c on items that have their data.
use kernel_test.Base.{
  ℕ, ◌+◌, ◌-◌, ◌≤◌, ◌<◌, ◌≡◌, ap, ◌∙◌, false, List, [], ◌∷◌, some, none, length, u32, add64, dec32,
  arith, Bool-cases, inl, inr, ◌≢◌, some_of_ne_none,
}
use kernel_test.KernelHash.Item.{Item, Stats, is_released}
use kernel_test.KernelHash.Memory.{free_data_memory}
use kernel_test.KernelHash.Sweep.{is_on_disk}
use kernel_test.KernelHash.Expire.{flush_bucket, hash_flush}

-- The data of each item that is not only on disk is in memory.
abbrev pub AllHeld : List Item → Type 0
AllHeld [] = Unit
AllHeld (cp ∷ cps) =
    (is_on_disk cp.flag_cache ≡ false → is_released cp.mem_style ≡ false) × AllHeld cps

abbrev pub BucketsHeld : List (List Item) → Type 0
BucketsHeld [] = Unit
BucketsHeld (b ∷ bs) = AllHeld b × BucketsHeld bs

-- The number of items in the buckets.
unfoldable pub total : List (List Item) → ℕ
total [] = 0
total (b ∷ bs) = length b + total bs

free-ne-none :
    (cp : Item) (st : Stats) → is_released cp.mem_style ≡ false → free_data_memory cp st ≢ none
unfolding free_data_memory
free-ne-none cp st h = ground arith

flush_bucket_lem :
    (cps : List Item) (n : ℕ) (st : Stats)
    → AllHeld cps
    → n < u32
    → length cps ≤ n
    → (st' : Stats) × (flush_bucket cps n st ≡ some (n - length cps, st'))
unfolding flush_bucket
flush_bucket_lem [] n st h lt le = (st, ap (λ (k : ℕ). some (k, st)) (omega arith))
flush_bucket_lem (cp ∷ cps) n st h lt le =
    let next : dec32 n ≡ n - 1 = omega arith in
    let count : n - 1 - length cps ≡ n - length (cp ∷ cps) = omega arith in
    elim (Bool-cases (is_on_disk cp.flag_cache)) [
      | inl x ↦
          let (st', e) = flush_bucket_lem cps (n - 1) st h.1 (omega arith) (omega arith) in
          let go =
            ap (λ (k : ℕ). flush_bucket cps k st) next ∙ e ∙ ap (λ (k : ℕ). some (k, st')) count in
          (st', rw x go)
      | inr x ↦
          let (r, f) = some_of_ne_none (free_data_memory cp st) (free-ne-none cp st (h.0 x)) in
          let st₁ : Stats = record (r.1) { mmf = add64 r.1.mmf cp.len } in
          let (st', e) = flush_bucket_lem cps (n - 1) st₁ h.1 (omega arith) (omega arith) in
          let go =
            ap (λ (k : ℕ). flush_bucket cps k st₁) next ∙ e ∙ ap (λ (k : ℕ). some (k, st')) count in
          (st', rw x (rw f go))
    ]

-- When the data of each item that is not only on disk is in memory, and `hash_count` counts the items
-- of the buckets and no fewer, `hash_flush` never stops at a `BUG()`, and lowers `hash_count` by the
-- number of items.
pub hash_flush-total :
    (bs : List (List Item)) (n : ℕ) (st : Stats)
    → BucketsHeld bs
    → n < u32
    → total bs ≤ n
    → (st' : Stats) × (hash_flush bs n st ≡ some (n - total bs, st'))
unfolding hash_flush total
hash_flush-total [] n st h lt le = (st, ap (λ (k : ℕ). some (k, st)) (omega arith))
hash_flush-total (b ∷ bs) n st h lt le =
    let (st₁, e) = flush_bucket_lem b n st h.0 lt (omega arith) in
    let (st', f) = hash_flush-total bs (n - length b) st₁ h.1 (omega arith) (omega arith) in
    let count : n - length b - total bs ≡ n - (length b + total bs) = omega arith in
    (st', rw e (f ∙ ap (λ (k : ℕ). some (k, st')) count))
