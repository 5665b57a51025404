-- ===== src/KernelHash/Sweep/Safety.antt =====
-- `bucket_clear_item` of model/kernel_hash/hash_table.c never reaches `BUG()` on sound items.
use kernel_test.Base.{
  ℕ, ◌≡◌, ◌≢◌, refl, true, false, List, [], ◌∷◌, none, some, Bool-cases, inl, inr, arith,
  some_of_ne_none, dec32,
}
use kernel_test.KernelHash.Item.{
  is_released, MemStyle, FlagCache, in_memory, on_disk, to_write, always_memory, from_file, CpuId,
  Item, Stats, is_stored,
}
use kernel_test.KernelHash.Memory.{free_data_memory}
use kernel_test.KernelHash.Sweep.{
  Ward, expired, drop_data, drop_units, drop_missed, delete_item, promote_new, choose_write,
  promote_unwritten, note_store, age_item, sweep,
}

-- What the state of an item says of its data: where it is, and that it can be found there.
abbrev pub SoundAt : FlagCache → MemStyle → CpuId → ℕ → Type 0
SoundAt in_memory m c share = (is_released m ≡ false) × (is_stored c ≡ false)
SoundAt on_disk m c share = (is_released m ≡ true) × (is_stored c ≡ true)
SoundAt to_write m c share = is_released m ≡ false
SoundAt always_memory m c share = (is_released m ≡ false) × (is_stored c ≡ false)
SoundAt from_file m c share = ((share ≡ 1) → is_released m ≡ false) × (is_stored c ≡ true)

abbrev pub Sound : Item → Type 0
Sound cp = SoundAt cp.flag_cache cp.mem_style cp.cpuid cp.share_ref

abbrev pub AllSound : List Item → Type 0
AllSound [] = Unit
AllSound (cp ∷ cps) = Sound cp × AllSound cps

free-ne-none :
    (cp : Item) (st : Stats) → is_released cp.mem_style ≡ false → free_data_memory cp st ≢ none
unfolding free_data_memory
free-ne-none cp st h = ground arith

drop_data-ne-none : (cp : Item) (w : Ward) → Sound cp → cp.share_ref ≡ 1 → drop_data cp w ≢ none
unfolding drop_data
drop_data-ne-none cp w s x = ground (arith, free-ne-none cp w.stats)

drop_units-ne-none : (cp : Item) (w : Ward) → Sound cp → drop_units cp w ≢ none
unfolding drop_units
drop_units-ne-none cp w s = ground arith

delete_total :
    (cp : Item) (w : Ward)
    → Sound cp
    → expired cp ≡ true
    → (w' : Ward) × (delete_item cp w ≡ some w')
unfolding delete_item expired
delete_total cp w s x =
    let w₀ : Ward = record w { hash_count = dec32 w.hash_count } in
    let (w₁, e₁) = some_of_ne_none (drop_data cp w₀) (drop_data-ne-none cp w₀ s (ground arith)) in
    let (w₂, e₂) = some_of_ne_none (drop_units cp w₁) (drop_units-ne-none cp w₁ s) in
    (drop_missed cp w₂, rw (e₁, e₂))

-- Aging keeps an item sound.
pub age_item-Sound : (cp : Item) (w : Ward) → Sound cp → Sound (age_item cp w).0
unfolding age_item promote_new choose_write promote_unwritten note_store
age_item-Sound cp w s = ground arith

-- On a bucket of sound items a sweep never reaches `BUG()`, and what it keeps is sound.
pub sweep-AllSound :
    (cps : List Item) (w : Ward)
    → AllSound cps
    → (r : List Item × Ward) × (sweep cps w ≡ some r) × AllSound r.0
unfolding sweep
sweep-AllSound [] w s = (([], w), refl, tt)
sweep-AllSound (cp ∷ cps) w s = elim (Bool-cases (expired cp)) [
  | inl x ↦
      let (w', e) = delete_total cp w s.0 x in
      let (r, e', t) = sweep-AllSound cps w' s.1 in (r, rw (x, sweep) (rw e e'), t)
  | inr x ↦
      let (cp', w') = age_item cp w in
      let (r, e', t) = sweep-AllSound cps w' s.1 in
      ((cp' ∷ r.0, r.1), rw (x, sweep) (rw e'), (age_item-Sound cp w s.0, t))
]
