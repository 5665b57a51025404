-- ===== src/KernelHash/Sweep/Accounting.antt =====
-- What a sweep of model/kernel_hash/hash_table.c does to the counters and the bitmaps.
use kernel_test.Base.{
  ℕ, ◌+◌, ◌%◌, ◌≡◌, ◌≢◌, refl, ap, ◌∙◌, Bool, true, false, List, [], ◌∷◌, some, ◌>>=◌,
  if◌then◌else◌, Bool-cases, inl, inr, arith, add64, dec32, u64, >>=-eq-some, some_eq,
}
use kernel_test.KernelHash.Item.{MemStyle, released, kmalloced, slab1, slab2, slab3, Item, Stats}
use kernel_test.KernelHash.Memory.{free_data_memory}
use kernel_test.KernelHash.Memory.Laws.{mm}
use kernel_test.KernelHash.Sweep.{
  choose_write, Ward, expired, drop_data, drop_units, drop_missed, delete_item, promote_new,
  promote_unwritten, note_write, age_item, sweep, is_on_disk,
}
use kernel_test.KernelHash.Sweep.Survivors.{aged, age_item-aged}
use kernel_test.KernelHash.Sweep.Safety.{Sound, AllSound}

abbrev pub same_style : MemStyle → MemStyle → Bool
same_style released released = true
same_style kmalloced kmalloced = true
same_style slab1 slab1 = true
same_style slab2 slab2 = true
same_style slab3 slab3 = true
same_style _ _ = false

-- The bytes that an item, or a bucket, holds in one of the four kinds of memory.
abbrev pub charge : MemStyle → Item → ℕ
charge m cp = if same_style cp.mem_style m then cp.len else 0

unfoldable pub charges : MemStyle → List Item → ℕ
charges m [] = 0
charges m (cp ∷ cps) = charge m cp + charges m cps

-- The counter of a kind of memory falls by what the item held in it.
free-mm :
    (m : MemStyle) (cp : Item) (st : Stats) {r : Item × Stats}
    → m ≢ released
    → free_data_memory cp st ≡ some r
    → (mm m r.1 + charge m cp) % u64 ≡ mm m st % u64
unfolding free_data_memory
free-mm released cp st n h = absurd (n refl)
free-mm kmalloced cp st n h = ground arith
free-mm slab1 cp st n h = ground arith
free-mm slab2 cp st n h = ground arith
free-mm slab3 cp st n h = ground arith

drop_data-mm :
    (m : MemStyle) (cp : Item) (w : Ward) {w' : Ward}
    → m ≢ released
    → Sound cp
    → drop_data cp w ≡ some w'
    → (mm m w'.stats + charge m cp) % u64 ≡ mm m w.stats % u64
unfolding drop_data
drop_data-mm m cp w {w'} n s h = elim (Bool-cases (is_on_disk cp.flag_cache)) [
  | inl d ↦ on_disk_case m n d (rw (d, drop_data) at h)
  | inr d ↦
      let h' : (free_data_memory cp w.stats >>= λ r.
      some (record w { stats = record r.1 { mmf = add64 r.1.mmf cp.len } }))
          ≡ some w' =
        rw (d, drop_data) at h in
      let (r, e, f) = >>=-eq-some (free_data_memory cp w.stats) _ h' in
      keep_mm m r (some_eq f) (free-mm m cp w.stats n e)
]
  where
    on_disk_case :
        (m : MemStyle)
        → m ≢ released
        → is_on_disk cp.flag_cache ≡ true
        → some w ≡ some w'
        → (mm m w'.stats + charge m cp) % u64 ≡ mm m w.stats % u64
    on_disk_case released n d e = absurd (n refl)
    on_disk_case kmalloced n d e = ground arith
    on_disk_case slab1 n d e = ground arith
    on_disk_case slab2 n d e = ground arith
    on_disk_case slab3 n d e = ground arith

    keep_mm :
        (m : MemStyle) (r : Item × Stats)
        → record w { stats = record r.1 { mmf = add64 r.1.mmf cp.len } } ≡ w'
        → (mm m r.1 + charge m cp) % u64 ≡ mm m w.stats % u64
        → (mm m w'.stats + charge m cp) % u64 ≡ mm m w.stats % u64
    keep_mm released r e h = ground arith
    keep_mm kmalloced r e h = ground arith
    keep_mm slab1 r e h = ground arith
    keep_mm slab2 r e h = ground arith
    keep_mm slab3 r e h = ground arith

drop_units-stats :
    (cp : Item) (w : Ward) {w' : Ward} → drop_units cp w ≡ some w' → w'.stats ≡ w.stats
unfolding drop_units
drop_units-stats cp w h = ground arith

drop_missed-mm :
    (m : MemStyle) (cp : Item) (w : Ward) → mm m (drop_missed cp w).stats ≡ mm m w.stats
unfolding drop_missed
drop_missed-mm released cp w = refl
drop_missed-mm kmalloced cp w = ground arith
drop_missed-mm slab1 cp w = ground arith
drop_missed-mm slab2 cp w = ground arith
drop_missed-mm slab3 cp w = ground arith

promote_new-mm :
    (m : MemStyle) (cp : Item) (w : Ward) → mm m (promote_new cp w).1.stats ≡ mm m w.stats
unfolding promote_new
promote_new-mm released cp w = refl
promote_new-mm kmalloced cp w = ground arith
promote_new-mm slab1 cp w = ground arith
promote_new-mm slab2 cp w = ground arith
promote_new-mm slab3 cp w = ground arith

promote_unwritten-mm :
    (m : MemStyle) (cp : Item) (w : Ward) → mm m (promote_unwritten cp w).1.stats ≡ mm m w.stats
unfolding promote_unwritten
promote_unwritten-mm released cp w = refl
promote_unwritten-mm kmalloced cp w = ground arith
promote_unwritten-mm slab1 cp w = ground arith
promote_unwritten-mm slab2 cp w = ground arith
promote_unwritten-mm slab3 cp w = ground arith

note_write-stats : (cp : Item) (w : Ward) → (note_write cp w).stats ≡ w.stats
unfolding note_write
note_write-stats cp w = ground arith

age_item-mm : (m : MemStyle) (cp : Item) (w : Ward) → mm m (age_item cp w).1.stats ≡ mm m w.stats
unfolding age_item
age_item-mm m cp w =
    let cp₀ : Item = record cp { refcnt = dec32 cp.refcnt } in
    let r = promote_new cp₀ w in
    ap (mm m) (note_write-stats _ _)
    ∙ promote_unwritten-mm m (choose_write r.0) r.1
    ∙ promote_new-mm m cp₀ w

delete_item-mm :
    (m : MemStyle) (cp : Item) (w : Ward) {w' : Ward}
    → m ≢ released
    → Sound cp
    → delete_item cp w ≡ some w'
    → (mm m w'.stats + charge m cp) % u64 ≡ mm m w.stats % u64
unfolding delete_item
delete_item-mm m cp w n s h =
    let w₀ : Ward = record w { hash_count = dec32 w.hash_count } in
    let (w₁, e₁, h₁) = >>=-eq-some (drop_data cp w₀) _ h in
    let (w₂, e₂, h₂) = >>=-eq-some (drop_units cp w₁) _ h₁ in
    let kept : mm m (drop_missed cp w₂).stats ≡ mm m w₁.stats =
      drop_missed-mm m cp w₂ ∙ ap (mm m) (drop_units-stats cp w₁ e₂) in
    rw (← some_eq h₂, kept) (drop_data-mm m cp w₀ n s e₁)

charge-age_item : (m : MemStyle) (cp : Item) (w : Ward) → charge m (age_item cp w).0 ≡ charge m cp
unfolding aged
charge-age_item m cp w = rw (age_item-aged cp w)

-- For each kind of memory: a sweep of sound items that does not stop takes from the counter, modulo
-- 2^64, what the bucket holds less of it afterwards.
pub sweep-charges :
    (m : MemStyle) (cps : List Item) (w : Ward) {r : List Item × Ward}
    → m ≢ released
    → AllSound cps
    → sweep cps w ≡ some r
    → (mm m r.1.stats + charges m cps) % u64 ≡ (mm m w.stats + charges m r.0) % u64
unfolding sweep charges
sweep-charges m [] w n s h = rw (← some_eq h)
sweep-charges m (cp ∷ cps) w {r} n s h = elim (Bool-cases (expired cp)) [
  | inl x ↦
      let h' : (delete_item cp w >>= λ w'. sweep cps w') ≡ some r = rw (x, sweep) at h in
      let (w', e, f) = >>=-eq-some (delete_item cp w) (λ w'. sweep cps w') h' in
      omega (arith, delete_item-mm m cp w n s.0 e, sweep-charges m cps w' n s.1 f)
  | inr x ↦
      let (cp', w') = age_item cp w in
      let h' : (sweep cps w' >>= λ r. some (cp' ∷ r.0, r.1)) ≡ some r = rw (x, sweep) at h in
      let (q, e, f) = >>=-eq-some (sweep cps w') (λ r. some (cp' ∷ r.0, r.1)) h' in
      rw (← some_eq f)
        (omega (arith, age_item-mm m cp w, charge-age_item m cp w, sweep-charges m cps w' n s.1 e))
]
