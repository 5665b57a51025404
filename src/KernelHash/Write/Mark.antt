-- ===== src/KernelHash/Write/Mark.antt =====
-- The first and the third pass of `wr_file` (model/kernel_hash/hash_table.c).
use kernel_test.Base.{
  ◌%◌, ℕ, ◌+◌, ◌*◌, ◌≤◌, ◌<◌, ◌≡◌, refl, ap, true, false, List, [], ◌∷◌, some, map, if◌then◌else◌,
  u64, arith, Bool-cases, inl, inr,
}
use kernel_test.KernelHash.Item.{
  Item, Stats, units, is_marked, is_released, released, on_disk, MemStyle,
}
use kernel_test.KernelHash.Memory.{free_data_memory}
use kernel_test.KernelHash.Sweep.{is_to_write}
use kernel_test.KernelHash.Write.{
  to_mark, mark, mark_pass, taken_back, to_store, to_free, free_pass,
}

-- The storage units that the items to be written take.
unfoldable pub marked_units : List Item → ℕ
marked_units [] = 0
marked_units (cp ∷ cps) = (if to_mark cp then units cp.len else 0) + marked_units cps

unfoldable pub mark1 : Item → Item
mark1 cp = if to_mark cp then mark cp else cp

pub units_bound : (len : ℕ) → (len ≤ 32 * units len) × (0 < units len)
unfolding units
units_bound len = ground arith

pub mark_pass_lem :
    (cps : List Item) (n : ℕ)
    → n + 32 * marked_units cps < u64
    → mark_pass cps n ≡ (map mark1 cps, n + 32 * marked_units cps)
unfolding mark_pass marked_units mark1
mark_pass_lem [] n h = ap (λ (k : ℕ). ([], k)) (omega arith)
mark_pass_lem (cp ∷ cps) n h = elim (Bool-cases (to_mark cp)) [
  | inl x ↦
      let h' : n + 32 * (units cp.len + marked_units cps) < u64 = rw x at h in
      let e : (n + units cp.len * 32) % u64 ≡ n + 32 * units cp.len = omega arith in
      rw (x, e, mark_pass_lem cps (n + 32 * units cp.len) (omega arith))
        (ap (λ (k : ℕ). (mark cp ∷ map mark1 cps, k)) (omega arith))
  | inr x ↦
      let h' : n + 32 * (0 + marked_units cps) < u64 = rw x at h in
      rw (x, mark_pass_lem cps n (omega arith))
        (ap (λ (k : ℕ). (cp ∷ map mark1 cps, k)) (omega arith))
]

-- What the second pass does with an item that the first pass marked, and with another one.
pub marked_lem :
    (cp : Item)
    → to_mark cp ≡ true
    → (taken_back (mark cp) ≡ false) × (to_store (mark cp) ≡ true) × (to_free (mark cp) ≡ false)
unfolding to_mark taken_back to_store mark to_free
marked_lem cp h = ground arith

pub unmarked_lem :
    (cp : Item) → is_marked cp.cpuid ≡ false → (taken_back cp ≡ false) × (to_store cp ≡ false)
unfolding taken_back to_store
unmarked_lem cp h = ground arith

pub to_mark-unshared :
    (cp : Item) → to_mark cp ≡ true → (is_to_write cp.flag_cache ≡ true) × (cp.share_ref ≡ 1)
unfolding to_mark
to_mark-unshared cp h = ground arith

-- An item whose data was freed.
unfoldable pub freed : Item → Item
freed cp =
    if to_free cp
    then record cp { flag_cache = on_disk; contents = []; mem_style = released }
    else cp

-- Each item that is freed has data.
abbrev pub AllFreeable : List Item → Type 0
AllFreeable [] = Unit
AllFreeable (cp ∷ cps) = (to_free cp ≡ true → is_released cp.mem_style ≡ false) × AllFreeable cps

free_one :
    (cp : Item) (st : Stats)
    → is_released cp.mem_style ≡ false
    → (st' : Stats) × (free_data_memory (record cp { flag_cache = on_disk }) st
        ≡ some (record cp { flag_cache = on_disk; contents = []; mem_style = released }, st'))
unfolding free_data_memory
free_one cp st h = go cp.mem_style h
  where
    go :
        (m : MemStyle)
        → is_released m ≡ false
        → (st' : Stats) × (free_data_memory (record cp { flag_cache = on_disk; mem_style = m }) st
            ≡ some (record cp { flag_cache = on_disk; contents = []; mem_style = released }, st'))
    go released h = cc
    go MemStyle.kmalloced h = (_, refl)
    go MemStyle.slab1 h = (_, refl)
    go MemStyle.slab2 h = (_, refl)
    go MemStyle.slab3 h = (_, refl)

pub free_pass_lem :
    (cps : List Item) (st : Stats)
    → AllFreeable cps
    → (st' : Stats) × (free_pass cps st ≡ some (map freed cps, st'))
unfolding free_pass freed
free_pass_lem [] st h = (st, refl)
free_pass_lem (cp ∷ cps) st h = elim (Bool-cases (to_free cp)) [
  | inl x ↦
      let (st₁, e) = free_one cp st (h.0 x) in
      let (st₂, f) = free_pass_lem cps st₁ h.1 in (st₂, rw (x, e, f))
  | inr x ↦ let (st₂, f) = free_pass_lem cps st h.1 in (st₂, rw (x, f))
]
